-- ===== src/Receiver/Listener/State.antt =====
-- The listener's state and its events. A round is one `srt_accept` with what follows it, or one round of
-- the receive loop. Stopping is an event of its own, which may come between any two rounds.
use android2pc_stream.Prelude.{
  ℕ, zero, suc, ◌+◌, ◌%◌, ◌^◌, Bool, true, false, not, ◌&&◌, Option, List, [], ltb, if◌then◌else◌,
}
use android2pc_stream.Packets.{Packet}
use android2pc_stream.Receiver.Status.{ReceiverStatus, new_status}

abbrev pub payload_bytes : ℕ
payload_bytes = 1316

-- Where the thread is: before its first event, at the head of `run`, at the head of the accept loop, at
-- the head of the receive loop, or past its end.
pub data Phase : Type 0 where
  idle starting accepting receiving ended : Phase

abbrev pub is_over : Phase → Bool
is_over Phase.idle = true
is_over Phase.ended = true
is_over _ = false

abbrev pub is_starting : Phase → Bool
is_starting Phase.starting = true
is_starting _ = false

abbrev pub is_accepting : Phase → Bool
is_accepting Phase.accepting = true
is_accepting _ = false

abbrev pub is_receiving : Phase → Bool
is_receiving Phase.receiving = true
is_receiving _ = false

-- `forwarded` is what the sink took. `stopping` says that a call of `stop` waits for the thread.
pub record Listener : Type 0 where
  pub status : ReceiverStatus
  pub published : List ReceiverStatus
  pub running : Bool
  pub stopping : Bool
  pub phase : Phase
  pub listener_open : Bool
  pub peer_open : Bool
  pub previously_streamed : Bool
  pub media_started : Bool
  pub forwarded : List Packet

unfoldable pub new_listener : Listener
new_listener = record {
  status = new_status;
  published = [];
  running = false;
  stopping = false;
  phase = Phase.idle;
  listener_open = false;
  peer_open = false;
  previously_streamed = false;
  media_started = false;
  forwarded = [];
}

-- The global count of users of SRT, and whether the caller is one now.
unfoldable pub acquire_runtime : ℕ → Bool → ℕ × Bool
acquire_runtime users startup_works =
    if not (ltb 0 users) && not startup_works then (users, false) else ((users + 1) % 2 ^ 32, true)

-- The count, and whether `srt_cleanup` is called.
pub release_runtime : ℕ → ℕ × Bool
release_runtime zero = (0, false)
release_runtime (suc users) = (users, not (ltb 0 users))

-- What the calls at the start of `run` answer.
pub record Setup : Type 0 where
  pub runtime : Bool
  pub configured : Bool
  pub bound : Bool
  pub listens : Bool

-- One `srt_accept`: a socket, its options, the peer's address as text, the clock, the stream id and
-- whether `verify_encryption` answers true.
pub record Accept : Type 0 where
  pub peer : Bool
  pub options : Bool
  pub peer_host : Option (List ℕ)
  pub now : ℕ
  pub stream_id : Option (List ℕ)
  pub encrypted : Bool

-- What `srt_recvmsg2` answers: nothing yet from a connected peer, an error, or a message.
pub data Received : Type 0 where
  no_data broken : Received
  message : Packet → Received

-- One round of the receive loop. `client_connected` is read three times, and what the first read gives is
-- overwritten by the second.
pub record Receive : Type 0 where
  pub now : ℕ
  pub received : Received
  pub enqueued : Bool
  pub connected_at_ready : Bool
  pub connected_at_test : Bool
  pub decoder_ready : Bool

pub data Event : Type 0 where
  start : Bool → Event
  setup : Setup → Event
  accept : Accept → Event
  receive : Receive → Event
  request_stop joined : Event
