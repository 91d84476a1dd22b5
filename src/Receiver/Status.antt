-- ===== src/Receiver/Status.antt =====
-- The listener's status: srt_listener.hpp, lines 14 to 46, and SrtListener::publish.
pub mod Text
use android2pc_stream.Prelude.{ℕ, Bool, true, false, ◌||◌, List, [], ◌∷◌, if◌then◌else◌}

pub data ReceiverState : Type 0 where
  stopped waiting_for_pairing listening authenticating streaming reconnecting failed : ReceiverState

pub data ReceiverError : Type 0 where
  no_error invalid_config startup bind listen authentication encryption_downgrade backpressure
        transport :
      ReceiverError

pub record ReceiverStatus : Type 0 where
  pub state : ReceiverState
  pub error : ReceiverError
  pub accepted_packets : ℕ
  pub accepted_packets_this_peer : ℕ
  pub dropped_packets : ℕ
  pub connected_device : List ℕ
  pub peer_address : List ℕ
  pub pipe_connected : Bool
  pub decoder_ready : Bool

unfoldable pub new_status : ReceiverStatus
new_status = record {
  state = ReceiverState.stopped;
  error = ReceiverError.no_error;
  accepted_packets = 0;
  accepted_packets_this_peer = 0;
  dropped_packets = 0;
  connected_device = [];
  peer_address = [];
  pipe_connected = false;
  decoder_ready = false;
}

-- `state == ReceiverState::listening`, and the states that forget the peer's names.
abbrev pub is_listening : ReceiverState → Bool
is_listening ReceiverState.listening = true
is_listening _ = false

abbrev pub forgets_peer : ReceiverState → Bool
forgets_peer ReceiverState.stopped = true
forgets_peer ReceiverState.listening = true
forgets_peer ReceiverState.failed = true
forgets_peer _ = false

abbrev forget_peer : ReceiverStatus → ReceiverStatus
forget_peer s = record s { connected_device = []; peer_address = [] }

abbrev forget_media : ReceiverStatus → ReceiverStatus
forget_media s = record s {
  accepted_packets_this_peer = 0;
  pipe_connected = false;
  decoder_ready = false;
}

-- The new status, which is also the snapshot that the callback gets.
unfoldable pub publish : ReceiverStatus → ReceiverState → ReceiverError → ReceiverStatus
publish s state error =
    let named = record s { state = state; error = error } in
    let known = if forgets_peer state then forget_peer named else named in
    if is_listening state then forget_media known else known
