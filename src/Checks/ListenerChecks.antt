-- ===== src/Checks/ListenerChecks.antt =====
-- The listener's and the pipe's theorems at concrete inputs.
use android2pc_stream.Prelude.{
  ℕ, ◌≡◌, ◌↔◌, ◌⊎◌, refl, true, false, some, List, [], ◌∷◌, codes, replicate, arith,
}
use android2pc_stream.Receiver.Status.{new_status}
use android2pc_stream.Receiver.Listener.State.{
  Listener, Phase, Event, Setup, Accept, Receive, Received, new_listener, is_receiving,
}
use android2pc_stream.Receiver.Listener.Steps.{run, accept_peer, receive_round}
use android2pc_stream.Receiver.Listener.Invariant.{IsValid, run_listener-IsValid}
use android2pc_stream.Receiver.Listener.Admission.{
  Admits, accept_peer_iff, Forwards, receive_round-Forwards,
}
use android2pc_stream.Receiver.Listener.Encryption.{
  Secured, verify_encryption, verify_encryption_iff, aes_gcm_mode, Poll,
}
use android2pc_stream.Receiver.Sink.{Sink, Stage}
use android2pc_stream.Checks.Data.{desk, desk_address}

abbrev phone : Accept
phone = record {
  peer = true;
  options = true;
  peer_host = some desk_address;
  now = 1000;
  stream_id = some (codes "lcr/1/Pixel-7");
  encrypted = true;
}

abbrev payload : List ℕ
payload = 0x47 ∷ replicate 187 0xFF

abbrev arrival : Receive
arrival = record {
  now = 1001;
  received = Received.message payload;
  enqueued = true;
  connected_at_ready = true;
  connected_at_test = true;
  decoder_ready = true;
}

abbrev ready : Setup
ready = record { runtime = true; configured = true; bound = true; listens = true }

abbrev session : List Event
session =
    Event.start true
    ∷ Event.setup ready
    ∷ Event.accept phone
    ∷ Event.receive arrival
    ∷ Event.request_stop
    ∷ []

run_listener_example : IsValid desk (run desk 2000 new_listener session)
run_listener_example = run_listener-IsValid desk 2000 session

abbrev waiting : Listener
waiting = record {
  status = new_status;
  published = [];
  running = true;
  stopping = false;
  phase = Phase.accepting;
  listener_open = true;
  peer_open = false;
  previously_streamed = false;
  media_started = false;
  forwarded = [];
}

accept_peer_example :
    (is_receiving (accept_peer desk 2000 waiting phone).phase ≡ true)
    ↔ ((peer_host : List ℕ) × (device : List ℕ) × Admits desk 2000 phone peer_host device)
accept_peer_example = accept_peer_iff desk 2000 waiting phone refl refl

abbrev busy : Listener
busy = record waiting { phase = Phase.receiving; peer_open = true }

receive_example :
    ((receive_round desk 2000 busy arrival).forwarded ≡ [])
    ⊎ Forwards desk 2000 busy (receive_round desk 2000 busy arrival) arrival
receive_example = receive_round-Forwards desk 2000 busy arrival

abbrev polls : List Poll
polls = some (1, 0) ∷ some (2, 2) ∷ []

encryption_example :
    (verify_encryption 2 3 (some 2) polls ≡ true) ↔ (2 ≡ aes_gcm_mode) × Secured 2 3 polls
encryption_example = verify_encryption_iff 2 3 2 polls (omega arith)

abbrev writing : Sink
writing = record {
  running = true;
  restart_transport = false;
  client_connected = true;
  queue = record { packets = payload ∷ []; bytes = 188; cancelled = false };
  pipe_open = true;
  stage = Stage.writing;
  create_error = 0;
  create_backoff = 75;
  sent = [];
}
