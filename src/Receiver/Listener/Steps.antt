-- ===== src/Receiver/Listener/Steps.antt =====
-- SrtListener::start, run and stop, round by round.
use android2pc_stream.Prelude.{
  ℕ, Bool, true, false, not, ◌&&◌, ◌||◌, Option, none, some, List, [], ◌∷◌, ◌++◌, length, ltb, leb,
  if◌then◌else◌,
}
use android2pc_stream.Packets.{Packet, add_size}
use android2pc_stream.Platform.{Platform}
use android2pc_stream.Receiver.Config.{is_canonical_private_ipv4}
use android2pc_stream.Receiver.StreamId.{parse_device_stream_id}
use android2pc_stream.Receiver.Status.{ReceiverState, ReceiverError, publish}
use android2pc_stream.Receiver.TsGroup.{valid_ts_group}
use android2pc_stream.Receiver.Listener.State.{
  payload_bytes, Phase, is_over, is_starting, is_accepting, is_receiving, Listener, Setup, Accept,
  Received, Receive, Event,
}

-- `publish`, with the callback's snapshot.
abbrev pub announce : Listener → ReceiverState → ReceiverError → Listener
announce l state error =
    let status = publish l.status state error in
    record l { status = status; published = l.published ++ status ∷ [] }

abbrev pub retry_state : Listener → ReceiverState
retry_state l =
    if l.previously_streamed then ReceiverState.reconnecting else ReceiverState.listening

-- `start`, up to the new thread; a thread that has ended is joined. The flag is the answer of
-- `validate_config`.
unfoldable pub start_listener : Listener → Bool → Listener
start_listener l valid =
    if not valid
    then announce l ReceiverState.failed ReceiverError.invalid_config
    else if l.running
    then l
    else record l { running = true; phase = Phase.starting }

-- The end of `run` on one of its early returns.
abbrev pub fail_setup : Listener → ReceiverError → Listener
fail_setup l error = record (announce l ReceiverState.failed error) {
  running = false;
  phase = Phase.ended;
  listener_open = false;
}

unfoldable pub run_setup : Listener → Setup → Listener
run_setup l s =
    if not s.runtime
    then fail_setup l ReceiverError.startup
    else if not s.configured
    then fail_setup l ReceiverError.startup
    else if not s.bound
    then fail_setup l ReceiverError.bind
    else if not s.listens
    then fail_setup l ReceiverError.listen
    else record (announce l ReceiverState.listening ReceiverError.no_error) {
      phase = Phase.accepting;
      listener_open = true;
      peer_open = false;
      previously_streamed = false;
      media_started = false;
    }

-- The end of `run` behind its loop.
abbrev pub finish_run : Listener → Listener
finish_run l = record l { phase = Phase.ended; listener_open = false; peer_open = false }

-- The end of the receive loop, and the head of the accept loop behind it.
unfoldable pub leave_peer : Listener → Listener
leave_peer l =
    let closed = record l { phase = Phase.accepting; peer_open = false } in
    if l.running then announce closed (retry_state l) ReceiverError.no_error else closed

-- The peer is let in under its name.
abbrev pub admit_peer : Listener → List ℕ → List ℕ → Listener
admit_peer l device_label peer_host =
    let named = record l.status {
      connected_device = device_label;
      peer_address = peer_host;
      accepted_packets_this_peer = 0;
      pipe_connected = false;
      decoder_ready = false;
    } in
    record (announce (record l { status = named }) ReceiverState.authenticating
      ReceiverError.no_error) { phase = Phase.receiving; peer_open = true; media_started = false }

abbrev pub device_label_of : Option (List ℕ) → Option (List ℕ)
device_label_of none = none
device_label_of (some stream_id) = parse_device_stream_id stream_id

module _ (platform : Platform) (expires : ℕ) where
  -- From the address on.
  unfoldable pub check_peer : Listener → Accept → List ℕ → Listener
  check_peer l a peer_host =
      if not (is_canonical_private_ipv4 platform peer_host) || leb expires a.now
      then announce l ReceiverState.listening ReceiverError.authentication
      else elim (device_label_of a.stream_id) [
        | none ↦ announce l ReceiverState.listening ReceiverError.authentication
        | some device_label ↦
            if not a.encrypted
            then announce l ReceiverState.listening ReceiverError.encryption_downgrade
            else admit_peer l device_label peer_host
      ]

  -- One round of the accept loop.
  unfoldable pub accept_peer : Listener → Accept → Listener
  unfolding check_peer
  accept_peer l a =
      if not l.running
      then finish_run l
      else if not a.peer
      then announce l (retry_state l) ReceiverError.no_error
      else if not a.options
      then announce l (retry_state l) ReceiverError.transport
      else elim a.peer_host [
        | none ↦ announce l ReceiverState.listening ReceiverError.authentication
        | some peer_host ↦ check_peer l a peer_host
      ]

  -- The end of a round whose message the sink took.
  unfoldable pub count_message : Listener → Receive → Packet → Listener
  count_message l r bytes =
      let counted = record l {
        forwarded = l.forwarded ++ bytes ∷ [];
        status = record l.status {
          accepted_packets = add_size l.status.accepted_packets 1;
          accepted_packets_this_peer = add_size l.status.accepted_packets_this_peer 1;
          decoder_ready = r.decoder_ready;
          pipe_connected = r.connected_at_ready;
        };
      } in
      if not l.media_started
      then (if r.connected_at_test && r.decoder_ready
          then record (announce counted ReceiverState.streaming ReceiverError.no_error) {
            media_started = true;
            previously_streamed = true;
          }
          else counted)
      else if not r.connected_at_test || not r.decoder_ready
      then record (announce counted ReceiverState.authenticating ReceiverError.no_error) {
        media_started = false;
      }
      else counted

  -- A message that arrived.
  unfoldable pub take_message : Listener → Receive → Packet → Listener
  unfolding count_message leave_peer
  take_message l r bytes =
      if ltb payload_bytes (length bytes) || not (valid_ts_group bytes)
      then leave_peer (announce l ReceiverState.reconnecting ReceiverError.transport)
      else if not r.enqueued
      then leave_peer (
          announce
            (record l {
              status = record l.status { dropped_packets = add_size l.status.dropped_packets 1 };
            })
            ReceiverState.reconnecting ReceiverError.backpressure)
      else count_message l r bytes

  unfoldable pub take_received : Listener → Receive → Received → Listener
  unfolding take_message leave_peer
  take_received l r Received.no_data = l
  take_received l r Received.broken = leave_peer l
  take_received l r (Received.message bytes) = take_message l r bytes

  -- One round of the receive loop.
  unfoldable pub receive_round : Listener → Receive → Listener
  unfolding take_received leave_peer
  receive_round l r =
      if not l.running
      then leave_peer l
      else if leb expires r.now
      then leave_peer (record (announce l ReceiverState.failed ReceiverError.invalid_config) {
        running = false;
      })
      else take_received l r r.received

  -- The end of `stop`, behind the join.
  abbrev pub end_stop : Listener → Listener
  end_stop l = record (announce l ReceiverState.stopped ReceiverError.no_error) {
    stopping = false;
    phase = Phase.idle;
  }

  -- An event that does not belong to the phase changes nothing. A start while the thread runs is not modelled,
  -- where the source announces an invalid configuration all the same: its caller, `watch_config`, stops the
  -- listener first.
  unfoldable pub step : Listener → Event → Listener
  unfolding start_listener run_setup accept_peer receive_round
  step l (Event.start valid) =
      if is_over l.phase && not l.stopping then start_listener l valid else l
  step l (Event.setup s) = if is_starting l.phase then run_setup l s else l
  step l (Event.accept a) = if is_accepting l.phase then accept_peer l a else l
  step l (Event.receive r) = if is_receiving l.phase then receive_round l r else l
  step l Event.request_stop = record l {
    running = false;
    stopping = true;
    listener_open = false;
    peer_open = false;
  }
  step l Event.joined = if is_over l.phase then end_stop l else l

  unfoldable pub run : Listener → List Event → Listener
  unfolding step
  run l [] = l
  run l (event ∷ events) = run (step l event) events
