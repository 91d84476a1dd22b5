-- ===== src/Receiver/Listener/Invariant.antt =====
-- What holds of the listener between any two events.
use android2pc_stream.Prelude.{
  ℕ, ◌≡◌, inl, inr, Bool, true, false, Option, none, some, List, [], ◌∷◌, ◌++◌, All, All-append,
  Option-cases, arith,
}
use android2pc_stream.Packets.{add_size}
use android2pc_stream.Platform.{Platform}
use android2pc_stream.Receiver.Config.{is_canonical_private_ipv4}
use android2pc_stream.Receiver.StreamId.{is_safe_device_label}
use android2pc_stream.Receiver.StreamId.Labels.{parse_device_stream_id_iff}
use android2pc_stream.Receiver.Status.{
  ReceiverStatus, ReceiverState, ReceiverError, new_status, publish,
}
use android2pc_stream.Receiver.TsGroup.{valid_ts_group}
use android2pc_stream.Receiver.Listener.State.{
  Listener, Event, Setup, Accept, Receive, Received, new_listener, is_over, is_starting,
  is_accepting, is_receiving,
}
use android2pc_stream.Receiver.Listener.Steps.{
  start_listener, run_setup, leave_peer, check_peer, accept_peer, count_message, take_message,
  take_received, receive_round, step, run, announce, device_label_of,
}

abbrev pub is_streaming : ReceiverState → Bool
is_streaming ReceiverState.streaming = true
is_streaming _ = false

module _ (platform : Platform) where
  -- The peer that the status names is one that may be let in.
  pub record KnownPeer (s : ReceiverStatus) : Type 0 where
    pub safe_name : is_safe_device_label s.connected_device ≡ true
    pub private_address : is_canonical_private_ipv4 platform s.peer_address ≡ true

  pub record IsValid (l : Listener) : Type 0 where
    pub known : is_receiving l.phase ≡ true → KnownPeer l.status
    pub streaming_live :
        is_streaming l.status.state ≡ true → l.stopping ≡ false → is_receiving l.phase ≡ true
    pub streaming_media :
        is_streaming l.status.state ≡ true
        → (l.status.decoder_ready ≡ true) × (l.media_started ≡ true)
    pub stopped_peer : is_receiving l.phase ≡ true → l.running ≡ false → l.stopping ≡ true
    pub closed : is_over l.phase ≡ true → (l.listener_open ≡ false) × (l.peer_open ≡ false)
    pub peer_phase : l.peer_open ≡ true → is_receiving l.phase ≡ true
    pub carried : All (λ bytes. valid_ts_group bytes ≡ true) l.forwarded

  pub new_listener-IsValid : IsValid new_listener
  unfolding new_listener new_status
  new_listener-IsValid = ground arith

  start_listener-IsValid :
      (l : Listener) (valid : Bool)
      → is_over l.phase ≡ true
      → l.stopping ≡ false
      → IsValid l
      → IsValid (start_listener l valid)
  unfolding start_listener publish
  start_listener-IsValid l valid o s v = ground arith

  run_setup-IsValid :
      (l : Listener) (s : Setup) → is_starting l.phase ≡ true → IsValid l → IsValid (run_setup l s)
  unfolding run_setup publish
  run_setup-IsValid l s e v = ground arith

  leave_peer-IsValid :
      (l : Listener)
      → (l.running ≡ false → is_streaming l.status.state ≡ true → l.stopping ≡ true)
      → (is_streaming l.status.state ≡ true
          → (l.status.decoder_ready ≡ true) × (l.media_started ≡ true))
      → All (λ bytes. valid_ts_group bytes ≡ true) l.forwarded
      → IsValid (leave_peer l)
  unfolding leave_peer publish
  leave_peer-IsValid l quiet media carried = ground arith

  parsed_label :
      (stream_id : Option (List ℕ)) (label : List ℕ)
      → device_label_of stream_id ≡ some label
      → is_safe_device_label label ≡ true
  parsed_label none label e = cc
  parsed_label (some stream_id) label e = ((parse_device_stream_id_iff stream_id label).0 e).1

  check_peer-IsValid :
      (expires : ℕ) (l : Listener) (a : Accept) (peer_host : List ℕ)
      → is_accepting l.phase ≡ true
      → l.running ≡ true
      → IsValid l
      → IsValid (check_peer platform expires l a peer_host)
  unfolding check_peer publish
  check_peer-IsValid expires l a peer_host e r v =
      elim (Option-cases (device_label_of a.stream_id)) [
        | inl none_given ↦ rw none_given (ground arith)
        | inr (label, given) ↦ rw given (ground (arith, parsed_label a.stream_id label given))
      ]

  accept_peer-IsValid :
      (expires : ℕ) (l : Listener) (a : Accept)
      → is_accepting l.phase ≡ true
      → IsValid l
      → IsValid (accept_peer platform expires l a)
  unfolding accept_peer publish
  accept_peer-IsValid expires l a e v = elim (Option-cases a.peer_host) [
    | inl none_given ↦ rw none_given (ground arith)
    | inr (peer_host, given) ↦ rw given (ground (arith, check_peer-IsValid expires l a peer_host e))
  ]

  count_message-forwarded :
      (expires : ℕ) (l : Listener) (r : Receive) (bytes : List ℕ)
      → (count_message platform expires l r bytes).forwarded ≡ l.forwarded ++ bytes ∷ []
  unfolding count_message
  count_message-forwarded expires l r bytes = ground arith

  count_message-IsValid :
      (expires : ℕ) (l : Listener) (r : Receive) (bytes : List ℕ)
      → is_receiving l.phase ≡ true
      → valid_ts_group bytes ≡ true
      → IsValid l
      → IsValid (count_message platform expires l r bytes)
  unfolding count_message publish
  count_message-IsValid expires l r bytes e good v = record {
    known = ground arith;
    streaming_live = ground arith;
    streaming_media = ground arith;
    stopped_peer = ground arith;
    closed = ground arith;
    peer_phase = ground arith;
    carried =
        rw (count_message-forwarded expires l r bytes)
          (All-append (λ b. valid_ts_group b ≡ true) l.forwarded (bytes ∷ []) v.carried (good, tt));
  }

  take_message-IsValid :
      (expires : ℕ) (l : Listener) (r : Receive) (bytes : List ℕ)
      → is_receiving l.phase ≡ true
      → IsValid l
      → IsValid (take_message platform expires l r bytes)
  unfolding take_message publish
  take_message-IsValid expires l r bytes e v =
      let refused = announce l ReceiverState.reconnecting ReceiverError.transport in
      let dropped =
        announce
          (record l {
            status = record l.status { dropped_packets = add_size l.status.dropped_packets 1 };
          })
          ReceiverState.reconnecting ReceiverError.backpressure in
      ground (
        arith,
        count_message-IsValid expires l r bytes e,
        leave_peer-IsValid refused (λ h. ground arith) (λ h. ground arith) v.carried,
        leave_peer-IsValid dropped (λ h. ground arith) (λ h. ground arith) v.carried,
      )

  left_peer-IsValid :
      (l : Listener) → is_receiving l.phase ≡ true → IsValid l → IsValid (leave_peer l)
  left_peer-IsValid l e v = leave_peer-IsValid l (λ h s. ground arith) v.streaming_media v.carried

  take_received-IsValid :
      (expires : ℕ) (l : Listener) (r : Receive) (received : Received)
      → is_receiving l.phase ≡ true
      → IsValid l
      → IsValid (take_received platform expires l r received)
  unfolding take_received
  take_received-IsValid expires l r Received.no_data e v = v
  take_received-IsValid expires l r Received.broken e v = left_peer-IsValid l e v
  take_received-IsValid expires l r (Received.message bytes) e v =
      take_message-IsValid expires l r bytes e v

  receive_round-IsValid :
      (expires : ℕ) (l : Listener) (r : Receive)
      → is_receiving l.phase ≡ true
      → IsValid l
      → IsValid (receive_round platform expires l r)
  unfolding receive_round publish
  receive_round-IsValid expires l r e v =
      let expired : Listener =
        record (announce l ReceiverState.failed ReceiverError.invalid_config) { running = false } in
      ground (
        arith,
        left_peer-IsValid l e v,
        leave_peer-IsValid expired (λ h s. ground arith) (λ s. ground arith) v.carried,
        take_received-IsValid expires l r r.received e v,
      )

  step-IsValid :
      (expires : ℕ) (l : Listener) (event : Event)
      → IsValid l
      → IsValid (step platform expires l event)
  unfolding step publish
  step-IsValid expires l (Event.start valid) v = ground (arith, start_listener-IsValid l valid)
  step-IsValid expires l (Event.setup s) v = ground (arith, run_setup-IsValid l s)
  step-IsValid expires l (Event.accept a) v = ground (arith, accept_peer-IsValid expires l a)
  step-IsValid expires l (Event.receive r) v = ground (arith, receive_round-IsValid expires l r)
  step-IsValid expires l Event.request_stop v = ground arith
  step-IsValid expires l Event.joined v = ground arith

  run-IsValid :
      (l : Listener) (expires : ℕ) (events : List Event)
      → IsValid l
      → IsValid (run platform expires l events)
  unfolding run
  run-IsValid l expires [] v = v
  run-IsValid l expires (event ∷ events) v =
      run-IsValid (step platform expires l event) expires events (step-IsValid expires l event v)

  -- After any events: a thread that receives has a peer with a safe name and a private address; the
  -- state is `streaming` only while such a peer is received from (unless a stop is under way) and only
  -- with a ready decoder; the peer's socket is open only while it is received from, no socket is open
  -- when the thread is over, and every payload that the sink took is a group of whole transport packets.
  pub run_listener-IsValid :
      (expires : ℕ) (events : List Event) → IsValid (run platform expires new_listener events)
  run_listener-IsValid expires events = run-IsValid new_listener expires events new_listener-IsValid
