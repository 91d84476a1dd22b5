-- ===== src/Receiver/Listener/Admission.antt =====
-- Who is let in, and what is passed on.
use android2pc_stream.Prelude.{
  ℕ, ◌<◌, ◌≡◌, refl, ap, ◌↔◌, ◌⊎◌, inl, inr, true, false, not, ◌||◌, Option, none, some, List, [],
  ◌∷◌, ◌++◌, length, ltb, leb, Bool-cases, Option-cases, arith,
}
use android2pc_stream.Packets.{add_size}
use android2pc_stream.Platform.{Platform}
use android2pc_stream.Receiver.Config.{is_canonical_private_ipv4}
use android2pc_stream.Receiver.StreamId.{is_safe_device_label, device_stream_id_prefix}
use android2pc_stream.Receiver.StreamId.Labels.{parse_device_stream_id_iff}
use android2pc_stream.Receiver.Status.{ReceiverState, ReceiverError, publish}
use android2pc_stream.Receiver.TsGroup.{valid_ts_group}
use android2pc_stream.Receiver.Listener.State.{
  payload_bytes, Listener, is_receiving, is_accepting, Accept, Receive, Received,
}
use android2pc_stream.Receiver.Listener.Steps.{
  announce, check_peer, accept_peer, receive_round, take_received, take_message, count_message,
  leave_peer, device_label_of,
}

module _ (platform : Platform) (expires : ℕ) where
  -- A peer that may be let in: its socket is set up, its address is a private one, the credential has not
  -- expired, its stream id is the prefix and a safe name, and the connection is encrypted.
  pub record Admits (a : Accept) (peer_host device : List ℕ) : Type 0 where
    pub connected : a.peer ≡ true
    pub set_up : a.options ≡ true
    pub host_is : a.peer_host ≡ some peer_host
    pub private_address : is_canonical_private_ipv4 platform peer_host ≡ true
    pub in_time : a.now < expires
    pub stream_id_is : a.stream_id ≡ some (device_stream_id_prefix ++ device)
    pub safe_name : is_safe_device_label device ≡ true
    pub secure : a.encrypted ≡ true

  labelled :
      (stream_id : Option (List ℕ)) (device : List ℕ)
      → (device_label_of stream_id ≡ some device)
        ↔ (stream_id ≡ some (device_stream_id_prefix ++ device))
          × (is_safe_device_label device ≡ true)
  labelled none device = (λ h. cc, λ h. cc)
  labelled (some stream_id) device = (
    λ h. (
      ap (λ (s : List ℕ). some s) ((parse_device_stream_id_iff stream_id device).0 h).0,
      ((parse_device_stream_id_iff stream_id device).0 h).1,
    ),
    λ (e, safe). (parse_device_stream_id_iff stream_id device).1 (ground (arith, e), safe),
  )

  check_peer-Admits :
      (l : Listener) (a : Accept) (peer_host : List ℕ)
      → is_accepting l.phase ≡ true
      → a.peer ≡ true
      → a.options ≡ true
      → a.peer_host ≡ some peer_host
      → is_receiving (check_peer platform expires l a peer_host).phase ≡ true
      → (device : List ℕ) × Admits a peer_host device
  unfolding check_peer publish
  check_peer-Admits l a peer_host e p o h admitted =
      elim (Option-cases (device_label_of a.stream_id)) [
        | inl none_given ↦ absurd (ground arith)
        | inr (device, given) ↦
            let (id_is, safe) = (labelled a.stream_id device).0 given in
            let seen = rw given at admitted in
            (
              device,
              record {
                connected = p;
                set_up = o;
                host_is = h;
                private_address = ground arith;
                in_time = ground arith;
                stream_id_is = id_is;
                safe_name = safe;
                secure = ground arith;
              },
            )
      ]

  accept_peer-Admits :
      (l : Listener) (a : Accept)
      → is_accepting l.phase ≡ true
      → is_receiving (accept_peer platform expires l a).phase ≡ true
      → (peer_host : List ℕ) × (device : List ℕ) × Admits a peer_host device
  unfolding accept_peer
  accept_peer-Admits l a e admitted = elim (Option-cases a.peer_host) [
    | inl none_given ↦ absurd (ground arith)
    | inr (peer_host, given) ↦
        let (device, d) =
          check_peer-Admits l a peer_host e (ground arith) (ground arith) given (ground arith) in
        (peer_host, device, d)
  ]

  admitted_peer :
      (l : Listener) (a : Accept) (peer_host device : List ℕ)
      → l.running ≡ true
      → Admits a peer_host device
      → is_receiving (accept_peer platform expires l a).phase ≡ true
  unfolding accept_peer check_peer
  admitted_peer l a peer_host device r d =
      let named = (labelled a.stream_id device).1 (d.stream_id_is, d.safe_name) in
      rw (r, d.connected, d.set_up, d.host_is)
        (rw named (ground (arith, d.private_address, d.in_time, d.secure)))

  -- A round of the accept loop of a listener that is not stopped lets a peer in exactly when all of this
  -- holds: its socket is set up, its address is a canonical private one, the credential has not expired,
  -- its stream id is the prefix followed by a safe device name, and `verify_encryption` answered true.
  pub accept_peer_iff :
      (l : Listener) (a : Accept)
      → is_accepting l.phase ≡ true
      → l.running ≡ true
      → (is_receiving (accept_peer platform expires l a).phase ≡ true)
        ↔ ((peer_host : List ℕ) × (device : List ℕ) × Admits a peer_host device)
  accept_peer_iff l a e r =
      (accept_peer-Admits l a e, λ (peer_host, device, d). admitted_peer l a peer_host device r d)

  left_forwarded : (l : Listener) → (leave_peer l).forwarded ≡ l.forwarded
  unfolding leave_peer
  left_forwarded l = ground arith

  -- What one round of the receive loop may pass on: nothing, or the message that it received, in time,
  -- of whole transport packets, which the sink took.
  pub record Forwards (l final : Listener) (r : Receive) : Type 0 where
    pub bytes : List ℕ
    pub received_is : r.received ≡ Received.message bytes
    pub in_time : r.now < expires
    pub whole : valid_ts_group bytes ≡ true
    pub taken : r.enqueued ≡ true
    pub appended : final.forwarded ≡ l.forwarded ++ bytes ∷ []
    pub stays : final.phase ≡ l.phase

  count_message-Forwards :
      (l : Listener) (r : Receive) (bytes : List ℕ)
      → r.received ≡ Received.message bytes
      → r.now < expires
      → valid_ts_group bytes ≡ true
      → r.enqueued ≡ true
      → Forwards l (count_message platform expires l r bytes) r
  unfolding count_message publish
  count_message-Forwards l r bytes e h good taken = record {
    bytes = bytes;
    received_is = e;
    in_time = h;
    whole = good;
    taken = taken;
    appended = ground arith;
    stays = ground arith;
  }

  -- The two states in which a peer is left over its message.
  abbrev refused : Listener → Listener
  refused l = announce l ReceiverState.reconnecting ReceiverError.transport

  abbrev overflowed : Listener → Listener
  overflowed l =
      announce
        (record l {
          status = record l.status { dropped_packets = add_size l.status.dropped_packets 1 };
        })
        ReceiverState.reconnecting ReceiverError.backpressure

  take_received-Forwards :
      (l : Listener) (r : Receive) (received : Received)
      → r.received ≡ received
      → r.now < expires
      → ((take_received platform expires l r received).forwarded ≡ l.forwarded)
        ⊎ Forwards l (take_received platform expires l r received) r
  unfolding take_received take_message
  take_received-Forwards l r Received.no_data e h = inl refl
  take_received-Forwards l r Received.broken e h = inl (left_forwarded l)
  take_received-Forwards l r (Received.message bytes) e h =
      elim (Bool-cases (ltb payload_bytes (length bytes) || not (valid_ts_group bytes))) [
        | inl bad ↦ inl (rw bad (left_forwarded (refused l)))
        | inr good ↦ elim (Bool-cases (not r.enqueued)) [
          | inl dropped ↦ inl (rw (good, dropped) (left_forwarded (overflowed l)))
          | inr taken ↦ inr (
              rw (good, taken) (count_message-Forwards l r bytes e h (ground arith) (ground arith)))
        ]
      ]

  -- One round of the receive loop leaves what was passed on as it was, or adds the one message that it
  -- received: before the credential's expiry, a group of whole transport packets, taken by the sink.
  pub receive_round-Forwards :
      (l : Listener) (r : Receive)
      → ((receive_round platform expires l r).forwarded ≡ l.forwarded)
        ⊎ Forwards l (receive_round platform expires l r) r
  unfolding receive_round
  receive_round-Forwards l r = elim (Bool-cases (not l.running)) [
    | inl stopped ↦ inl (rw stopped (left_forwarded l))
    | inr running ↦ elim (Bool-cases (leb expires r.now)) [
      | inl late ↦ inl (
          rw (running, late)
            (left_forwarded (record (announce l ReceiverState.failed ReceiverError.invalid_config) {
              running = false;
            })))
      | inr in_time ↦
          rw (running, in_time) (take_received-Forwards l r r.received refl (ground arith))
    ]
  ]
