-- ===== src/Receiver/Window/Secrets.antt =====
-- The pairing window under any messages: what a shown code stands for, and when nothing of it is kept.
use android2pc_stream.Prelude.{
  ℕ, ◌≤◌, ◌≡◌, refl, inl, inr, ◌⊎◌, Bool, true, false, not, Option, some, List, [], ◌∷◌, leb,
  is_empty, codes, if◌then◌else◌, arith, if_ind, Option-cases,
}
use android2pc_stream.Platform.{Platform}
use android2pc_stream.Receiver.Store.{Disk, Dpapi, load_config_dpapi}
use android2pc_stream.Receiver.Network.{NetworkAddress}
use android2pc_stream.Receiver.Status.{ReceiverState}
use android2pc_stream.Receiver.Control.{
  receiver_status_command, is_show_qr_command, parse_receiver_status_command,
}
use android2pc_stream.Receiver.Source.Watch.{pairing_state}
use android2pc_stream.Receiver.Window.{
  Window, Attempt, set_status, load_or_create_config, create_pairing_qr,
}
use android2pc_stream.Receiver.Window.Messages.{
  Message, on_timer, on_receiver_status, on_close, posted, new_window, restore, load_saved_settings,
  create_window, handle, dispatch, run_window, show_main_window, destroy_window,
}
use android2pc_stream.Receiver.Window.Told.{load_or_create_config-Told}
use android2pc_stream.Receiver.Window.Material.{
  Cleared, Shown, IsValid, Told-IsValid, Kept-IsValid, Cleared-IsValid, hide_to_tray-Cleared,
  offer_of-IsValid, finish_of-IsValid, on_timer-IsValid, on_receiver_status-IsValid,
  on_close-IsValid,
}

module _ (platform : Platform) (dpapi : Dpapi) where
  new_window-IsValid : (addresses : List NetworkAddress) → IsValid platform (new_window addresses)
  new_window-IsValid addresses =
      Cleared-IsValid platform (new_window addresses)
        (record { no_code = refl; no_payload = refl; no_expiry = refl }) (λ h. refl)

  load_saved_settings-IsValid :
      (w : Window) (disk : Disk) (readable : Bool) (now : ℕ)
      → IsValid platform w
      → IsValid platform (load_saved_settings platform dpapi w disk readable now)
  unfolding load_saved_settings restore
  load_saved_settings-IsValid w disk readable now v =
      elim (Option-cases (load_config_dpapi platform dpapi readable disk now).0) [
        | inl e ↦ rw (e, load_saved_settings) v
        | inr (config, e) ↦
            rw (e, load_saved_settings)
              (Kept-IsValid platform w (restore platform w config) refl refl refl v.exits v)
      ]

  pub create_window-IsValid :
      (addresses : List NetworkAddress) (disk : Disk) (readable : Bool) (now : ℕ) (added : Bool)
      → IsValid platform (create_window platform dpapi addresses disk readable now added)
  unfolding create_window
  create_window-IsValid addresses disk readable now added =
      let w = new_window addresses in
      let v = new_window-IsValid addresses in
      let made : IsValid platform (
          if is_empty addresses
          then set_status w (codes "Connect this PC to a private Wi-Fi or Ethernet network first.")
          else load_saved_settings platform dpapi w disk readable now) =
        if_ind (IsValid platform) (is_empty addresses) _ _
          (λ e. Told-IsValid platform w _ (_, refl) v)
          (λ e. load_saved_settings-IsValid w disk readable now v) in
      Kept-IsValid platform _ _ refl refl refl made.exits made

module _ (platform : Platform) (dpapi : Dpapi) (wide_to_utf8 : List ℕ → Option (List ℕ))
    (encodes : List ℕ → Bool) where
  loaded-IsValid :
      (w : Window) (disk : Disk) (a : Attempt)
      → IsValid platform w
      → IsValid platform (load_or_create_config platform dpapi wide_to_utf8 w disk a).0
  loaded-IsValid w disk a v =
      Told-IsValid platform w _
        (load_or_create_config-Told platform dpapi wide_to_utf8 encodes w disk a) v

  create_pairing_qr-IsValid :
      (w : Window) (disk : Disk) (a : Attempt)
      → IsValid platform w
      → IsValid platform (create_pairing_qr platform dpapi wide_to_utf8 encodes w disk a).0
  unfolding create_pairing_qr
  create_pairing_qr-IsValid w disk a v =
      offer_of-IsValid platform encodes (load_or_create_config platform dpapi wide_to_utf8 w disk a)
        a.qr_now (loaded-IsValid w disk a v)

  shown-IsValid : (w : Window) → IsValid platform w → IsValid platform (show_main_window w)
  shown-IsValid w v = Kept-IsValid platform w (show_main_window w) refl refl refl v.exits v

  destroyed-IsValid :
      (w : Window)
      → IsValid platform w
      → IsValid platform (destroy_window (record w { allow_exit = true }))
  destroyed-IsValid w v = Kept-IsValid platform w _ refl refl refl (λ h. cc) v

  handle-IsValid :
      (w : Window) (disk : Disk) (message : Message)
      → IsValid platform w
      → IsValid platform (handle platform dpapi wide_to_utf8 encodes w disk message).0
  unfolding handle
  handle-IsValid w disk (Message.rotate a) v = create_pairing_qr-IsValid w disk a v
  handle-IsValid w disk (Message.finish a added) v =
      finish_of-IsValid platform (load_or_create_config platform dpapi wide_to_utf8 w disk a) added
        (loaded-IsValid w disk a v)
  handle-IsValid w disk Message.tray_open v = shown-IsValid w v
  handle-IsValid w disk Message.tray_exit v = destroyed-IsValid w v
  handle-IsValid w disk Message.activate v = shown-IsValid w v
  handle-IsValid w disk (Message.timer now) v = on_timer-IsValid platform w now v
  handle-IsValid w disk (Message.show_qr a) v =
      create_pairing_qr-IsValid (show_main_window w) disk a (shown-IsValid w v)
  handle-IsValid w disk (Message.receiver_status raw) v =
      on_receiver_status-IsValid platform w raw v
  handle-IsValid w disk (Message.close added) v = on_close-IsValid platform w added v
  handle-IsValid w disk (Message.end_session ending) v =
      if_ind (IsValid platform) ending _ _ (λ e. destroyed-IsValid w v) (λ e. v)
  handle-IsValid w disk (Message.select index) v =
      Kept-IsValid platform w (record w { network = index }) refl refl refl v.exits v
  handle-IsValid w disk (Message.edit_label text) v =
      Kept-IsValid platform w (record w { label = text }) refl refl refl v.exits v
  handle-IsValid w disk (Message.edit_latency text) v =
      Kept-IsValid platform w (record w { latency = text }) refl refl refl v.exits v

  dispatch-IsValid :
      (w : Window) (disk : Disk) (message : Message)
      → IsValid platform w
      → IsValid platform (dispatch platform dpapi wide_to_utf8 encodes w disk message).0
  unfolding dispatch
  dispatch-IsValid w disk message v =
      if_ind (λ (made : Window × Disk). IsValid platform made.0) w.destroyed _ _ (λ e. v)
        (λ e. handle-IsValid w disk message v)

  -- Whatever messages reach a valid window, and whatever the system, the file and the generator answer: it
  -- has no code, no payload and no expiry, or its code shows the payload, which is the link of a
  -- configuration that was valid when it was made, with an expiry after that time, at most ten minutes after
  -- it, and not after the credential's. Once it may exit, it is destroyed.
  pub run_window-IsValid :
      (w : Window) (disk : Disk) (messages : List Message)
      → IsValid platform w
      → IsValid platform (run_window platform dpapi wide_to_utf8 encodes w disk messages).0
  unfolding run_window
  run_window-IsValid w disk [] v = v
  run_window-IsValid w disk (message ∷ messages) v =
      let (after, stored) = dispatch platform dpapi wide_to_utf8 encodes w disk message in
      run_window-IsValid after stored messages (dispatch-IsValid w disk message v)

  -- The messages behind which nothing is kept.
  pub data Ends (w : Window) : Message → Type 0 where
    expired : (now : ℕ) → w.qr_expires ≤ now → Ends w (Message.timer now)
    closed : (added : Bool) → Ends w (Message.close added)
    streaming :
        (a : Attempt) (message : Message)
        → posted (receiver_status_command (pairing_state ReceiverState.streaming)) a ≡ some message
        → Ends w message

  timer-Cleared :
      (w : Window) (now : ℕ)
      → Cleared w ⊎ Shown platform w
      → w.qr_expires ≤ now
      → Cleared (on_timer w now)
  unfolding on_timer
  timer-Cleared w now (inl c) h = rw (c.no_code, on_timer) c
  timer-Cleared w now (inr s) h =
      let late : leb w.qr_expires now ≡ true = ground arith in
      rw (s.code, on_timer, late) (record { no_code = refl; no_payload = refl; no_expiry = refl })

  posted-streaming :
      (a : Attempt)
      → posted (receiver_status_command (pairing_state ReceiverState.streaming)) a
        ≡ some (Message.receiver_status 4)
  unfolding posted receiver_status_command pairing_state is_show_qr_command
      parse_receiver_status_command
  posted-streaming a = refl

  handle-Cleared :
      (w : Window) (disk : Disk) (message : Message)
      → IsValid platform w
      → w.destroyed ≡ false
      → Ends w message
      → Cleared (handle platform dpapi wide_to_utf8 encodes w disk message).0
  unfolding handle on_close on_receiver_status
  handle-Cleared w disk _ v d (expired now late) = timer-Cleared w now v.material late
  handle-Cleared w disk _ v d (closed added) =
      if_ind Cleared (not w.allow_exit) _ _ (λ e. hide_to_tray-Cleared platform w added)
        (λ e. cc (v.exits d))
  handle-Cleared w disk _ v d (streaming a message e) =
      let same : Message.receiver_status 4 ≡ message = cc (e, posted-streaming a) in
      rw (← same) (record { no_code = refl; no_payload = refl; no_expiry = refl })

  -- After any messages to a new window that is not destroyed by them, its code, its payload and the expiry are
  -- gone once it handles a tick of its timer at or after the expiry, a close, or what the pipe posts for the
  -- message that the OBS source sends while the phone streams.
  pub run_window-Cleared :
      (addresses : List NetworkAddress) (disk : Disk) (readable : Bool) (now : ℕ) (added : Bool)
      (messages : List Message) (message : Message)
      → (let (w, stored) =
            run_window platform dpapi wide_to_utf8 encodes
              (create_window platform dpapi addresses disk readable now added)
              disk
              messages in
          w.destroyed ≡ false
          → Ends w message
          → Cleared (dispatch platform dpapi wide_to_utf8 encodes w stored message).0)
  unfolding dispatch
  run_window-Cleared addresses disk readable now added messages message d ends =
      let made = create_window platform dpapi addresses disk readable now added in
      let v =
        run_window-IsValid made disk messages
          (create_window-IsValid platform dpapi addresses disk readable now added) in
      rw d (handle-Cleared _ _ message v d ends)
