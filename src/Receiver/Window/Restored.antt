-- ===== src/Receiver/Window/Restored.antt =====
-- A new pairing window shows the settings of the saved configuration, and takes it again as it is.
use android2pc_stream.Prelude.{
  ℕ, ◌≤◌, ◌≡◌, refl, sym, ap, ◌∙◌, Bool, true, false, Option, some, List, is_empty, if◌then◌else◌,
  arith, list_eqb_self, codes,
}
use android2pc_stream.Platform.{Platform}
use android2pc_stream.Receiver.Config.{ReceiverConfig}
use android2pc_stream.Receiver.Config.Valid.{Valid}
use android2pc_stream.Receiver.Store.{Disk, Dpapi, load_config_dpapi}
use android2pc_stream.Receiver.Link.{build_pairing_payload}
use android2pc_stream.Receiver.Network.{NetworkAddress, saved_network_index}
use android2pc_stream.Receiver.Window.{
  Window, Attempt, receiver_port, address_at, window_text, utf8, parse_u16, reuse_or_create,
  right_port, right_latency, same_settings, set_status, load_or_create_config, show_payload,
  qr_expiry, create_pairing_qr,
}
use android2pc_stream.Receiver.Window.Messages.{
  or_selected, restore, load_saved_settings, create_window, new_window,
}
use android2pc_stream.Receiver.Window.Controls.{
  Converts, parse_u16-to_string, label-restored, selected-host,
}

-- A saved configuration with the same settings is taken as it is.
pub reuse_or_create-same :
    (platform : Platform) (dpapi : Dpapi) (w : Window) (disk : Disk) (a : Attempt)
    (c : ReceiverConfig) (label host : List ℕ) (port latency : ℕ)
    → (load_config_dpapi platform dpapi a.readable disk a.now).0 ≡ some c
    → same_settings c label host port latency ≡ true
    → reuse_or_create platform dpapi w disk a label host port latency ≡ (w, disk, some c)
unfolding reuse_or_create
reuse_or_create-same platform dpapi w disk a c label host port latency e same =
    rw (e, reuse_or_create, same) refl

right_latency-some :
    (latency : ℕ) → 60 ≤ latency → latency ≤ 2000 → right_latency (some latency) ≡ some latency
right_latency-some latency h k = ground arith

same_settings_self :
    (c : ReceiverConfig) → same_settings c c.label c.host c.port c.latency_ms ≡ true
same_settings_self c = rw (list_eqb_self c.label, list_eqb_self c.host) (ground arith)

module _ (platform : Platform) (dpapi : Dpapi) (wide_to_utf8 : List ℕ → Option (List ℕ)) where
  load_saved_settings-restore :
      (w : Window) (disk : Disk) (readable : Bool) (now : ℕ) (c : ReceiverConfig)
      → (load_config_dpapi platform dpapi readable disk now).0 ≡ some c
      → load_saved_settings platform dpapi w disk readable now ≡ restore platform w c
  unfolding load_saved_settings
  load_saved_settings-restore w disk readable now c loaded = rw (loaded, load_saved_settings) refl

  -- The window that WM_CREATE makes from a saved configuration of a listed host.
  create_window-restore :
      (addresses : List NetworkAddress) (disk : Disk) (readable : Bool) (now : ℕ) (added : Bool)
      (c : ReceiverConfig)
      → (load_config_dpapi platform dpapi readable disk now).0 ≡ some c
      → is_empty addresses ≡ false
      → create_window platform dpapi addresses disk readable now added
        ≡ record (restore platform (new_window addresses) c) { tray_added = added }
  unfolding create_window
  create_window-restore addresses disk readable now added c loaded some_address =
      ap (λ (made : Window). record made { tray_added = added })
        (ap
            (λ (test : Bool).
              if test
              then set_status (new_window addresses)
                  (codes "Connect this PC to a private Wi-Fi or Ethernet network first.")
              else load_saved_settings platform dpapi (new_window addresses) disk readable now)
            some_address
          ∙ load_saved_settings-restore (new_window addresses) disk readable now c loaded)

  -- A window with a configuration's settings takes it.
  taken :
      (w : Window) (disk : Disk) (a : Attempt) (c : ReceiverConfig) (now : ℕ)
      → Valid platform c now
      → address_at w.addresses w.network ≡ some c.host
      → parse_u16 wide_to_utf8 w.port ≡ some receiver_port
      → parse_u16 wide_to_utf8 w.latency ≡ some c.latency_ms
      → utf8 wide_to_utf8 (window_text w.label) ≡ c.label
      → c.port ≡ receiver_port
      → (load_config_dpapi platform dpapi a.readable disk a.now).0 ≡ some c
      → load_or_create_config platform dpapi wide_to_utf8 w disk a ≡ (w, disk, some c)
  unfolding load_or_create_config
  taken w disk a c now v selected port latency label same_port loaded =
      let port_right : right_port (parse_u16 wide_to_utf8 w.port) ≡ some receiver_port =
        ap right_port port in
      let latency_right : right_latency (parse_u16 wide_to_utf8 w.latency) ≡ some c.latency_ms =
        ap right_latency latency ∙ right_latency-some c.latency_ms v.latency_least v.latency_most in
      let same : same_settings c c.label c.host receiver_port c.latency_ms ≡ true =
        ap (λ (p : ℕ). same_settings c c.label c.host p c.latency_ms) (sym same_port)
        ∙ same_settings_self c in
      rw (selected, load_or_create_config, port_right, latency_right, label)
        (reuse_or_create-same platform dpapi w disk a c c.label c.host receiver_port c.latency_ms
          loaded same)

  -- A window that is made with a saved configuration takes it.
  create_window-taken :
      (addresses : List NetworkAddress) (disk : Disk) (readable : Bool) (now : ℕ) (added : Bool)
      (a : Attempt) (c : ReceiverConfig) (index : ℕ)
      → Converts platform wide_to_utf8
      → Valid platform c now
      → c.port ≡ receiver_port
      → (load_config_dpapi platform dpapi readable disk now).0 ≡ some c
      → (load_config_dpapi platform dpapi a.readable disk a.now).0 ≡ some c
      → saved_network_index addresses c.host ≡ some index
      → (let w = create_window platform dpapi addresses disk readable now added in
          load_or_create_config platform dpapi wide_to_utf8 w disk a ≡ (w, disk, some c))
  unfolding restore
  create_window-taken addresses disk readable now added a c index converts v port loaded again
        selected =
      let (host, some_address) = selected-host addresses c.host index selected in
      let made = record (restore platform (new_window addresses) c) { tray_added = added } in
      let network : made.network ≡ some index =
        ap (λ (i : Option ℕ). or_selected i (new_window addresses).network) selected in
      let port_text : parse_u16 wide_to_utf8 made.port ≡ some receiver_port =
        parse_u16-to_string wide_to_utf8 c.port converts.ascii (omega (arith, port))
        ∙ ap (λ (p : ℕ). some p) port in
      rw (create_window-restore addresses disk readable now added c loaded some_address) (
        taken made disk a c now v (ap (λ (i : Option ℕ). address_at addresses i) network ∙ host)
          port_text
          (parse_u16-to_string wide_to_utf8 c.latency_ms converts.ascii
            (omega (arith, v.latency_most)))
          (label-restored platform wide_to_utf8 c.label converts v.label_valid) port again)

  -- The end of `create_pairing_qr` on a configuration that is taken.
  create_pairing_qr-taken :
      (encodes : List ℕ → Bool) (w : Window) (disk : Disk) (a : Attempt) (c : ReceiverConfig)
      → load_or_create_config platform dpapi wide_to_utf8 w disk a ≡ (w, disk, some c)
      → create_pairing_qr platform dpapi wide_to_utf8 encodes w disk a ≡ (
        show_payload platform encodes w
            (build_pairing_payload platform c (qr_expiry a.qr_now) a.qr_now)
            (qr_expiry a.qr_now),
        disk,
      )
  unfolding create_pairing_qr
  create_pairing_qr-taken encodes w disk a c same = rw (create_pairing_qr, same) refl

  -- Where text converts to UTF-16 and back: if the file loads with a valid configuration for port 9000 whose
  -- host is in the list and may be selected, a window that is made with it and not changed takes that same
  -- configuration as long as it loads, with no new credential, no write to the disk and no message. A pairing
  -- code that it is then asked for is made from the link of that configuration, so a new code has the saved
  -- secret.
  pub create_window-load_or_create_config :
      (encodes : List ℕ → Bool) (addresses : List NetworkAddress) (disk : Disk) (readable : Bool)
      (now : ℕ) (added : Bool) (a : Attempt) (c : ReceiverConfig) (index : ℕ)
      → Converts platform wide_to_utf8
      → Valid platform c now
      → c.port ≡ receiver_port
      → (load_config_dpapi platform dpapi readable disk now).0 ≡ some c
      → (load_config_dpapi platform dpapi a.readable disk a.now).0 ≡ some c
      → saved_network_index addresses c.host ≡ some index
      → (let w = create_window platform dpapi addresses disk readable now added in
          (load_or_create_config platform dpapi wide_to_utf8 w disk a ≡ (w, disk, some c))
          × (create_pairing_qr platform dpapi wide_to_utf8 encodes w disk a ≡ (
            show_payload platform encodes w
                (build_pairing_payload platform c (qr_expiry a.qr_now) a.qr_now)
                (qr_expiry a.qr_now),
            disk,
          )))
  create_window-load_or_create_config encodes addresses disk readable now added a c index converts v
        port loaded again selected =
      let w = create_window platform dpapi addresses disk readable now added in
      let same =
        create_window-taken addresses disk readable now added a c index converts v port loaded again
          selected in
      (same, create_pairing_qr-taken encodes w disk a c same)
