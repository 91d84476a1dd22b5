-- ===== src/Receiver/Window/Offer.antt =====
-- The pairing code that the window shows, against the credential file that the OBS source loads.
use android2pc_stream.Prelude.{
  ℕ, ◌^◌, ◌<◌, ◌≡◌, refl, ap, ◌∙◌, inl, inr, ◌⊎◌, Bool, true, false, not, Option, none, some, List,
  is_empty, arith, All, IsByte, list_eqb→eq, if_ind, Option-cases,
}
use android2pc_stream.Platform.{Platform}
use android2pc_stream.Receiver.Config.{ReceiverConfig, WellTyped, validate_config, is_no_error}
use android2pc_stream.Receiver.Config.Valid.{Valid, validate_config-Valid}
use android2pc_stream.Receiver.Store.{Disk, Dpapi, load_config_dpapi, save_config_dpapi}
use android2pc_stream.Receiver.Store.Saved.{
  Loads, TooLarge, load_config_dpapi-later, save_config_dpapi-Loads,
}
use android2pc_stream.Receiver.Link.{generate_config, build_pairing_payload}
use android2pc_stream.Receiver.Link.Reading.{
  read_link, payload-Showable, read_link-build_pairing_payload, is_no_error-eq,
}
use android2pc_stream.Receiver.Window.{
  Window, Attempt, Loaded, receiver_port, address_at, window_text, utf8, parse_u16, right_port,
  right_latency, extend_expiry, same_settings, stored_of, store_config, create_config,
  reuse_or_create, load_or_create_config, show_payload, qr_expiry, create_pairing_qr,
}
use android2pc_stream.Receiver.Window.Typed.{
  Behaves, Fills, utf8-IsByte, generated, extend_expiry-WellTyped,
}

right_port-receiver_port :
    (read : Option ℕ) (port : ℕ) → right_port read ≡ some port → port ≡ receiver_port
right_port-receiver_port none port h = cc
right_port-receiver_port (some n) port h = ground (arith, h)

module _ (platform : Platform) (dpapi : Dpapi) (wide_to_utf8 : List ℕ → Option (List ℕ))
    (b : Behaves platform dpapi wide_to_utf8) where
  -- A configuration for a label and a host, and how the file on the disk has it.
  pub record Held (label host : List ℕ) (disk : Disk) (c : ReceiverConfig) : Type 0 where
    pub typed : WellTyped c
    pub for_label : c.label ≡ label
    pub for_host : c.host ≡ host
    pub for_port : c.port ≡ receiver_port
    pub file : Loads platform dpapi disk c ⊎ TooLarge platform dpapi disk c

  module _ (label host : List ℕ) where
    -- What is answered is held.
    Answered : Loaded → Type 0
    Answered loaded = (c : ReceiverConfig) → loaded.2 ≡ some c → Held label host loaded.1 c

    stored_of-Answered :
        (w : Window) (config : ReceiverConfig) (saved : Disk × Bool)
        → (saved.1 ≡ true → Held label host saved.0 config)
        → Answered (stored_of platform dpapi w config saved)
    unfolding Answered
    stored_of-Answered w config (disk, true) held c e =
        let same : config ≡ c = cc in rw (← same) (held refl)
    stored_of-Answered w config (disk, false) held c e = cc

    store_config-Answered :
        (w : Window) (disk : Disk) (a : Attempt) (config : ReceiverConfig)
        → (Valid platform config a.now → WellTyped config)
        → config.label ≡ label
        → config.host ≡ host
        → config.port ≡ receiver_port
        → Answered (store_config platform dpapi w disk a config)
    unfolding store_config Answered
    store_config-Answered w disk a config typed l h p =
        if_ind Answered (not (is_no_error (validate_config platform config a.now))) _ _
          (λ e c f. cc)
          (λ e.
            let valid =
              (validate_config-Valid platform config a.now).0 (is_no_error-eq _ (ground arith)) in
            stored_of-Answered w config
              (save_config_dpapi platform dpapi a.path_known a.save_now a.outcome disk config)
              (λ ok. record {
                typed = typed valid;
                for_label = l;
                for_host = h;
                for_port = p;
                file =
                    save_config_dpapi-Loads platform dpapi a.path_known a.save_now a.outcome disk
                      config b.fits b.recovers (typed valid) ok;
              }))

    module _ (w : Window) (disk : Disk) (a : Attempt) (fills : Fills a.secret)
        (bytes : All IsByte label) (latency : ℕ) where
      create_config-Answered :
          Answered (create_config platform dpapi w disk a label host receiver_port latency)
      unfolding create_config Answered
      create_config-Answered =
          elim (Option-cases (
            generate_config platform label host receiver_port latency a.now a.uuid_bytes
              a.secret)) [
                | inl e ↦ rw (e, create_config) (λ c f. cc)
                | inr (config, e) ↦
                    let (s, l, h, p, t) =
                      generated platform label host receiver_port latency a.now a.uuid_bytes
                        a.secret config e in
                    let port : config.port < 2 ^ 16 = omega (arith, p) in
                    rw (e, create_config)
                      (store_config-Answered w disk a (extend_expiry config a.now)
                        (extend_expiry-WellTyped platform config a.now b.dotted (rw l bytes) port
                          (fills config.secret s))
                        l h p)
              ]

      reuse_or_create-Answered :
          Answered (reuse_or_create platform dpapi w disk a label host receiver_port latency)
      unfolding reuse_or_create Answered
      reuse_or_create-Answered =
          let created = create_config-Answered in
          elim (Option-cases (load_config_dpapi platform dpapi a.readable disk a.now).0) [
            | inl e ↦ rw (e, reuse_or_create) created
            | inr (config, e) ↦
                rw (e, reuse_or_create)
                  (if_ind Answered (same_settings config label host receiver_port latency) _ _
                    (λ f c g.
                      let same : config ≡ c = cc in
                      let typed =
                        (load_config_dpapi-later platform dpapi a.readable disk a.now a.now config
                          b.fits b.gives_bytes e).0 in
                      rw (← same) (record {
                        typed = typed;
                        for_label = list_eqb→eq config.label label (ground (arith, f));
                        for_host = list_eqb→eq config.host host (ground (arith, f));
                        for_port = ground (arith, f);
                        file = inl (λ later.
                            (load_config_dpapi-later platform dpapi a.readable disk a.now later
                              config b.fits b.gives_bytes e).2);
                      }))
                    (λ f. created))
          ]

  -- A configuration that the window takes comes from its settings: the selected network's address and the
  -- text of the label. The disk has it, in full or too large
  -- to load.
  pub load_or_create_config-Held :
      (w : Window) (disk : Disk) (a : Attempt) (c : ReceiverConfig)
      → Fills a.secret
      → (let (after, stored, answer) = load_or_create_config platform dpapi wide_to_utf8 w disk a in
          answer ≡ some c
          → (host : List ℕ) × (address_at w.addresses w.network ≡ some host)
            × Held (utf8 wide_to_utf8 (window_text w.label)) host stored c)
  unfolding load_or_create_config Answered
  load_or_create_config-Held w disk a c fills h =
      elim (Option-cases (address_at w.addresses w.network)) [
        | inl e ↦ let gone : none ≡ some c = rw (e, load_or_create_config) at h in cc
        | inr (host, e) ↦ elim (Option-cases (right_port (parse_u16 wide_to_utf8 w.port))) [
          | inl f ↦ let gone : none ≡ some c = rw (e, load_or_create_config, f) at h in cc
          | inr (port, f) ↦ elim (Option-cases (right_latency (parse_u16 wide_to_utf8 w.latency))) [
            | inl g ↦ let gone : none ≡ some c = rw (e, load_or_create_config, f, g) at h in cc
            | inr (latency, g) ↦
                let label = utf8 wide_to_utf8 (window_text w.label) in
                let same : port ≡ receiver_port =
                  right_port-receiver_port (parse_u16 wide_to_utf8 w.port) port f in
                let port_is : right_port (parse_u16 wide_to_utf8 w.port) ≡ some receiver_port =
                  f ∙ ap (λ (n : ℕ). some n) same in
                let run : load_or_create_config platform dpapi wide_to_utf8 w disk a
                    ≡ reuse_or_create platform dpapi w disk a label host receiver_port latency =
                  rw (e, load_or_create_config, port_is, g) refl in
                let bytes = utf8-IsByte wide_to_utf8 (window_text w.label) b.utf8_bytes in
                (
                  host,
                  e,
                  rw run (
                      reuse_or_create-Answered label host w disk a fills bytes latency c
                        (rw run at h)),
                )
          ]
        ]
      ]

  module _ (encodes : List ℕ → Bool) where
    show_payload-reads :
        (w : Window) (c : ReceiverConfig) (expires now : ℕ)
        → WellTyped c
        → (let after =
              show_payload platform encodes w
                (build_pairing_payload platform c expires now)
                expires in
            (after.qr ≡ none)
            ⊎ ((text : List ℕ) × (after.qr ≡ some text)
                × (read_link text ≡ some (c, after.qr_expires))))
    unfolding show_payload
    show_payload-reads w c expires now typed =
        let payload = build_pairing_payload platform c expires now in
        let Reads : Window → Type 0 = λ after.
          (after.qr ≡ none)
          ⊎ ((text : List ℕ) × (after.qr ≡ some text)
              × (read_link text ≡ some (c, after.qr_expires))) in
        if_ind Reads (is_empty payload) _ _ (λ e. inl refl)
          (λ e.
            if_ind Reads (not (encodes payload)) _ _ (λ f. inl refl)
              (λ f.
                let s =
                  payload-Showable platform c expires now
                    (λ h. cc (e, ap (λ (t : List ℕ). is_empty t) h)) in
                inr (
                  payload,
                  refl,
                  (read_link-build_pairing_payload platform c expires now b.dotted typed).0 s,
                )))

    -- Where addresses print within their buffer as digits and points, the data-protection API recovers what
    -- it protected and gives bytes, the conversion to UTF-8 gives bytes, and the random generator fills the
    -- secret's 32 bytes if it answers: once the window takes a configuration for its settings, it comes from
    -- the selected network's address and the text of the label, for port 9000. Either the file on the disk
    -- then loads with that configuration, whole, at every time it is valid, or its protected blob has more
    -- than 65527 bytes and every load of the file reports an input error. The window then shows no code, or a
    -- code from which a reader of the link gets that same configuration and the code's expiry.
    pub create_pairing_qr-Held :
        (w : Window) (disk : Disk) (a : Attempt) (c : ReceiverConfig)
        → Fills a.secret
        → (load_or_create_config platform dpapi wide_to_utf8 w disk a).2 ≡ some c
        → (let (after, stored) = create_pairing_qr platform dpapi wide_to_utf8 encodes w disk a in
            ((host : List ℕ) × (address_at w.addresses w.network ≡ some host)
              × Held (utf8 wide_to_utf8 (window_text w.label)) host stored c)
            × ((after.qr ≡ none)
                ⊎ ((text : List ℕ) × (after.qr ≡ some text)
                    × (read_link text ≡ some (c, after.qr_expires)))))
    unfolding create_pairing_qr
    create_pairing_qr-Held w disk a c fills h =
        let loaded = load_or_create_config platform dpapi wide_to_utf8 w disk a in
        let (host, selected, held) = load_or_create_config-Held w disk a c fills h in
        let run : loaded ≡ (loaded.0, loaded.1, some c) =
          ap (λ (answer : Option ReceiverConfig). (loaded.0, loaded.1, answer)) h in
        rw (create_pairing_qr, run)
          (
            (host, selected, held),
            show_payload-reads loaded.0 c (qr_expiry a.qr_now) a.qr_now held.typed,
          )
