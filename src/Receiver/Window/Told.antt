-- ===== src/Receiver/Window/Told.antt =====
-- load_or_create_config changes no more of the window than its status.
use android2pc_stream.Prelude.{
  ℕ, ◌≡◌, refl, inl, inr, Bool, true, false, not, Option, List, if_ind, Option-cases,
}
use android2pc_stream.Platform.{Platform}
use android2pc_stream.Receiver.Config.{ReceiverConfig, validate_config, is_no_error}
use android2pc_stream.Receiver.Store.{Disk, Dpapi, load_config_dpapi}
use android2pc_stream.Receiver.Link.{generate_config}
use android2pc_stream.Receiver.Window.{
  Window, Attempt, Loaded, set_status, load_or_create_config, reuse_or_create, create_config,
  store_config, stored_of, extend_expiry, same_settings, address_at, right_port, right_latency,
  parse_u16, utf8, window_text,
}

-- Only the status differs.
abbrev pub Told : Window → Window → Type 0
Told w after = (message : List ℕ) × (after ≡ set_status w message)

module _ (platform : Platform) (dpapi : Dpapi) (wide_to_utf8 : List ℕ → Option (List ℕ))
    (encodes : List ℕ → Bool) where
  stored_of-Told :
      (w : Window) (config : ReceiverConfig) (saved : Disk × Bool)
      → Told w (stored_of platform dpapi w config saved).0
  stored_of-Told w config (disk, true) = (w.status, refl)
  stored_of-Told w config (disk, false) = (_, refl)

  store_config-Told :
      (w : Window) (disk : Disk) (a : Attempt) (config : ReceiverConfig)
      → Told w (store_config platform dpapi w disk a config).0
  unfolding store_config
  store_config-Told w disk a config =
      if_ind (λ (made : Loaded). Told w made.0)
        (not (is_no_error (validate_config platform config a.now))) _ _ (λ e. (_, refl))
        (λ e. stored_of-Told w config _)

  create_config-Told :
      (w : Window) (disk : Disk) (a : Attempt) (label host : List ℕ) (port latency : ℕ)
      → Told w (create_config platform dpapi w disk a label host port latency).0
  unfolding create_config
  create_config-Told w disk a label host port latency =
      elim (Option-cases
        (generate_config platform label host port latency a.now a.uuid_bytes a.secret)) [
          | inl e ↦ rw (e, create_config) (_, refl)
          | inr (config, e) ↦
              rw (e, create_config) (store_config-Told w disk a (extend_expiry config a.now))
        ]

  reuse_or_create-Told :
      (w : Window) (disk : Disk) (a : Attempt) (label host : List ℕ) (port latency : ℕ)
      → Told w (reuse_or_create platform dpapi w disk a label host port latency).0
  unfolding reuse_or_create
  reuse_or_create-Told w disk a label host port latency =
      elim (Option-cases (load_config_dpapi platform dpapi a.readable disk a.now).0) [
        | inl e ↦ rw (e, reuse_or_create) (create_config-Told w disk a label host port latency)
        | inr (config, e) ↦
            rw (e, reuse_or_create)
              (if_ind (λ (made : Loaded). Told w made.0)
                (same_settings config label host port latency) _ _ (λ f. (w.status, refl))
                (λ f. create_config-Told w disk a label host port latency))
      ]

  pub load_or_create_config-Told :
      (w : Window) (disk : Disk) (a : Attempt)
      → Told w (load_or_create_config platform dpapi wide_to_utf8 w disk a).0
  unfolding load_or_create_config
  load_or_create_config-Told w disk a = elim (Option-cases (address_at w.addresses w.network)) [
    | inl e ↦ rw (e, load_or_create_config) (_, refl)
    | inr (host, e) ↦ elim (Option-cases (right_port (parse_u16 wide_to_utf8 w.port))) [
      | inl f ↦ rw (e, load_or_create_config, f) (_, refl)
      | inr (port, f) ↦ elim (Option-cases (right_latency (parse_u16 wide_to_utf8 w.latency))) [
        | inl g ↦ rw (e, load_or_create_config, f, g) (_, refl)
        | inr (latency, g) ↦
            rw (e, load_or_create_config, f, g)
              (reuse_or_create-Told w disk a (utf8 wide_to_utf8 (window_text w.label)) host port
                latency)
      ]
    ]
  ]
