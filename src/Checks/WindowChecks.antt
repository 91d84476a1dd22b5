-- ===== src/Checks/WindowChecks.antt =====
-- The theorems on the pairing window at concrete messages.
use android2pc_stream.Prelude.{
  ℕ, ◌+◌, ◌-◌, ◌*◌, ◌≡◌, refl, ap, ◌⊎◌, inl, inr, true, false, Option, none, some, List, [], ◌∷◌,
  codes, arith,
}
use android2pc_stream.Receiver.Config.{
  ReceiverConfig, ConfigError, validate_config, is_canonical_uuid, valid_utf8_label,
  is_canonical_private_ipv4, is_private_octets,
}
use android2pc_stream.Receiver.Bytes.{
  append_u64, append_u32, append_u16, append_string, append_loop,
}
use android2pc_stream.Receiver.Pairing.{new_uuid, hex_digit, percent_encode}
use android2pc_stream.Receiver.Link.{generate_config, build_pairing_payload}
use android2pc_stream.Base64.{base64url}
use android2pc_stream.Receiver.Credential.{serialize_config}
use android2pc_stream.Receiver.Store.{
  Disk, load_config_dpapi, read_bounded, save_config_dpapi, write_atomic, wrap,
}
use android2pc_stream.Receiver.Network.{saved_network_index}
use android2pc_stream.Receiver.Link.Reading.{read_link}
use android2pc_stream.Receiver.Window.{
  Attempt, Loaded, load_or_create_config, create_pairing_qr, address_at, utf8, window_text,
  parse_u16, parse_digits, reuse_or_create, create_config, store_config, show_payload, qr_expiry,
}
use android2pc_stream.Receiver.Window.Messages.{
  Message, handle, on_receiver_status, load_saved_settings, create_window, run_window, dispatch,
}
use android2pc_stream.Receiver.Window.Material.{Cleared, IsValid}
use android2pc_stream.Receiver.Window.Secrets.{
  Ends, create_window-IsValid, run_window-IsValid, run_window-Cleared,
}
use android2pc_stream.Receiver.Config.Valid.{validate_config-Valid}
use android2pc_stream.Receiver.Window.Controls.{Converts}
use android2pc_stream.Receiver.Window.Restored.{create_window-load_or_create_config}
use android2pc_stream.Receiver.Window.Offer.{
  Held, load_or_create_config-Held, create_pairing_qr-Held,
}
use android2pc_stream.Checks.Data.{desk, desk_address, no_file}
use android2pc_stream.Receiver.Window.Late.{create_pairing_qr_late}
use android2pc_stream.Receiver.Window.Restored.{reuse_or_create-same}
use android2pc_stream.Checks.WindowData.{
  byte_dpapi, byte_dpapi_small, plain_utf8, desk-Behaves, encodes_all, home, attempt, attempt-Fills,
  window, new_config,
}

taken :
    (load_or_create_config desk byte_dpapi plain_utf8 window no_file attempt).2 ≡ some new_config
unfolding load_or_create_config parse_u16 parse_digits utf8 reuse_or_create create_config
    store_config load_config_dpapi read_bounded generate_config validate_config is_canonical_uuid
    new_uuid hex_digit valid_utf8_label is_canonical_private_ipv4 is_private_octets
    save_config_dpapi serialize_config append_u64 append_u16 append_string append_loop append_u32
    write_atomic wrap
taken = refl

offered_example :
    (let (after, stored) =
        create_pairing_qr desk byte_dpapi plain_utf8 encodes_all window no_file attempt in
      ((host : List ℕ) × (address_at window.addresses window.network ≡ some host)
        × Held desk byte_dpapi plain_utf8 desk-Behaves
            (utf8 plain_utf8 (window_text window.label))
            host
            stored
            new_config)
      × ((after.qr ≡ none)
          ⊎ ((text : List ℕ) × (after.qr ≡ some text)
              × (read_link text ≡ some (new_config, after.qr_expires)))))
offered_example =
    create_pairing_qr-Held desk byte_dpapi plain_utf8 desk-Behaves encodes_all window no_file
      attempt new_config attempt-Fills taken

messages_example :
    IsValid desk
      (run_window desk byte_dpapi plain_utf8 encodes_all
        (create_window desk byte_dpapi (home ∷ []) no_file true 1000 true)
        no_file
        (Message.rotate attempt ∷ Message.timer 1100 ∷ [])).0
messages_example =
    run_window-IsValid desk byte_dpapi plain_utf8 encodes_all
      (create_window desk byte_dpapi (home ∷ []) no_file true 1000 true) no_file
      (Message.rotate attempt ∷ Message.timer 1100 ∷ [])
      (create_window-IsValid desk byte_dpapi (home ∷ []) no_file true 1000 true)

abbrev some_messages : List Message
some_messages = Message.receiver_status 2 ∷ Message.show_qr attempt ∷ []

not_destroyed :
    (run_window desk byte_dpapi plain_utf8 encodes_all
      (create_window desk byte_dpapi (home ∷ []) no_file true 1000 true)
      no_file
      some_messages).0.destroyed
    ≡ false
unfolding run_window create_window dispatch handle on_receiver_status load_saved_settings
    create_pairing_qr show_payload build_pairing_payload percent_encode base64url
    load_or_create_config parse_u16 parse_digits utf8 reuse_or_create create_config store_config
    load_config_dpapi read_bounded generate_config validate_config is_canonical_uuid new_uuid
    hex_digit valid_utf8_label is_canonical_private_ipv4 is_private_octets save_config_dpapi
    serialize_config append_u64 append_u16 append_string append_loop append_u32 write_atomic wrap
not_destroyed = refl

forgotten_example :
    (let (w, stored) =
        run_window desk byte_dpapi plain_utf8 encodes_all
          (create_window desk byte_dpapi (home ∷ []) no_file true 1000 true)
          no_file
          some_messages in
      Cleared (dispatch desk byte_dpapi plain_utf8 encodes_all w stored (Message.close true)).0)
forgotten_example =
    run_window-Cleared desk byte_dpapi plain_utf8 encodes_all (home ∷ []) no_file true 1000 true
      some_messages (Message.close true) not_destroyed (Ends.closed true)

-- A year later, less than ten minutes before the credential expires, with what was saved.
abbrev last_minutes : ℕ
last_minutes = 1000 + 365 * 24 * 60 * 60 - 500

abbrev kept : Disk
kept = (load_or_create_config desk byte_dpapi plain_utf8 window no_file attempt).1

abbrev last_attempt : Attempt
last_attempt = record attempt { now = last_minutes; save_now = last_minutes; qr_now = last_minutes }

still_valid : validate_config desk new_config last_minutes ≡ ConfigError.no_error
unfolding validate_config is_canonical_uuid new_uuid hex_digit valid_utf8_label
    is_canonical_private_ipv4 is_private_octets
still_valid = refl

-- The credential that the window stored loads at every time it is valid.
stored_loads :
    (later : ℕ)
    → validate_config desk new_config later ≡ ConfigError.no_error
    → (load_config_dpapi desk byte_dpapi true kept later).0 ≡ some new_config
stored_loads later valid =
    let (host, selected, held) =
      load_or_create_config-Held desk byte_dpapi plain_utf8 desk-Behaves window no_file attempt
        new_config attempt-Fills taken in
    elim held.file [
      | inl loads ↦
          ap (λ (loaded : Option ReceiverConfig × ConfigError). loaded.0) (loads later valid)
      | inr large ↦
          let short = byte_dpapi_small (serialize_config new_config) large.blob large.protected in
          absurd (omega (arith, short, large.large))
    ]

kept_loads : (load_config_dpapi desk byte_dpapi true kept last_minutes).0 ≡ some new_config
kept_loads = stored_loads last_minutes still_valid

taken_again :
    (load_or_create_config desk byte_dpapi plain_utf8 window kept last_attempt).2 ≡ some new_config
unfolding load_or_create_config parse_u16 parse_digits utf8
taken_again =
    ap (λ (loaded : Loaded). loaded.2)
      (reuse_or_create-same desk byte_dpapi window kept last_attempt new_config (codes "My PC")
        desk_address 9000 120 kept_loads refl)

late_example :
    (let (after, stored) =
        create_pairing_qr desk byte_dpapi plain_utf8 encodes_all window kept last_attempt in
      Cleared after
      × (after.status ≡ codes "Could not create the pairing QR. Check the settings and try again.")
      × (stored ≡ (load_or_create_config desk byte_dpapi plain_utf8 window kept last_attempt).1))
late_example =
    create_pairing_qr_late desk byte_dpapi plain_utf8 encodes_all window kept last_attempt
      new_config taken_again (omega arith)

abbrev as_it_is : List ℕ → Option (List ℕ)
as_it_is text = some text

as_it_is-Converts : Converts desk as_it_is
as_it_is-Converts = record {
  back = λ text units h. ap (λ (t : List ℕ). some t) (ground (arith, h));
  ascii = λ text h. refl;
}

valid_later : validate_config desk new_config 2000 ≡ ConfigError.no_error
unfolding validate_config is_canonical_uuid new_uuid hex_digit valid_utf8_label
    is_canonical_private_ipv4 is_private_octets
valid_later = refl

loads_later : (load_config_dpapi desk byte_dpapi true kept 2000).0 ≡ some new_config
loads_later = stored_loads 2000 valid_later

home_selected : saved_network_index (home ∷ []) new_config.host ≡ some 0
unfolding saved_network_index
home_selected = refl

restored_example :
    (let w = create_window desk byte_dpapi (home ∷ []) kept true 2000 true in
      (load_or_create_config desk byte_dpapi as_it_is w kept (record attempt { now = 2000 })
        ≡ (w, kept, some new_config))
      × (create_pairing_qr desk byte_dpapi as_it_is encodes_all w kept
            (record attempt { now = 2000 })
          ≡ (
            show_payload desk encodes_all w
                (build_pairing_payload desk new_config (qr_expiry attempt.qr_now) attempt.qr_now)
                (qr_expiry attempt.qr_now),
            kept,
          )))
restored_example =
    create_window-load_or_create_config desk byte_dpapi as_it_is encodes_all (home ∷ []) kept true
      2000 true (record attempt { now = 2000 }) new_config 0 as_it_is-Converts
      ((validate_config-Valid desk new_config 2000).0 valid_later) refl loads_later loads_later
      home_selected
