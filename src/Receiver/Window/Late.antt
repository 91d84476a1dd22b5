-- ===== src/Receiver/Window/Late.antt =====
-- The pairing code of a credential that is about to expire.
use android2pc_stream.Prelude.{
  ℕ, ◌<◌, ◌≡◌, refl, ap, Bool, true, Option, some, List, [], ltb, arith, codes,
}
use android2pc_stream.Platform.{Platform}
use android2pc_stream.Receiver.Config.{ReceiverConfig}
use android2pc_stream.Receiver.Store.{Disk, Dpapi}
use android2pc_stream.Receiver.Link.{build_pairing_payload}
use android2pc_stream.Receiver.Window.{
  Window, Attempt, load_or_create_config, show_payload, qr_expiry, create_pairing_qr,
}
use android2pc_stream.Receiver.Window.Material.{Cleared}

module _ (platform : Platform) (dpapi : Dpapi) (wide_to_utf8 : List ℕ → Option (List ℕ))
    (encodes : List ℕ → Bool) where
  late_payload :
      (c : ReceiverConfig) (expires now : ℕ)
      → c.credential_expires_epoch_seconds < expires
      → build_pairing_payload platform c expires now ≡ []
  unfolding build_pairing_payload
  late_payload c expires now late =
      let test : ltb c.credential_expires_epoch_seconds expires ≡ true = ground arith in
      ground (arith, test)

  -- Once the window takes a configuration whose credential expires before the code would, it shows no code
  -- and keeps nothing of it, with an answer that asks to check the settings, and it changes no more of the
  -- disk than taking the configuration did.
  pub create_pairing_qr_late :
      (w : Window) (disk : Disk) (a : Attempt) (c : ReceiverConfig)
      → (load_or_create_config platform dpapi wide_to_utf8 w disk a).2 ≡ some c
      → c.credential_expires_epoch_seconds < qr_expiry a.qr_now
      → (let (after, stored) = create_pairing_qr platform dpapi wide_to_utf8 encodes w disk a in
          Cleared after
          × (after.status
              ≡ codes "Could not create the pairing QR. Check the settings and try again.")
          × (stored ≡ (load_or_create_config platform dpapi wide_to_utf8 w disk a).1))
  unfolding create_pairing_qr show_payload
  create_pairing_qr_late w disk a c h late =
      let loaded = load_or_create_config platform dpapi wide_to_utf8 w disk a in
      let run : loaded ≡ (loaded.0, loaded.1, some c) =
        ap (λ (answer : Option ReceiverConfig). (loaded.0, loaded.1, answer)) h in
      rw (create_pairing_qr, run, late_payload c (qr_expiry a.qr_now) a.qr_now late)
        (record { no_code = refl; no_payload = refl; no_expiry = refl }, refl, refl)
