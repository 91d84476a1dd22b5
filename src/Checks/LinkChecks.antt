-- ===== src/Checks/LinkChecks.antt =====
-- The theorems on the pairing link at concrete inputs.
use android2pc_stream.Prelude.{
  is_empty, ap, false, ℕ, ◌+◌, ◌*◌, ◌/◌, ◌≡◌, refl, ◌↔◌, ◌⊎◌, true, Option, some, List, [], ◌∷◌,
  codes, All, length, replicate, arith,
}
use android2pc_stream.Base64.{base64url}
use android2pc_stream.Base64.Reading.{base64_decode, IsDigit, base64_decode-base64url}
use android2pc_stream.Receiver.Config.{
  ReceiverConfig, is_canonical_uuid, validate_config, valid_utf8_label, is_canonical_private_ipv4,
  is_private_octets,
}
use android2pc_stream.Receiver.Config.Valid.{Valid, validate_config-Valid}
use android2pc_stream.Receiver.Pairing.{new_uuid, hex_digit}
use android2pc_stream.Receiver.Link.{build_pairing_payload, generate_config}
use android2pc_stream.Receiver.Link.Reading.{read_link, Showable, read_link-build_pairing_payload}
use android2pc_stream.Receiver.Link.Fresh.{Usable, fresh_config, generate_config_iff}
use android2pc_stream.Agreement.{Agrees, shared_options, read_link-Agrees}
use android2pc_stream.Checks.Data.{
  desk_config_valid, phone_config, desk, desk_address, desk_config, desk_config-WellTyped,
  desk-NtopDotted,
}

base64_example :
    (base64_decode (base64url (1 ∷ 2 ∷ 250 ∷ 4 ∷ [])) ≡ 1 ∷ 2 ∷ 250 ∷ 4 ∷ [])
    × (length (base64url (1 ∷ 2 ∷ 250 ∷ 4 ∷ []))
        ≡ (length {A = ℕ} (1 ∷ 2 ∷ 250 ∷ 4 ∷ []) * 8 + 5) / 6)
    × All IsDigit (base64url (1 ∷ 2 ∷ 250 ∷ 4 ∷ []))
base64_example = base64_decode-base64url (1 ∷ 2 ∷ 250 ∷ 4 ∷ []) (omega arith)

link_example :
    (Showable desk desk_config 1500 1000
      → read_link (build_pairing_payload desk desk_config 1500 1000) ≡ some (desk_config, 1500))
    × ((build_pairing_payload desk desk_config 1500 1000 ≡ [])
        ⊎ Showable desk desk_config 1500 1000)
link_example =
    read_link-build_pairing_payload desk desk_config 1500 1000 desk-NtopDotted desk_config-WellTyped

desk_showable : Showable desk desk_config 1500 1000
desk_showable = record {
  config_valid = (validate_config-Valid desk desk_config 1000).0 desk_config_valid;
  in_time = omega arith;
  short = omega arith;
  within = omega arith;
}

desk_link : is_empty (build_pairing_payload desk desk_config 1500 1000) ≡ false
unfolding build_pairing_payload validate_config is_canonical_uuid valid_utf8_label
    is_canonical_private_ipv4 is_private_octets
desk_link = refl

agreement_example :
    (desk_config ≡ desk_config) × All (Agrees desk phone_config desk_config) shared_options
agreement_example =
    read_link-Agrees desk desk_config desk_config 1500 1000 1500 phone_config desk-NtopDotted
      desk_config-WellTyped (λ e. cc (desk_link, ap (λ (t : List ℕ). is_empty t) e))
      ((read_link-build_pairing_payload desk desk_config 1500 1000 desk-NtopDotted
          desk_config-WellTyped).0
        desk_showable)
      refl refl

abbrev some_random : Option (List ℕ)
some_random = some (replicate 16 0x5A)

some_random-canonical : is_canonical_uuid (new_uuid some_random) ≡ true
unfolding is_canonical_uuid new_uuid hex_digit
some_random-canonical = refl

abbrev new_desk : ReceiverConfig
new_desk =
    fresh_config desk (codes "Desk PC") desk_address 9000 120 1000 some_random (replicate 32 7)

generate_example :
    (generate_config desk
        (codes "Desk PC")
        desk_address
        9000
        120
        1000
        some_random
        (some (replicate 32 7))
      ≡ some new_desk)
    ↔ (Usable desk (codes "Desk PC") desk_address 9000 120 1000
        × ((bytes : List ℕ) × (some (replicate 32 7) ≡ some bytes)
            × (new_desk
                ≡ fresh_config desk (codes "Desk PC") desk_address 9000 120 1000 some_random bytes))
        × Valid desk new_desk 1000)
generate_example =
    generate_config_iff desk (codes "Desk PC") desk_address 9000 120 1000 some_random
      (some (replicate 32 7)) new_desk (omega arith) some_random-canonical
