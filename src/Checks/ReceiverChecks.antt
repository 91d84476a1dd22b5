-- ===== src/Checks/ReceiverChecks.antt =====
-- The receiver's theorems at concrete inputs.
use android2pc_stream.Prelude.{
  ℕ, ◌+◌, ◌≡◌, refl, true, false, none, some, List, [], ◌∷◌, length, length-replicate, replicate,
  arith, All, IsByte,
}
use android2pc_stream.Receiver.Queue.{PacketQueue}
use android2pc_stream.Receiver.Queue.Invariant.{Op}
use android2pc_stream.Receiver.Bytes.{append_loop, append_u16, append_u64, append_string}
use android2pc_stream.Receiver.Config.{ConfigError, WellTyped}
use android2pc_stream.Receiver.Config.Valid.{Valid}
use android2pc_stream.Receiver.Credential.{serialize_config, deserialize_config}
use android2pc_stream.Receiver.Credential.RoundTrip.{
  deserialize_config-serialize_config, serialize_config-deserialize_config,
}
use android2pc_stream.Receiver.Store.{WriteOutcome, save_config_dpapi, load_config_dpapi}
use android2pc_stream.Receiver.Store.Reload.{
  Succeeds, load_config_dpapi-save_config_dpapi, load_config_dpapi_too_large,
}
use android2pc_stream.Checks.Data.{
  desk, desk-NtopFits, desk_config, desk_config-WellTyped, desk_config_valid, plain_dpapi,
  plain_dpapi-Recovers, large_dpapi, no_file, all_well, all_well-Succeeds,
}

abbrev three : List Op
three = Op.pushes (1 ∷ []) ∷ Op.pushes (2 ∷ 3 ∷ []) ∷ Op.pops ∷ []

abbrev two_queued : PacketQueue
two_queued = record { packets = (1 ∷ []) ∷ (2 ∷ []) ∷ []; bytes = 2; cancelled = false }

deserialize_serialize_example :
    deserialize_config desk (serialize_config desk_config) 1000
    ≡ (some desk_config, ConfigError.no_error)
deserialize_serialize_example =
    deserialize_config-serialize_config desk desk_config 1000 desk-NtopFits desk_config-WellTyped
      desk_config_valid

pub desk_size : length (serialize_config desk_config) ≡ 112
unfolding serialize_config append_loop append_u16 append_u64 append_string
desk_size = refl

desk_config_bytes : All IsByte (serialize_config desk_config)
unfolding serialize_config append_loop append_u16 append_u64 append_string
desk_config_bytes = ground arith

pub desk_protected :
    plain_dpapi.protect (serialize_config desk_config) ≡ some (serialize_config desk_config)
unfolding serialize_config append_loop append_u16 append_u64 append_string
desk_protected = refl

serialize_deserialize_example :
    (serialize_config desk_config ≡ serialize_config desk_config)
    × WellTyped desk_config
    × Valid desk desk_config 1000
serialize_deserialize_example =
    serialize_config-deserialize_config desk (serialize_config desk_config) 1000 desk_config
      ConfigError.no_error desk_config_bytes deserialize_serialize_example

abbrev pub desk_outcome : WriteOutcome
desk_outcome = all_well (9 + length (serialize_config desk_config))

reload_example :
    ((save_config_dpapi desk plain_dpapi true 1000 desk_outcome no_file desk_config).1 ≡ true)
    × (load_config_dpapi desk plain_dpapi true
          (save_config_dpapi desk plain_dpapi true 1000 desk_outcome no_file desk_config).0
          1000
        ≡ (some desk_config, ConfigError.no_error))
reload_example =
    load_config_dpapi-save_config_dpapi desk plain_dpapi desk_config (serialize_config desk_config)
      1000 1000 desk_outcome no_file desk-NtopFits plain_dpapi-Recovers desk_config-WellTyped
      desk_config_valid desk_config_valid desk_protected (omega (arith, desk_size))
      (omega (arith, desk_size)) (all_well-Succeeds _)

Succeeds-of : (n : ℕ) → n ≡ 65537 → Succeeds (all_well 65537) n
Succeeds-of n e = rw e (all_well-Succeeds 65537)

too_large_example :
    ((save_config_dpapi desk large_dpapi true 1000 (all_well 65537) no_file desk_config).1 ≡ true)
    × (load_config_dpapi desk large_dpapi true
          (save_config_dpapi desk large_dpapi true 1000 (all_well 65537) no_file desk_config).0
          1000
        ≡ (none, ConfigError.io_failure))
too_large_example =
    load_config_dpapi_too_large desk large_dpapi desk_config (replicate 65528 0) 1000 1000
      (all_well 65537) no_file true desk_config_valid refl
      (omega (arith, length-replicate {A = ℕ} 65528 0))
      (omega (arith, length-replicate {A = ℕ} 65528 0))
      (Succeeds-of (9 + length (replicate {A = ℕ} 65528 0))
        (omega (arith, length-replicate {A = ℕ} 65528 0)))
