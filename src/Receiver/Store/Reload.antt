-- ===== src/Receiver/Store/Reload.antt =====
-- Saving a configuration and loading it again, through both layers of the file format.
use android2pc_stream.Prelude.{
  ℕ, ◌+◌, ◌*◌, ◌^◌, ◌≤◌, ◌<◌, ◌≡◌, refl, Bool, true, none, some, List, ◌∷◌, ◌++◌, length,
  length-append, arith,
}
use android2pc_stream.Platform.{Platform, NtopFits}
use android2pc_stream.Receiver.Bytes.{take_u32}
use android2pc_stream.Receiver.Bytes.Laws.{to_le, append_u32-to_le, take_u32-from_le}
use android2pc_stream.Receiver.Bytes.Fields.{read-to_le}
use android2pc_stream.Receiver.Config.{ReceiverConfig, WellTyped, ConfigError, validate_config}
use android2pc_stream.Receiver.Config.Valid.{
  Valid, validate_config-Valid, uuid-length, label-length, host-length,
}
use android2pc_stream.Receiver.Credential.{serialize_config}
use android2pc_stream.Receiver.Credential.Layout.{serialize_config-fields, numbers}
use android2pc_stream.Receiver.Store.Atomic.{take-length}
use android2pc_stream.Receiver.Credential.RoundTrip.{
  deserialize_config-serialize_config, Valid-Short,
}
use android2pc_stream.Receiver.Store.{
  outer_magic, outer_version, Disk, WriteOutcome, write_atomic, read_bounded, Dpapi, Recovers, wrap,
  unwrap, save_config_dpapi, open_blob, load_config_dpapi,
}

wrap-layout :
    (blob : List ℕ) → wrap blob ≡ outer_magic ++ outer_version ∷ (to_le 4 (length blob) ++ blob)
unfolding wrap
wrap-layout blob = rw append_u32-to_le refl

pub length-wrap : (blob : List ℕ) → length (wrap blob) ≡ 9 + length blob
length-wrap blob = rw wrap-layout (omega (arith, length-append (to_le 4 (length blob)) blob))

-- The outer layer gives the blob back.
unwrap-wrap :
    (blob : List ℕ)
    → 0 < length blob
    → length blob ≤ 64 * 1024
    → unwrap (wrap blob) ≡ (some blob, ConfigError.no_error)
unfolding unwrap
unwrap-wrap blob h k =
    rw wrap-layout
      (ground (arith, read-to_le 4 take_u32 (length blob) blob take_u32-from_le (omega arith)))

-- Every call of `write_atomic` on `n` bytes succeeds.
pub record Succeeds (w : WriteOutcome) (n : ℕ) : Type 0 where
  pub made : w.directories_made ≡ true
  pub opened : w.created ≡ true
  pub whole : w.written ≡ some n
  pub flushed : w.flushed ≡ true
  pub moved : w.moved ≡ true

write_atomic-Succeeds :
    (w : WriteOutcome) (disk : Disk) (bytes : List ℕ)
    → Succeeds w (length bytes)
    → length bytes < 2 ^ 32
    → write_atomic w disk bytes ≡ (record { target = some bytes; temporary = none }, true)
unfolding write_atomic
write_atomic-Succeeds w disk bytes s h = ground (arith, take-length bytes)

module _ (platform : Platform) (dpapi : Dpapi) where
  length-serialize_config :
      (c : ReceiverConfig) (now : ℕ)
      → NtopFits platform
      → WellTyped c
      → Valid platform c now
      → (0 < length (serialize_config c)) × (length (serialize_config c) ≤ 4096)
  length-serialize_config c now fits w v =
      rw (serialize_config-fields c (Valid-Short platform c now fits v)) (
        omega (
          arith,
          length-append c.receiver_id (
              to_le 4 (length c.label)
              ++ c.label
              ++ (to_le 4 (length c.host) ++ c.host ++ numbers c)),
          length-append c.label (to_le 4 (length c.host) ++ c.host ++ numbers c),
          length-append c.host (numbers c),
          uuid-length platform c.receiver_id v.id_valid,
          label-length platform c.label v.label_valid,
          host-length platform c.host fits v.host_valid,
          fits.0,
          w.secret_sized,
        ))

  open_blob-protect :
      (c : ReceiverConfig) (blob : List ℕ) (now later : ℕ)
      → NtopFits platform
      → Recovers dpapi
      → WellTyped c
      → validate_config platform c later ≡ ConfigError.no_error
      → dpapi.protect (serialize_config c) ≡ some blob
      → open_blob platform dpapi blob later ≡ (some c, ConfigError.no_error)
  unfolding open_blob
  open_blob-protect c blob now later fits recovers w valid e =
      let v = (validate_config-Valid platform c later).0 valid in
      ground (
        arith,
        (recovers (serialize_config c) blob e).0,
        length-serialize_config c later fits w v,
        deserialize_config-serialize_config platform c later fits w valid,
      )

  save_config_dpapi-disk :
      (c : ReceiverConfig) (blob : List ℕ) (now : ℕ) (w : WriteOutcome) (disk : Disk)
      → validate_config platform c now ≡ ConfigError.no_error
      → dpapi.protect (serialize_config c) ≡ some blob
      → 0 < length blob
      → length blob ≤ 64 * 1024
      → Succeeds w (9 + length blob)
      → save_config_dpapi platform dpapi true now w disk c
        ≡ (record { target = some (wrap blob); temporary = none }, true)
  unfolding save_config_dpapi
  save_config_dpapi-disk c blob now w disk valid e h k s =
      ground (
        arith,
        length-wrap blob,
        write_atomic-Succeeds w disk (wrap blob) (rw (length-wrap blob) s),
      )

  -- Where the data-protection API recovers what it protected into bytes, and addresses print
  -- within their buffer: a well-typed configuration that is valid now and at the time of reading
  -- is saved and read back whole, if its protected blob is not empty and has at most 65527 bytes
  -- and the system calls succeed.
  pub load_config_dpapi-save_config_dpapi :
      (c : ReceiverConfig) (blob : List ℕ) (now later : ℕ) (w : WriteOutcome) (disk : Disk)
      → NtopFits platform
      → Recovers dpapi
      → WellTyped c
      → validate_config platform c now ≡ ConfigError.no_error
      → validate_config platform c later ≡ ConfigError.no_error
      → dpapi.protect (serialize_config c) ≡ some blob
      → 0 < length blob
      → length blob ≤ 65527
      → Succeeds w (9 + length blob)
      → ((save_config_dpapi platform dpapi true now w disk c).1 ≡ true)
        × (load_config_dpapi platform dpapi true
              (save_config_dpapi platform dpapi true now w disk c).0
              later
            ≡ (some c, ConfigError.no_error))
  unfolding load_config_dpapi read_bounded
  load_config_dpapi-save_config_dpapi c blob now later w disk fits recovers typed valid still e h k
        s =
      rw (save_config_dpapi-disk c blob now w disk valid e h (omega arith) s) (
        ground (
          arith,
          length-wrap blob,
          unwrap-wrap blob h (omega arith),
          open_blob-protect c blob now later fits recovers typed still e,
        ))

  -- The reader's limit is on the whole file, the writer's on the blob: where the configuration is
  -- valid and the system calls succeed, a blob of 65528 to 65536 bytes is saved with success, and
  -- every later load reports an input error.
  pub load_config_dpapi_too_large :
      (c : ReceiverConfig) (blob : List ℕ) (now later : ℕ) (w : WriteOutcome) (disk : Disk)
      (readable : Bool)
      → validate_config platform c now ≡ ConfigError.no_error
      → dpapi.protect (serialize_config c) ≡ some blob
      → 65528 ≤ length blob
      → length blob ≤ 64 * 1024
      → Succeeds w (9 + length blob)
      → ((save_config_dpapi platform dpapi true now w disk c).1 ≡ true)
        × (load_config_dpapi platform dpapi readable
              (save_config_dpapi platform dpapi true now w disk c).0
              later
            ≡ (none, ConfigError.io_failure))
  unfolding load_config_dpapi read_bounded
  load_config_dpapi_too_large c blob now later w disk readable valid e h k s =
      rw (save_config_dpapi-disk c blob now w disk valid e (omega arith) k s)
        (ground (arith, length-wrap blob))
