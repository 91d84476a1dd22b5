-- ===== src/Receiver/Store.antt =====
-- pc/src/credential_store.cpp: the credential file, protected by the Windows data-protection API. The
-- file system and that API are parameters: an outcome for each call, and a pair of functions.
pub mod Atomic
pub mod Reload
pub mod Saved
use android2pc_stream.Prelude.{
  ℕ, ◌+◌, ◌-◌, ◌*◌, ◌^◌, Bool, true, false, not, ◌&&◌, ◌||◌, Option, none, some, List, [], ◌∷◌,
  ◌++◌, length, take, drop, get_or, ltb, leb, ◌==◌, if◌then◌else◌, starts_with, is_empty, All,
  IsByte, ◌≡◌,
}
use android2pc_stream.Platform.{Platform}
use android2pc_stream.Receiver.Bytes.{append_u32, take_u32}
use android2pc_stream.Receiver.Config.{ReceiverConfig, ConfigError, is_no_error, validate_config}
use android2pc_stream.Receiver.Credential.{serialize_config, deserialize_config}

-- 'L', 'C', 'R', 'D'.
abbrev pub outer_magic : List ℕ
outer_magic = b'L' ∷ b'C' ∷ b'R' ∷ b'D' ∷ []

abbrev pub outer_version : ℕ
outer_version = 1

abbrev pub maximum_protected_bytes : ℕ
maximum_protected_bytes = 64 * 1024

-- The credential file and the temporary file beside it.
pub record Disk : Type 0 where
  pub target : Option (List ℕ)
  pub temporary : Option (List ℕ)

-- How the calls of one `write_atomic` go. `written` is the count that WriteFile reports, none where
-- it fails.
pub record WriteOutcome : Type 0 where
  pub directories_made : Bool
  pub created : Bool
  pub written : Option ℕ
  pub flushed : Bool
  pub moved : Bool
  pub deleted : Bool

-- What stands in the temporary file after WriteFile.
abbrev pub partial : Option ℕ → List ℕ → List ℕ
partial none bytes = []
partial (some n) bytes = take n bytes

abbrev pub wrote_all : Option ℕ → List ℕ → Bool
wrote_all none bytes = false
wrote_all (some n) bytes = n == length bytes

-- The failure path: DeleteFileW of the temporary file.
abbrev pub discard : WriteOutcome → Disk → List ℕ → Disk
discard w disk content = record disk { temporary = if w.deleted then none else some content }

unfoldable pub write_atomic : WriteOutcome → Disk → List ℕ → Disk × Bool
write_atomic w disk bytes =
    if not w.directories_made
    then (disk, false)
    else if not w.created
    then (disk, false)
    else if not (leb (length bytes) (2 ^ 32 - 1))
    then (discard w disk [], false)
    else if not (wrote_all w.written bytes && w.flushed) || not w.moved
    then (discard w disk (partial w.written bytes), false)
    else (record { target = some (partial w.written bytes); temporary = none }, true)

-- `readable` says that the size, the opening and the whole read succeed.
unfoldable pub read_bounded : Bool → Option (List ℕ) → Option (List ℕ)
read_bounded readable none = none
read_bounded readable (some bytes) =
    if ltb (length bytes) 9 || ltb maximum_protected_bytes (length bytes)
    then none
    else if readable
    then some bytes
    else none

-- CryptProtectData and CryptUnprotectData with this program's entropy; none where they fail.
pub record Dpapi : Type 0 where
  pub protect : List ℕ → Option (List ℕ)
  pub unprotect : List ℕ → Option (List ℕ)

-- Documented behaviour: what was protected is recovered, and a blob is made of bytes.
abbrev pub Recovers : Dpapi → Type 0
Recovers d =
    (plain blob : List ℕ)
    → d.protect plain ≡ some blob
    → (d.unprotect blob ≡ some plain) × All IsByte blob

-- The outer file: magic, version, length and blob.
unfoldable pub wrap : List ℕ → List ℕ
wrap blob = append_u32 (outer_magic ++ outer_version ∷ []) (length blob) ++ blob

-- From the outer header on: the blob of the stated length, or an error.
unfoldable pub unwrap : List ℕ → Option (List ℕ) × ConfigError
unwrap outer =
    if ltb (length outer) (4 + 5) || not (starts_with outer outer_magic)
    then (none, ConfigError.malformed)
    else if not (get_or outer 4 0 == outer_version)
    then (none, ConfigError.unsupported_version)
    else elim (take_u32 (drop 5 outer)) [
      | none ↦ (none, ConfigError.malformed)
      | some (size, rest) ↦
          if size == 0 || ltb maximum_protected_bytes size || not (length rest == size)
          then (none, ConfigError.malformed)
          else (some rest, ConfigError.no_error)
    ]

module _ (platform : Platform) (dpapi : Dpapi) where
  -- `path_known` is `!path.empty()`, `now` the clock that the call reads.
  unfoldable pub save_config_dpapi : Bool → ℕ → WriteOutcome → Disk → ReceiverConfig → Disk × Bool
  unfolding wrap
  save_config_dpapi path_known now w disk config =
      if not path_known || not (is_no_error (validate_config platform config now))
      then (disk, false)
      else elim (dpapi.protect (serialize_config config)) [
        | none ↦ (disk, false)
        | some blob ↦
            if is_empty blob || ltb maximum_protected_bytes (length blob)
            then (disk, false)
            else write_atomic w disk (wrap blob)
      ]

  -- The second half of `load_config_dpapi`, on the blob.
  unfoldable pub open_blob : List ℕ → ℕ → Option ReceiverConfig × ConfigError
  open_blob blob now = elim (dpapi.unprotect blob) [
    | none ↦ (none, ConfigError.crypto_failure)
    | some plain ↦
        if is_empty plain || ltb 4096 (length plain)
        then (none, ConfigError.crypto_failure)
        else deserialize_config platform plain now
  ]

  pub open_unwrapped : Option (List ℕ) × ConfigError → ℕ → Option ReceiverConfig × ConfigError
  open_unwrapped (none, error) now = (none, error)
  open_unwrapped (some blob, error) now = open_blob blob now

  unfoldable pub load_config_dpapi : Bool → Disk → ℕ → Option ReceiverConfig × ConfigError
  unfolding open_unwrapped
  load_config_dpapi readable disk now = elim (read_bounded readable disk.target) [
    | none ↦ (none, ConfigError.io_failure)
    | some outer ↦ open_unwrapped (unwrap outer) now
  ]
