-- ===== src/Receiver/Store/Saved.antt =====
-- What a save that answers true has done, and what a loaded configuration still is at a later time.
use android2pc_stream.Prelude.{
  ℕ, ◌+◌, ◌*◌, ◌≤◌, ◌<◌, ◌≡◌, ◌⊎◌, Bool-cases, leb, ap, ◌∙◌, inl, inr, Bool, true, false, ◌||◌,
  Option, none, some, List, length, is_empty, ltb, arith, Option-cases, All, IsByte,
}
use android2pc_stream.Platform.{Platform, NtopFits}
use android2pc_stream.Receiver.Config.{ReceiverConfig, WellTyped, ConfigError, validate_config}
use android2pc_stream.Receiver.Config.Valid.{Valid}
use android2pc_stream.Receiver.Link.Reading.{is_no_error-eq}
use android2pc_stream.Receiver.Credential.{serialize_config, deserialize_config}
use android2pc_stream.Receiver.Credential.RoundTrip.{
  deserialize_config-serialize_config, serialize_config-deserialize_config,
}
use android2pc_stream.Receiver.Store.{
  Disk, WriteOutcome, write_atomic, read_bounded, Dpapi, Recovers, wrap, unwrap, save_config_dpapi,
  open_blob, open_unwrapped, load_config_dpapi,
}
use android2pc_stream.Receiver.Store.Reload.{
  Succeeds, length-wrap, load_config_dpapi-save_config_dpapi, load_config_dpapi_too_large,
}

-- Documented behaviour: what the API unprotects is a text of bytes.
abbrev pub GivesBytes : Dpapi → Type 0
GivesBytes d = (blob plain : List ℕ) → d.unprotect blob ≡ some plain → All IsByte plain

write_atomic-made :
    (w : WriteOutcome) (disk : Disk) (bytes : List ℕ)
    → (write_atomic w disk bytes).1 ≡ true
    → Succeeds w (length bytes)
unfolding write_atomic
write_atomic-made w disk bytes h = elim (Option-cases w.written) [
  | inl e ↦ absurd (ground (arith, e, h))
  | inr (n, e) ↦
      let whole : n ≡ length bytes = ground (arith, e, h) in
      record {
        made = ground (arith, e, h);
        opened = ground (arith, e, h);
        whole = e ∙ ap (λ (k : ℕ). some k) whole;
        flushed = ground (arith, e, h);
        moved = ground (arith, e, h);
      }
]

module _ (platform : Platform) (dpapi : Dpapi) where
  -- What a save did that answered true.
  pub record Saved (path_known : Bool) (now : ℕ) (w : WriteOutcome) (c : ReceiverConfig)
      : Type 0 where
    pub known : path_known ≡ true
    pub config_valid : validate_config platform c now ≡ ConfigError.no_error
    pub blob : List ℕ
    pub protected : dpapi.protect (serialize_config c) ≡ some blob
    pub not_empty : 0 < length blob
    pub not_large : length blob ≤ 64 * 1024
    pub wrote : Succeeds w (9 + length blob)

  save_config_dpapi-Saved :
      (path_known : Bool) (now : ℕ) (w : WriteOutcome) (disk : Disk) (c : ReceiverConfig)
      → (save_config_dpapi platform dpapi path_known now w disk c).1 ≡ true
      → Saved path_known now w c
  unfolding save_config_dpapi
  save_config_dpapi-Saved path_known now w disk c h =
      elim (Option-cases (dpapi.protect (serialize_config c))) [
        | inl e ↦ absurd (ground (arith, e, h))
        | inr (blob, e) ↦
            let made : (write_atomic w disk (wrap blob)).1 ≡ true = ground (arith, e, h) in
            let wrote = write_atomic-made w disk (wrap blob) made in
            record {
              known = ground (arith, e, h);
              config_valid = is_no_error-eq (validate_config platform c now) (ground (arith, e, h));
              blob = blob;
              protected = e;
              not_empty = ground (arith, e, h);
              not_large = ground (arith, e, h);
              wrote = rw (← length-wrap blob) wrote;
            }
      ]

  open_blob-later :
      (blob : List ℕ) (now later : ℕ) (c : ReceiverConfig)
      → NtopFits platform
      → GivesBytes dpapi
      → (open_blob platform dpapi blob now).0 ≡ some c
      → WellTyped c
        × Valid platform c now
        × (validate_config platform c later ≡ ConfigError.no_error
            → open_blob platform dpapi blob later ≡ (some c, ConfigError.no_error))
  unfolding open_blob
  open_blob-later blob now later c fits bytes h = elim (Option-cases (dpapi.unprotect blob)) [
    | inl e ↦ absurd (ground (arith, e, h))
    | inr (plain, e) ↦
        let sized : (is_empty plain || ltb 4096 (length plain)) ≡ false = ground (arith, e, h) in
        let read : (deserialize_config platform plain now).0 ≡ some c = ground (arith, e, h) in
        let (same, typed, valid) =
          serialize_config-deserialize_config platform plain now c
            (deserialize_config platform plain now).1 (bytes blob plain e)
            (ap (λ (r : Option ReceiverConfig). (r, (deserialize_config platform plain now).1))
              read) in
        (
          typed,
          valid,
          λ still.
              let again = deserialize_config-serialize_config platform c later fits typed still in
              rw (e, open_blob, sized, ← same) again,
        )
  ]

  open_unwrapped-later :
      (unwrapped : Option (List ℕ) × ConfigError) (now later : ℕ) (c : ReceiverConfig)
      → NtopFits platform
      → GivesBytes dpapi
      → (open_unwrapped platform dpapi unwrapped now).0 ≡ some c
      → WellTyped c
        × Valid platform c now
        × (validate_config platform c later ≡ ConfigError.no_error
            → open_unwrapped platform dpapi unwrapped later ≡ (some c, ConfigError.no_error))
  unfolding open_unwrapped
  open_unwrapped-later (none, error) now later c fits bytes h = cc
  open_unwrapped-later (some blob, error) now later c fits bytes h =
      open_blob-later blob now later c fits bytes h

  read_bounded-true :
      (readable : Bool) (target : Option (List ℕ)) (outer : List ℕ)
      → read_bounded readable target ≡ some outer
      → read_bounded true target ≡ some outer
  unfolding read_bounded
  read_bounded-true readable none outer h = cc
  read_bounded-true readable (some bytes) outer h = ground (arith, h)

  -- A configuration that was loaded is well-typed and valid, and is loaded again while it is valid and the
  -- file stays.
  pub load_config_dpapi-later :
      (readable : Bool) (disk : Disk) (now later : ℕ) (c : ReceiverConfig)
      → NtopFits platform
      → GivesBytes dpapi
      → (load_config_dpapi platform dpapi readable disk now).0 ≡ some c
      → WellTyped c
        × Valid platform c now
        × (validate_config platform c later ≡ ConfigError.no_error
            → load_config_dpapi platform dpapi true disk later ≡ (some c, ConfigError.no_error))
  unfolding load_config_dpapi
  load_config_dpapi-later readable disk now later c fits bytes h =
      elim (Option-cases (read_bounded readable disk.target)) [
        | inl e ↦ let gone : none ≡ some c = rw (e, load_config_dpapi) at h in cc
        | inr (outer, e) ↦
            let (typed, valid, again) =
              open_unwrapped-later (unwrap outer) now later c fits bytes
                (rw (e, load_config_dpapi) at h) in
            (
              typed,
              valid,
              λ still.
                  rw (read_bounded-true readable disk.target outer e, load_config_dpapi)
                    (again still),
            )
      ]

  -- The file loads with the configuration while it is valid.
  abbrev pub Loads : Disk → ReceiverConfig → Type 0
  Loads disk c =
      (later : ℕ)
      → validate_config platform c later ≡ ConfigError.no_error
      → load_config_dpapi platform dpapi true disk later ≡ (some c, ConfigError.no_error)

  -- The configuration's protected blob is larger than the reader takes, and no load of the file succeeds.
  pub record TooLarge (disk : Disk) (c : ReceiverConfig) : Type 0 where
    pub blob : List ℕ
    pub protected : dpapi.protect (serialize_config c) ≡ some blob
    pub large : 65528 ≤ length blob
    pub refused :
        (readable : Bool) (later : ℕ)
        → load_config_dpapi platform dpapi readable disk later ≡ (none, ConfigError.io_failure)

  -- What was saved is loaded while it is valid, unless its blob is larger than the reader takes.
  pub save_config_dpapi-Loads :
      (path_known : Bool) (now : ℕ) (w : WriteOutcome) (disk : Disk) (c : ReceiverConfig)
      → NtopFits platform
      → Recovers dpapi
      → WellTyped c
      → (save_config_dpapi platform dpapi path_known now w disk c).1 ≡ true
      → (let after = (save_config_dpapi platform dpapi path_known now w disk c).0 in
          Loads after c ⊎ TooLarge after c)
  save_config_dpapi-Loads path_known now w disk c fits recovers typed h =
      let s = save_config_dpapi-Saved path_known now w disk c h in
      rw s.known (elim (Bool-cases (leb (length s.blob) 65527)) [
        | inl e ↦ inl (λ later still.
            (load_config_dpapi-save_config_dpapi platform dpapi c s.blob now later w disk fits
              recovers typed s.config_valid still s.protected s.not_empty (ground (arith, e))
              s.wrote).1)
        | inr e ↦
            let large : 65528 ≤ length s.blob = ground (arith, e) in
            inr (record {
              blob = s.blob;
              protected = s.protected;
              large = large;
              refused = λ readable later.
                  (load_config_dpapi_too_large platform dpapi c s.blob now later w disk readable
                    s.config_valid s.protected large s.not_large s.wrote).1;
            })
      ])
