-- ===== src/Receiver/Window/Typed.antt =====
-- Why a configuration that the pairing window makes has fields of bytes and words.
use android2pc_stream.Prelude.{
  ℕ, ◌+◌, ◌^◌, ◌≤◌, ◌<◌, ◌≡◌, ap, ◌∙◌, inl, inr, true, Option, some, List, [], ◌∷◌, length, ltb,
  is_empty, ◌||◌, arith, All, IsByte, Option-cases, if_ind,
}
use android2pc_stream.Platform.{Platform, NtopFits, NtopDotted}
use android2pc_stream.Receiver.Config.{
  ReceiverConfig, WellTyped, is_canonical_uuid, check_uuid_from, is_canonical_private_ipv4,
}
use android2pc_stream.Receiver.Config.Valid.{Valid, host_address}
use android2pc_stream.Receiver.Store.{Dpapi, Recovers}
use android2pc_stream.Receiver.Store.Saved.{GivesBytes}
use android2pc_stream.Receiver.Link.{generate_config}
use android2pc_stream.Receiver.Window.{utf8, int_max, extend_expiry}

-- Documented behaviour of the parameters.
pub record Behaves (platform : Platform) (dpapi : Dpapi) (wide_to_utf8 : List ℕ → Option (List ℕ))
    : Type 0 where
  pub fits : NtopFits platform
  pub dotted : NtopDotted platform
  pub recovers : Recovers dpapi
  pub gives_bytes : GivesBytes dpapi
  pub utf8_bytes : (text bytes : List ℕ) → wide_to_utf8 text ≡ some bytes → All IsByte bytes

-- The generator fills the secret's 32 bytes, where it answers.
abbrev pub Fills : Option (List ℕ) → Type 0
Fills secret = (bytes : List ℕ) → secret ≡ some bytes → (length bytes ≡ 32) × All IsByte bytes

uuid_from-IsByte : (index : ℕ) (text : List ℕ) → check_uuid_from index text ≡ true → All IsByte text
unfolding check_uuid_from
uuid_from-IsByte index [] h = tt
uuid_from-IsByte index (c ∷ text) h =
    (ground arith, uuid_from-IsByte (index + 1) text (ground arith))

uuid-IsByte : (id : List ℕ) → is_canonical_uuid id ≡ true → All IsByte id
unfolding is_canonical_uuid
uuid-IsByte id h = uuid_from-IsByte 0 id (ground arith)

dotted-IsByte : (text : List ℕ) → All (λ c. (b'.' ≤ c) × (c ≤ b'9')) text → All IsByte text
dotted-IsByte [] h = tt
dotted-IsByte (c ∷ text) h = (omega (arith, h.0.1), dotted-IsByte text h.1)

host-IsByte :
    (platform : Platform) (host : List ℕ)
    → NtopDotted platform
    → is_canonical_private_ipv4 platform host ≡ true
    → All IsByte host
host-IsByte platform host dotted h =
    let (address, found, printed, octets) = host_address platform host h in
    dotted-IsByte host (dotted address host printed)

pub utf8-IsByte :
    (wide_to_utf8 : List ℕ → Option (List ℕ)) (input : List ℕ)
    → ((text bytes : List ℕ) → wide_to_utf8 text ≡ some bytes → All IsByte bytes)
    → All IsByte (utf8 wide_to_utf8 input)
unfolding utf8
utf8-IsByte wide_to_utf8 input bytes =
    if_ind (All IsByte) (is_empty input || ltb int_max (length input)) [] _ (λ e. tt)
      (λ e. elim (Option-cases (wide_to_utf8 input)) [
        | inl f ↦ rw f tt
        | inr (made, f) ↦ rw f (bytes input made f)
      ])

module _ (platform : Platform) (label host : List ℕ) (port latency now : ℕ)
    (uuid_bytes secret : Option (List ℕ)) where
  -- What `generate_config` keeps of its arguments.
  pub generated :
      (c : ReceiverConfig)
      → generate_config platform label host port latency now uuid_bytes secret ≡ some c
      → (secret ≡ some c.secret)
        × (c.label ≡ label)
        × (c.host ≡ host)
        × (c.port ≡ port)
        × (c.latency_ms ≡ latency)
  unfolding generate_config
  generated c h = elim (Option-cases secret) [
    | inl e ↦ absurd (ground (arith, e, h))
    | inr (bytes, e) ↦
        let same : bytes ≡ c.secret = ground (arith, e, h) in
        (
          e ∙ ap (λ (b : List ℕ). some b) same,
          ground (arith, e, h),
          ground (arith, e, h),
          ground (arith, e, h),
          ground (arith, e, h),
        )
  ]

-- A valid one with the longer expiry is well-typed.
pub extend_expiry-WellTyped :
    (platform : Platform) (c : ReceiverConfig) (now : ℕ)
    → NtopDotted platform
    → All IsByte c.label
    → c.port < 2 ^ 16
    → (length c.secret ≡ 32) × All IsByte c.secret
    → Valid platform (extend_expiry c now) now
    → WellTyped (extend_expiry c now)
extend_expiry-WellTyped platform c now dotted label port secret v = record {
  id_bytes = uuid-IsByte c.receiver_id v.id_valid;
  label_bytes = label;
  host_bytes = host-IsByte platform c.host dotted v.host_valid;
  port_word = port;
  latency_word = omega (arith, v.latency_most);
  expires_word = omega arith;
  secret_sized = secret.0;
  secret_byte = secret.1;
}
