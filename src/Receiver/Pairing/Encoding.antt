-- ===== src/Receiver/Pairing/Encoding.antt =====
-- new_uuid and percent_encode of credential_codec.cpp, with a reader by RFC 3986.
use Prim.Native.Nat.{bit_or}
use android2pc_stream.Prelude.{
  ℕ, zero, suc, ◌+◌, ◌-◌, ◌*◌, ◌/◌, ◌%◌, ◌<◌, ◌≡◌, refl, ap, ◌∙◌, Bool, true, ◌||◌, some, List, [],
  ◌∷◌, length, ltb, ◌==◌, if◌then◌else◌, between, All, IsByte, arith, Bool-cases, inl, inr,
}
use android2pc_stream.Prelude.Bits.{low, bit_or-shl}
use android2pc_stream.Receiver.Config.{is_canonical_uuid, check_uuid_from}
use android2pc_stream.Receiver.Pairing.{
  hex_digit, uuid_text, marked, new_uuid, is_unreserved, upper_digit, percent_encode,
}

abbrev hex_value : ℕ → ℕ
hex_value c = if ltb c b'A' then c - b'0' else c - b'A' + 10

-- A reader of percent-encoded texts, on fuel of one unit for each character.
pub percent_decode : ℕ → List ℕ → List ℕ
percent_decode zero text = []
percent_decode (suc fuel) [] = []
percent_decode (suc fuel) (c ∷ []) = c ∷ []
percent_decode (suc fuel) (c ∷ d ∷ []) = c ∷ percent_decode fuel (d ∷ [])
percent_decode (suc fuel) (c ∷ d ∷ e ∷ text) =
    let triple = percent_decode fuel text in
    let single = percent_decode fuel (d ∷ e ∷ text) in
    if c == b'%' then (hex_value d * 16 + hex_value e) ∷ triple else c ∷ single

hex_value-upper_digit : (d : ℕ) → d < 16 → hex_value (upper_digit d) ≡ d
hex_value-upper_digit d h = ground arith

decode_plain :
    (fuel c : ℕ) (text : List ℕ)
    → is_unreserved c ≡ true
    → 0 < fuel
    → percent_decode (suc fuel) (c ∷ text) ≡ c ∷ percent_decode fuel text
unfolding percent_decode
decode_plain (suc fuel) c [] h k = refl
decode_plain (suc fuel) c (d ∷ []) h k = refl
decode_plain (suc fuel) c (d ∷ e ∷ text) h k = ground arith
decode_plain zero c text h k = absurd (omega arith)

-- Every text of bytes is read back from its encoding by a reader that has one unit of fuel more
-- than the encoding has characters.
pub percent_decode-percent_encode :
    (bytes : List ℕ) (fuel : ℕ)
    → All IsByte bytes
    → length (percent_encode bytes) < fuel
    → percent_decode fuel (percent_encode bytes) ≡ bytes
unfolding percent_encode percent_decode
percent_decode-percent_encode [] zero h k = refl
percent_decode-percent_encode [] (suc fuel) h k = refl
percent_decode-percent_encode (b ∷ bytes) zero h k = absurd (omega arith)
percent_decode-percent_encode (b ∷ bytes) (suc fuel) h k = elim (Bool-cases (is_unreserved b)) [
  | inl plain ↦ rw plain (
      decode_plain fuel b (percent_encode bytes) plain (ground arith)
      ∙ ap (◌∷◌ b) (percent_decode-percent_encode bytes fuel h.1 (ground arith)))
  | inr other ↦
      rw
        (
          other,
          hex_value-upper_digit (b / 16) (omega (arith, h.0)),
          hex_value-upper_digit (b % 16) (omega arith),
          percent_decode-percent_encode bytes fuel h.1 (ground arith),
        )
        (ground arith)
]

abbrev is_hex : ℕ → Bool
is_hex c = between b'0' b'9' c || between b'a' b'f' c

hex_high : (b : ℕ) → is_hex (hex_digit (b / 16 % 16)) ≡ true
unfolding hex_digit
hex_high b = ground arith

hex_low : (b : ℕ) → is_hex (hex_digit (b % 16)) ≡ true
unfolding hex_digit
hex_low b = ground arith

version_digit : (g : ℕ) → hex_digit (low (bit_or (low g 4) 0x40) 8 / 16 % 16) ≡ b'4'
unfolding hex_digit
version_digit g =
    let byte : low (bit_or (low g 4) 0x40) 8 / 16 % 16 ≡ 4 =
      omega (arith, bit_or-shl 6 (low g 4) 1) in
    rw byte refl

variant_digit :
    (i : ℕ)
    → (let c = hex_digit (low (bit_or (low i 6) 0x80) 8 / 16 % 16) in
        (c == b'8' || c == b'9' || c == b'a' || c == b'b'))
      ≡ true
unfolding hex_digit
variant_digit i =
    let byte : low (bit_or (low i 6) 0x80) 8 / 16 % 16 ≡ 8 + low i 6 / 16 =
      omega (arith, bit_or-shl 7 (low i 6) 1) in
    rw byte (ground arith)

-- An identifier made from any sixteen random bytes passes `is_canonical_uuid`.
pub new_uuid-canonical :
    (a b c d e f g h i j k l m n o p : ℕ)
    → is_canonical_uuid
        (new_uuid (some (a ∷ b ∷ c ∷ d ∷ e ∷ f ∷ g ∷ h ∷ i ∷ j ∷ k ∷ l ∷ m ∷ n ∷ o ∷ p ∷ [])))
      ≡ true
unfolding is_canonical_uuid new_uuid uuid_text marked check_uuid_from
new_uuid-canonical a b c d e f g h i j k l m n o p =
    simp (hex_high, hex_low, version_digit, variant_digit) refl
