-- ===== src/Base64/Reading.antt =====
-- base64url, with a reader by RFC 4648.
use android2pc_stream.Prelude.{
  ℕ, ◌+◌, ◌-◌, ◌*◌, ◌/◌, ◌%◌, ◌^◌, ◌<◌, ◌≡◌, refl, ap, true, List, [], ◌∷◌, length, get_or, ltb,
  ◌==◌, if◌then◌else◌, All, IsByte, arith, ==_iff, range_passes, range_passes-below,
}
use android2pc_stream.Prelude.Bits.{low, shr, shl, shl-bit_or}
use android2pc_stream.Base64.{alphabet, push_byte, drain, last_digit, encode_from, base64url}

-- The value of a character.
abbrev sextet : ℕ → ℕ
sextet c =
    if c == b'-'
    then 62
    else if c == b'_'
    then 63
    else if ltb c b'A'
    then c - b'0' + 52
    else if ltb c b'a'
    then c - b'A'
    else c - b'a' + 26

-- Four characters for three bytes, and at the end three for two or two for one.
unfoldable pub base64_decode : List ℕ → List ℕ
base64_decode (a ∷ b ∷ c ∷ d ∷ text) =
    (sextet a * 4 + sextet b / 16)
    ∷ (sextet b % 16 * 16 + sextet c / 4)
    ∷ (sextet c % 4 * 64 + sextet d)
    ∷ base64_decode text
base64_decode (a ∷ b ∷ c ∷ []) =
    (sextet a * 4 + sextet b / 16) ∷ (sextet b % 16 * 16 + sextet c / 4) ∷ []
base64_decode (a ∷ b ∷ []) = (sextet a * 4 + sextet b / 16) ∷ []
base64_decode _ = []

sextet_table : range_passes (λ d. sextet (get_or alphabet d 0) == d) 0 64 ≡ true
unfolding range_passes
sextet_table = refl

-- The character of a number below 64, which is shut in what follows.
char : ℕ → ℕ
char d = get_or alphabet d 0

sextet-char : (d : ℕ) → d < 64 → sextet (char d) ≡ d
unfolding char
sextet-char d h = (==_iff _ d).0 (range_passes-below _ 64 d sextet_table h)

push_byte-low :
    (accumulator byte : ℕ)
    → byte < 256
    → push_byte accumulator byte ≡ accumulator * 256 % 2 ^ 32 + byte
unfolding push_byte
push_byte-low accumulator byte h =
    let e : low (shl accumulator 8) 32 ≡ accumulator % 2 ^ 24 * 2 ^ 8 = omega arith in
    rw (e, shl-bit_or 8 (accumulator % 2 ^ 24) byte h) (omega arith)

encode_three :
    (accumulator a b c : ℕ) (bytes : List ℕ)
    → a < 256
    → b < 256
    → c < 256
    → (next : ℕ) × (encode_from accumulator 0 (a ∷ b ∷ c ∷ bytes)
        ≡ char (a / 4)
          ∷ char (a % 4 * 16 + b / 16)
          ∷ char (b % 16 * 4 + c / 64)
          ∷ char (c % 64)
          ∷ encode_from next 0 bytes)
unfolding encode_from char drain
encode_three accumulator a b c bytes ha hb hc =
    let p = push_byte accumulator a in
    let q = push_byte p b in
    let r = push_byte q c in
    let ep = push_byte-low accumulator a ha in
    let eq = push_byte-low p b hb in
    let er = push_byte-low q c hc in
    let d0 : low (shr p 2) 6 ≡ a / 4 = omega arith in
    let d1 : low (shr q 4) 6 ≡ a % 4 * 16 + b / 16 = omega arith in
    let d2 : low (shr r 6) 6 ≡ b % 16 * 4 + c / 64 = omega arith in
    let d3 : low (shr r 0) 6 ≡ c % 64 = omega arith in (r, rw (d0, d1, d2, d3) refl)

encode_two :
    (accumulator a b : ℕ)
    → a < 256
    → b < 256
    → encode_from accumulator 0 (a ∷ b ∷ [])
      ≡ char (a / 4) ∷ char (a % 4 * 16 + b / 16) ∷ char (b % 16 * 4) ∷ []
unfolding encode_from char drain last_digit
encode_two accumulator a b ha hb =
    let p = push_byte accumulator a in
    let q = push_byte p b in
    let ep = push_byte-low accumulator a ha in
    let eq = push_byte-low p b hb in
    let d0 : low (shr p 2) 6 ≡ a / 4 = omega arith in
    let d1 : low (shr q 4) 6 ≡ a % 4 * 16 + b / 16 = omega arith in
    let d2 : low (shl q 2) 6 ≡ b % 16 * 4 = omega arith in rw (d0, d1, d2) refl

encode_one :
    (accumulator a : ℕ)
    → a < 256
    → encode_from accumulator 0 (a ∷ []) ≡ char (a / 4) ∷ char (a % 4 * 16) ∷ []
unfolding encode_from char drain last_digit
encode_one accumulator a ha =
    let p = push_byte accumulator a in
    let ep = push_byte-low accumulator a ha in
    let d0 : low (shr p 2) 6 ≡ a / 4 = omega arith in
    let d1 : low (shl p 4) 6 ≡ a % 4 * 16 = omega arith in rw (d0, d1) refl

encode_none : (accumulator : ℕ) → encode_from accumulator 0 [] ≡ []
unfolding encode_from last_digit
encode_none accumulator = refl

decode_from :
    (accumulator : ℕ) (bytes : List ℕ)
    → All IsByte bytes
    → base64_decode (encode_from accumulator 0 bytes) ≡ bytes
unfolding base64_decode
decode_from accumulator [] h = rw (encode_none accumulator) refl
decode_from accumulator (a ∷ []) h = rw (encode_one accumulator a h.0) (
    rw (sextet-char (a / 4) (omega (arith, h.0)), sextet-char (a % 4 * 16) (omega arith))
      (ap (λ (x : ℕ). x ∷ []) (omega arith)))
decode_from accumulator (a ∷ b ∷ []) h = rw (encode_two accumulator a b h.0 h.1.0) (
    rw
      (
        sextet-char (a / 4) (omega (arith, h.0)),
        sextet-char (a % 4 * 16 + b / 16) (omega (arith, h.1.0)),
        sextet-char (b % 16 * 4) (omega arith),
      )
      (ground arith))
decode_from accumulator (a ∷ b ∷ c ∷ bytes) h =
    let (next, e) = encode_three accumulator a b c bytes h.0 h.1.0 h.1.1.0 in
    rw
      (
        e,
        sextet-char (a / 4) (omega (arith, h.0)),
        sextet-char (a % 4 * 16 + b / 16) (omega (arith, h.1.0)),
        sextet-char (b % 16 * 4 + c / 64) (omega (arith, h.1.1.0)),
        sextet-char (c % 64) (omega arith),
      )
      (ground (arith, decode_from next bytes h.1.1.1))

length_from :
    (accumulator : ℕ) (bytes : List ℕ)
    → All IsByte bytes
    → length (encode_from accumulator 0 bytes) ≡ (length bytes * 8 + 5) / 6
length_from accumulator [] h = rw (encode_none accumulator) (omega arith)
length_from accumulator (a ∷ []) h = rw (encode_one accumulator a h.0) (omega arith)
length_from accumulator (a ∷ b ∷ []) h = rw (encode_two accumulator a b h.0 h.1.0) (omega arith)
length_from accumulator (a ∷ b ∷ c ∷ bytes) h =
    let (next, e) = encode_three accumulator a b c bytes h.0 h.1.0 h.1.1.0 in
    rw e (omega (arith, length_from next bytes h.1.1.1))

-- A character of the alphabet.
abbrev pub IsDigit : ℕ → Type 0
IsDigit c = (d : ℕ) × (d < 64) × (c ≡ get_or alphabet d 0)

IsDigit-char : (d : ℕ) → d < 64 → IsDigit (char d)
unfolding char
IsDigit-char d h = (d, h, refl)

digits_from :
    (accumulator : ℕ) (bytes : List ℕ)
    → All IsByte bytes
    → All IsDigit (encode_from accumulator 0 bytes)
digits_from accumulator [] h = rw (encode_none accumulator) tt
digits_from accumulator (a ∷ []) h =
    rw (encode_one accumulator a h.0)
      (IsDigit-char (a / 4) (omega (arith, h.0)), (IsDigit-char (a % 4 * 16) (omega arith), tt))
digits_from accumulator (a ∷ b ∷ []) h = rw (encode_two accumulator a b h.0 h.1.0) (
  IsDigit-char (a / 4) (omega (arith, h.0)),
  (
    IsDigit-char (a % 4 * 16 + b / 16) (omega (arith, h.1.0)),
    (IsDigit-char (b % 16 * 4) (omega arith), tt),
  ),
)
digits_from accumulator (a ∷ b ∷ c ∷ bytes) h =
    let (next, e) = encode_three accumulator a b c bytes h.0 h.1.0 h.1.1.0 in
    let d0 = IsDigit-char (a / 4) (omega (arith, h.0)) in
    let d1 = IsDigit-char (a % 4 * 16 + b / 16) (omega (arith, h.1.0)) in
    let d2 = IsDigit-char (b % 16 * 4 + c / 64) (omega (arith, h.1.1.0)) in
    let d3 = IsDigit-char (c % 64) (omega arith) in
    rw e (d0, (d1, (d2, (d3, digits_from next bytes h.1.1.1))))

-- Every list of bytes is read back from its text, which has one character of the alphabet for each six bits
-- begun: 43 for a secret of 32 bytes.
pub base64_decode-base64url :
    (bytes : List ℕ)
    → All IsByte bytes
    → (base64_decode (base64url bytes) ≡ bytes)
      × (length (base64url bytes) ≡ (length bytes * 8 + 5) / 6)
      × All IsDigit (base64url bytes)
unfolding base64url
base64_decode-base64url bytes h =
    (decode_from 0 bytes h, length_from 0 bytes h, digits_from 0 bytes h)
