-- ===== src/Receiver/Link/Parts.antt =====
-- A reader of the pairing link's fields, and why no value ends early.
use android2pc_stream.Prelude.{
  ℕ, ◌+◌, ◌≤◌, ◌≡◌, ◌≢◌, refl, sym, ◌∙◌, inl, inr, true, not, Option, none, some, List, [], ◌∷◌,
  ◌++◌, ◌>>=◌, ◌==◌, if◌then◌else◌, All, IsByte, range_passes, range_passes-below, get_or, arith,
  Bool-cases, ==_iff,
}
use android2pc_stream.Platform.{Platform, NtopDotted}
use android2pc_stream.Base64.{alphabet, base64url}
use android2pc_stream.Base64.Reading.{IsDigit, base64_decode-base64url}
use android2pc_stream.Receiver.Config.{
  is_canonical_uuid, check_uuid_from, is_canonical_private_ipv4,
}
use android2pc_stream.Receiver.Config.Valid.{host_address}
use android2pc_stream.Receiver.Link.{to_string}
use android2pc_stream.Receiver.Link.Decimal.{IsDecimal, to_string-IsDecimal}
use android2pc_stream.Receiver.Pairing.{percent_encode, is_unreserved}

-- What follows the key, or none for another text.
unfoldable pub expect : List ℕ → List ℕ → Option (List ℕ)
expect [] text = some text
expect (k ∷ key) [] = none
expect (k ∷ key) (c ∷ text) = if k == c then expect key text else none

-- The text up to the next `&`, and from it on.
unfoldable pub take_value : List ℕ → List ℕ × List ℕ
take_value [] = ([], [])
take_value (c ∷ text) =
    let rest = take_value text in if c == b'&' then ([], c ∷ text) else (c ∷ rest.0, rest.1)

abbrev pub NoMark : List ℕ → Type 0
NoMark = All (λ c. c ≢ b'&')

expect_key : (key rest : List ℕ) → expect key (key ++ rest) ≡ some rest
unfolding expect
expect_key [] rest = refl
expect_key (k ∷ key) rest = ground (arith, expect_key key rest)

take_value_mark :
    (value rest : List ℕ) → NoMark value → take_value (value ++ b'&' ∷ rest) ≡ (value, b'&' ∷ rest)
unfolding take_value
take_value_mark [] rest h = refl
take_value_mark (c ∷ value) rest h = ground (arith, h.0, take_value_mark value rest h.1)

-- One field with its key, in front of another one.
unfoldable pub read_field : List ℕ → List ℕ → Option (List ℕ × List ℕ)
unfolding expect take_value
read_field key text = expect key text >>= λ rest. some (take_value rest)

-- The text goes on with a mark.
abbrev pub Marked : List ℕ → Type 0
Marked [] = ⊥
Marked (c ∷ rest) = c ≡ b'&'

pub read_field_lem :
    (key value rest : List ℕ)
    → NoMark value
    → Marked rest
    → read_field key (key ++ (value ++ rest)) ≡ some (value, rest)
unfolding read_field
read_field_lem key value [] h m = absurd m
read_field_lem key value (c ∷ rest) h m =
    rw m (rw (expect_key key (value ++ b'&' ∷ rest), take_value_mark value rest h) refl)

module _ (P : ℕ → Type 0) (unmarked : (c : ℕ) → P c → c ≢ b'&') where
  All-NoMark : (text : List ℕ) → All P text → NoMark text
  All-NoMark [] h = tt
  All-NoMark (c ∷ text) h = (unmarked c h.0, All-NoMark text h.1)

pub decimal-NoMark : (n : ℕ) → NoMark (to_string n)
decimal-NoMark n = All-NoMark IsDecimal (λ c h. omega arith) (to_string n) (to_string-IsDecimal n)

alphabet_table : range_passes (λ d. not (get_or alphabet d 0 == b'&')) 0 64 ≡ true
unfolding range_passes
alphabet_table = refl

digit-ne-mark : (c : ℕ) → IsDigit c → c ≢ b'&'
digit-ne-mark c (d, h, e) =
    let other = range_passes-below (λ d. not (get_or alphabet d 0 == b'&')) 64 d alphabet_table h in
    λ marked. cc (other, (==_iff (get_or alphabet d 0) b'&').1 (sym e ∙ marked))

pub secret-NoMark : (bytes : List ℕ) → All IsByte bytes → NoMark (base64url bytes)
secret-NoMark bytes h =
    All-NoMark IsDigit digit-ne-mark (base64url bytes) (base64_decode-base64url bytes h).2

pub label-NoMark : (label : List ℕ) → NoMark (percent_encode label)
unfolding percent_encode
label-NoMark [] = tt
label-NoMark (b ∷ label) = elim (Bool-cases (is_unreserved b)) [
  | inl plain ↦ rw plain (ground arith, label-NoMark label)
  | inr other ↦
      rw other (λ e. omega arith, (λ e. ground arith, (λ e. ground arith, label-NoMark label)))
]

uuid_from-NoMark : (index : ℕ) (text : List ℕ) → check_uuid_from index text ≡ true → NoMark text
unfolding check_uuid_from
uuid_from-NoMark index [] h = tt
uuid_from-NoMark index (c ∷ text) h =
    (λ e. ground arith, uuid_from-NoMark (index + 1) text (ground arith))

pub uuid-NoMark : (id : List ℕ) → is_canonical_uuid id ≡ true → NoMark id
unfolding is_canonical_uuid
uuid-NoMark id h = uuid_from-NoMark 0 id (ground arith)

pub host-NoMark :
    (platform : Platform) (host : List ℕ)
    → NtopDotted platform
    → is_canonical_private_ipv4 platform host ≡ true
    → NoMark host
host-NoMark platform host dotted h =
    let (address, found, printed, octets) = host_address platform host h in
    All-NoMark (λ c. (b'.' ≤ c) × (c ≤ b'9')) (λ c p e. omega arith) host
      (dotted address host printed)
