-- ===== src/Receiver/Pairing.antt =====
-- pc/src/credential_codec.cpp, lines 145 to 201: new identifiers, and the encoding of the label in the
-- pairing link. The random generator is a parameter: its bytes, or none where it fails.
pub mod Encoding
use Prim.Native.Nat.{bit_or}
use android2pc_stream.Prelude.{
  ℕ, ◌+◌, ◌-◌, ◌*◌, ◌/◌, ◌%◌, ◌^◌, Bool, true, false, ◌||◌, Option, none, some, List, [], ◌∷◌, ◌++◌,
  ltb, ◌==◌, if◌then◌else◌, between, set, get_or,
}
use android2pc_stream.Prelude.Bits.{low, shr}

-- A digit of `%02x`, and its two digits.
unfoldable pub hex_digit : ℕ → ℕ
hex_digit d = if ltb d 10 then b'0' + d else b'a' + (d - 10)

abbrev pub hex_byte : ℕ → List ℕ → List ℕ
hex_byte b rest = hex_digit (b / 16 % 16) ∷ hex_digit (b % 16) ∷ rest

-- `snprintf` of sixteen bytes, which always writes 36 characters.
unfoldable pub uuid_text : List ℕ → List ℕ
uuid_text (a ∷ b ∷ c ∷ d ∷ e ∷ f ∷ g ∷ h ∷ i ∷ j ∷ k ∷ l ∷ m ∷ n ∷ o ∷ p ∷ []) = hex_byte a (
    hex_byte b (
      hex_byte c (
        hex_byte d (
          b'-'
          ∷ hex_byte e (
              hex_byte f (
                b'-'
                ∷ hex_byte g (
                    hex_byte h (
                      b'-'
                      ∷ hex_byte i (
                          hex_byte j (
                            b'-'
                            ∷ hex_byte k (
                                hex_byte l
                                  (hex_byte m (hex_byte n (hex_byte o (hex_byte p [])))))))))))))))
uuid_text _ = []

-- The version and variant bits.
unfoldable pub marked : List ℕ → List ℕ
marked bytes =
    let versioned = set bytes 6 (low (bit_or (low (get_or bytes 6 0) 4) 0x40) 8) in
    set versioned 8 (low (bit_or (low (get_or versioned 8 0) 6) 0x80) 8)

unfoldable pub new_uuid : Option (List ℕ) → List ℕ
unfolding uuid_text marked
new_uuid none = []
new_uuid (some bytes) = uuid_text (marked bytes)

abbrev pub is_unreserved : ℕ → Bool
is_unreserved b =
    between b'A' b'Z' b
    || between b'a' b'z' b
    || between b'0' b'9' b
    || b == b'-'
    || b == b'.'
    || b == b'_'
    || b == b'~'

-- A character of "0123456789ABCDEF".
abbrev pub upper_digit : ℕ → ℕ
upper_digit d = if ltb d 10 then b'0' + d else b'A' + (d - 10)

unfoldable pub percent_encode : List ℕ → List ℕ
percent_encode [] = []
percent_encode (b ∷ bytes) =
    let rest = percent_encode bytes in
    if is_unreserved b then b ∷ rest else b'%' ∷ upper_digit (b / 16) ∷ upper_digit (b % 16) ∷ rest
