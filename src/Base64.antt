-- ===== src/Base64.antt =====
-- base64url of pc/src/credential_codec.cpp, of which pc/src/srt_listener.cpp and native_sender.cpp have copies:
-- the text of a credential's secret, in the pairing link and as SRT's passphrase.
pub mod Reading
use Prim.Native.Nat.{bit_or}
use android2pc_stream.Prelude.{
  ℕ, zero, suc, ◌+◌, ◌-◌, ◌<◌, List, [], ◌∷◌, ◌++◌, get_or, ltb, leb, if◌then◌else◌, codes,
}
use android2pc_stream.Prelude.Bits.{low, shr, shl}

abbrev pub alphabet : List ℕ
alphabet = codes "ABCDEFGHIJKLMNOPQRSTUVWXYZabcdefghijklmnopqrstuvwxyz0123456789-_"

-- `accumulator = (accumulator << 8U) | byte` on std::uint32_t.
unfoldable pub push_byte : ℕ → ℕ → ℕ
push_byte accumulator byte = bit_or (low (shl accumulator 8) 32) byte

-- `alphabet[(accumulator >> bits) & 0x3fU]`.
unfoldable pub digit_at : ℕ → ℕ → ℕ
digit_at accumulator bits = get_or alphabet (low (shr accumulator bits) 6) 0

-- `while (bits >= 6)`: the characters, and the bits that are left. A round takes six bits, so as many
-- rounds as bits are enough.
pub drain : ℕ → ℕ → ℕ → List ℕ × ℕ
unfolding digit_at
drain zero accumulator bits = ([], bits)
drain (suc fuel) accumulator bits =
    let rest = drain fuel accumulator (bits - 6) in
    if leb 6 bits then (digit_at accumulator (bits - 6) ∷ rest.0, rest.1) else ([], bits)

-- The last character, of what is left.
pub last_digit : ℕ → ℕ → List ℕ
last_digit accumulator bits =
    if ltb 0 bits then get_or alphabet (low (shl accumulator (6 - bits)) 6) 0 ∷ [] else []

unfoldable pub encode_from : ℕ → ℕ → List ℕ → List ℕ
unfolding push_byte drain last_digit
encode_from accumulator bits [] = last_digit accumulator bits
encode_from accumulator bits (byte ∷ bytes) =
    let pushed = push_byte accumulator byte in
    let drained = drain (bits + 8) pushed (bits + 8) in
    drained.0 ++ encode_from pushed drained.1 bytes

unfoldable pub base64url : List ℕ → List ℕ
unfolding encode_from
base64url bytes = encode_from 0 0 bytes
