-- ===== src/Receiver/Bytes.antt =====
-- pc/src/credential_codec.cpp, lines 22 to 96, and the same helpers of pc/src/credential_store.cpp:
-- little-endian integers and counted strings. The pair (bytes, offset) is the list of the bytes from
-- `offset` on, so `bytes.size() - offset` is its length.
pub mod Laws
pub mod Fields
use android2pc_stream.Prelude.{
  ℕ, zero, suc, ◌+◌, ◌%◌, ◌/◌, ◌*◌, ◌^◌, bit_or, ◌||◌, Option, none, some, List, [], ◌∷◌, ◌++◌,
  length, take, drop, ltb, if◌then◌else◌, ◌>>=◌,
}
use android2pc_stream.Prelude.Bits.{shr, shl, low}

-- `for (shift = 0; shift < w; shift += 8) push_back((value >> shift) & 0xff)`, by the rounds left.
unfoldable pub append_loop : ℕ → ℕ → ℕ → List ℕ
append_loop zero shift value = []
append_loop (suc rounds) shift value =
    low (low (shr value shift) 8) 8 ∷ append_loop rounds (shift + 8) value

-- `for (...) value |= static_cast<uint_w>(bytes[offset++]) << shift`, by the rounds left.
pub take_loop : ℕ → ℕ → ℕ → ℕ → List ℕ → ℕ × List ℕ
take_loop w zero shift value bytes = (value, bytes)
take_loop w (suc rounds) shift value [] = (value, [])
take_loop w (suc rounds) shift value (byte ∷ bytes) =
    take_loop w rounds (shift + 8) (bit_or value (low (shl byte shift) w)) bytes

unfoldable pub append_u16 : List ℕ → ℕ → List ℕ
append_u16 out value = (out ++ low (low value 8) 8 ∷ []) ++ low (low (shr value 8) 8) 8 ∷ []

unfoldable pub append_u32 : List ℕ → ℕ → List ℕ
append_u32 out value = out ++ append_loop 4 0 value

unfoldable pub append_u64 : List ℕ → ℕ → List ℕ
append_u64 out value = out ++ append_loop 8 0 value

pub take_u16 : List ℕ → Option (ℕ × List ℕ)
take_u16 [] = none
take_u16 (b ∷ []) = none
take_u16 (b ∷ c ∷ rest) = some (bit_or b (low (low c 16 * 2 ^ 8) 16), rest)

unfoldable pub take_u32 : List ℕ → Option (ℕ × List ℕ)
take_u32 bytes = if ltb (length bytes) 4 then none else some (take_loop 32 4 0 0 bytes)

unfoldable pub take_u64 : List ℕ → Option (ℕ × List ℕ)
take_u64 bytes = if ltb (length bytes) 8 then none else some (take_loop 64 8 0 0 bytes)

unfoldable pub append_string : List ℕ → List ℕ → List ℕ
unfolding append_u32
append_string out value = append_u32 out (low (length value) 32) ++ value

unfoldable pub take_string : List ℕ → ℕ → Option (List ℕ × List ℕ)
unfolding take_u32
take_string bytes maximum = do
  (size, rest) ← take_u32 bytes
  if ltb maximum size || ltb (length rest) size then none else some (take size rest, drop size rest)
