-- ===== src/Sender/Muxer/Crc.antt =====
-- mpeg_ts_muxer.cpp, lines 22 to 46: the checksum of the program tables.
pub mod Residue
use Prim.Native.Nat.{bit_xor}
use android2pc_stream.Prelude.{
  ℕ, zero, suc, ◌+◌, ◌*◌, ◌/◌, ◌%◌, ◌^◌, not, List, [], ◌∷◌, ◌++◌, ◌==◌, if◌then◌else◌,
}
use android2pc_stream.Prelude.Bits.{shr, shl, low}

-- One round of the inner loop.
pub crc_bit : ℕ → ℕ
crc_bit crc =
    let shifted = low (shl crc 1) 32 in
    if not (low (shr crc 31) 1 == 0) then bit_xor shifted 0x04C11DB7 else shifted

-- The inner loop, by the rounds left.
pub crc_bits : ℕ → ℕ → ℕ
unfolding crc_bit
crc_bits zero crc = crc
crc_bits (suc rounds) crc = crc_bits rounds (crc_bit crc)

-- The loop over the bytes, from `crc` on.
pub crc_loop : ℕ → List ℕ → ℕ
unfolding crc_bits
crc_loop crc [] = crc
crc_loop crc (byte ∷ bytes) = crc_loop (crc_bits 8 (bit_xor crc (low (shl byte 24) 32))) bytes

unfoldable pub crc32_mpeg : List ℕ → ℕ
unfolding crc_loop
crc32_mpeg bytes = crc_loop 0xFFFFFFFF bytes

unfoldable pub append_crc : List ℕ → List ℕ
append_crc section =
    let crc = crc32_mpeg section in
    section
    ++ low (low (shr crc 24) 8) 8
      ∷ low (low (shr crc 16) 8) 8
      ∷ low (low (shr crc 8) 8) 8
      ∷ low (low crc 8) 8
      ∷ []
