-- ===== src/Sender/Muxer/Crc/Residue.antt =====
-- A receiver of a table runs the same checksum over the section with its four checksum bytes.
use Prim.Native.Nat.{bit_xor}
use android2pc_stream.Prelude.{
  ℕ, zero, suc, ◌+◌, ◌*◌, ◌/◌, ◌%◌, ◌^◌, ◌<◌, ◌≡◌, refl, ◌∙◌, List, [], ◌∷◌, ◌++◌, arith,
}
use android2pc_stream.Prelude.Bits.{shr, shl, low, bit_xor-shl, bit_xor-lt}
use android2pc_stream.Sender.Muxer.Crc.{crc_bit, crc_bits, crc_loop, crc32_mpeg, append_crc}

abbrev take_in : ℕ → ℕ → ℕ
take_in crc byte = crc_bits 8 (bit_xor crc (low (shl byte 24) 32))

crc_loop-append :
    (xs ys : List ℕ) (crc : ℕ) → crc_loop crc (xs ++ ys) ≡ crc_loop (crc_loop crc xs) ys
unfolding crc_loop
crc_loop-append [] ys crc = refl
crc_loop-append (x ∷ xs) ys crc = crc_loop-append xs ys (take_in crc x)

-- With the upper bit clear a round is a shift.
crc_bit_shift : (crc : ℕ) → crc < 2 ^ 31 → crc_bit crc ≡ crc * 2
unfolding crc_bit
crc_bit_shift crc h = ground arith

crc_bits_shift : (crc : ℕ) → crc < 2 ^ 24 → crc_bits 8 crc ≡ crc * 256
unfolding crc_bits
crc_bits_shift crc h =
    rw
      (
        crc_bit_shift crc (omega arith),
        crc_bit_shift (crc * 2) (omega arith),
        crc_bit_shift (crc * 2 * 2) (omega arith),
        crc_bit_shift (crc * 2 * 2 * 2) (omega arith),
        crc_bit_shift (crc * 2 * 2 * 2 * 2) (omega arith),
        crc_bit_shift (crc * 2 * 2 * 2 * 2 * 2) (omega arith),
        crc_bit_shift (crc * 2 * 2 * 2 * 2 * 2 * 2) (omega arith),
        crc_bit_shift (crc * 2 * 2 * 2 * 2 * 2 * 2 * 2) (omega arith),
      )
      (omega arith)

-- A byte equal to the register's upper one clears it.
crc_byte :
    (crc : ℕ) (bytes : List ℕ)
    → crc < 2 ^ 32
    → crc_loop crc (crc / 2 ^ 24 ∷ bytes) ≡ crc_loop (crc % 2 ^ 24 * 256) bytes
unfolding crc_loop
crc_byte crc bytes h =
    let placed : low (shl (crc / 2 ^ 24) 24) 32 ≡ crc / 2 ^ 24 * 2 ^ 24 = omega arith in
    let whole : crc / 2 ^ 24 * 2 ^ 24 + crc % 2 ^ 24 ≡ crc = omega arith in
    let cleared : bit_xor crc (crc / 2 ^ 24 * 2 ^ 24) ≡ crc % 2 ^ 24 =
      rw whole at (bit_xor-shl 24 (crc / 2 ^ 24) (crc % 2 ^ 24) (omega arith)) in
    rw (placed, cleared, crc_bits_shift (crc % 2 ^ 24) (omega arith)) refl

crc_bit-lt : (crc : ℕ) → crc < 2 ^ 32 → crc_bit crc < 2 ^ 32
unfolding crc_bit
crc_bit-lt crc h = ground (arith, bit_xor-lt 32 (low (shl crc 1) 32) 0x04C11DB7)

crc_bits-lt : (rounds crc : ℕ) → crc < 2 ^ 32 → crc_bits rounds crc < 2 ^ 32
unfolding crc_bits
crc_bits-lt zero crc h = h
crc_bits-lt (suc rounds) crc h = crc_bits-lt rounds (crc_bit crc) (crc_bit-lt crc h)

crc_loop-lt : (bytes : List ℕ) (crc : ℕ) → crc < 2 ^ 32 → crc_loop crc bytes < 2 ^ 32
unfolding crc_loop
crc_loop-lt [] crc h = h
crc_loop-lt (byte ∷ bytes) crc h =
    crc_loop-lt bytes (take_in crc byte)
      (crc_bits-lt 8 _ (bit_xor-lt 32 crc (low (shl byte 24) 32) h (omega arith)))

pub crc32_mpeg-lt : (bytes : List ℕ) → crc32_mpeg bytes < 2 ^ 32
unfolding crc32_mpeg
crc32_mpeg-lt bytes = crc_loop-lt bytes 0xFFFFFFFF (omega arith)

-- The same with the byte as a number of its own.
crc_byte_eq :
    (crc byte next : ℕ) (bytes : List ℕ)
    → crc < 2 ^ 32
    → byte ≡ crc / 2 ^ 24
    → next ≡ crc % 2 ^ 24 * 256
    → crc_loop crc (byte ∷ bytes) ≡ crc_loop next bytes
crc_byte_eq crc byte next bytes h e f = rw (e, f) (crc_byte crc bytes h)

-- The four bytes of the register, upper one first, bring it to zero.
crc_bytes :
    (crc : ℕ)
    → crc < 2 ^ 32
    → crc_loop crc (
        low (low (shr crc 24) 8) 8
        ∷ low (low (shr crc 16) 8) 8
        ∷ low (low (shr crc 8) 8) 8
        ∷ low (low crc 8) 8
        ∷ [])
      ≡ 0
crc_bytes crc h =
    crc_byte_eq crc _ (crc % 2 ^ 24 * 2 ^ 8) _ h (omega arith) (omega arith)
    ∙ crc_byte_eq (crc % 2 ^ 24 * 2 ^ 8) _ (crc % 2 ^ 16 * 2 ^ 16) _ (omega arith) (omega arith)
        (omega arith)
    ∙ crc_byte_eq (crc % 2 ^ 16 * 2 ^ 16) _ (crc % 2 ^ 8 * 2 ^ 24) _ (omega arith) (omega arith)
        (omega arith)
    ∙ crc_byte_eq (crc % 2 ^ 8 * 2 ^ 24) _ 0 _ (omega arith) (omega arith) (omega arith)
    ∙ empty_loop
  where
    empty_loop : crc_loop 0 [] ≡ 0
    empty_loop = unfold crc_loop in refl

-- Checked over a section and the checksum appended to it, the checksum is zero.
pub crc32_mpeg-append_crc : (section : List ℕ) → crc32_mpeg (append_crc section) ≡ 0
unfolding crc32_mpeg append_crc
crc32_mpeg-append_crc section =
    crc_loop-append section _ 0xFFFFFFFF
    ∙ crc_bytes (crc_loop 0xFFFFFFFF section) (crc_loop-lt section 0xFFFFFFFF (omega arith))
