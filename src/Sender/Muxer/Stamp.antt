-- ===== src/Sender/Muxer/Stamp.antt =====
-- An independent reader of PES packets and clock references, by ISO/IEC 13818-1, and what it finds in
-- the muxer's bytes.
use Prim.Native.Nat.{bit_or}
use android2pc_stream.Prelude.{
  ℕ, ◌+◌, ◌-◌, ◌*◌, ◌/◌, ◌%◌, ◌^◌, ◌≤◌, ◌<◌, ◌≡◌, refl, ◌∙◌, List, [], ◌∷◌, length, leb,
  if◌then◌else◌, arith,
}
use android2pc_stream.Prelude.Bits.{shr, shl, low, shl-bit_or}
use android2pc_stream.Prelude.Int.{ℤ, pos, ◌-ℤ◌}
use android2pc_stream.Sender.Muxer.State.{Muxer, relative_microseconds, pts90, pcr27}
use android2pc_stream.Sender.Muxer.Tables.{append_u16}
use android2pc_stream.Sender.Muxer.Pes.{append_pts, pes_bytes, pcr_bytes}

-- The 33 bits of a presentation time stamp, from its five bytes.
abbrev pub pts_value : ℕ → ℕ → ℕ → ℕ → ℕ → ℕ
pts_value a b c d e = a / 2 % 8 * 2 ^ 30 + b * 2 ^ 22 + c / 2 * 2 ^ 15 + d * 2 ^ 7 + e / 2

-- A PES packet with a time stamp and no other optional field.
pub record IsPes (stream_id pts : ℕ) (payload bytes : List ℕ) : Type 0 where
  pub high : ℕ
  pub low_byte : ℕ
  pub a : ℕ
  pub b : ℕ
  pub c : ℕ
  pub d : ℕ
  pub e : ℕ
  pub shape :
      bytes
      ≡ 0 ∷ 0 ∷ 1 ∷ stream_id ∷ high ∷ low_byte ∷ 0x80 ∷ 0x80 ∷ 5 ∷ a ∷ b ∷ c ∷ d ∷ e ∷ payload
  -- PES_packet_length counts what follows it, or is zero for a packet that is too long.
  pub length_is :
      high * 256 + low_byte ≡ (if leb (length payload + 8) 0xFFFF then length payload + 8 else 0)
  pub prefix_is : a / 16 ≡ 2
  pub markers : (a % 2 ≡ 1) × (c % 2 ≡ 1) × (e % 2 ≡ 1)
  pub stamp : pts_value a b c d e ≡ pts
  pub bytes_are : (a < 256) × (b < 256) × (c < 256) × (d < 256) × (e < 256)

first_byte : (x : ℕ) → x < 8 → low (bit_or (bit_or 0x20 (shl x 1)) 0x01) 8 ≡ 32 + x * 2 + 1
first_byte x h =
    let outer : bit_or 0x20 (shl x 1) ≡ (16 + x) * 2 ^ 1 = omega (arith, shl-bit_or 5 1 (x * 2)) in
    rw outer (omega (arith, shl-bit_or 1 (16 + x) 1))

marked_byte : (x : ℕ) → x < 128 → low (bit_or (shl x 1) 0x01) 8 ≡ x * 2 + 1
marked_byte x h = omega (arith, shl-bit_or 1 x 1)

pts_bits :
    (v : ℕ)
    → v < 2 ^ 33
    → v / 2 ^ 30 % 8 * 2 ^ 30
        + v / 2 ^ 22 % 256 * 2 ^ 22
        + v / 2 ^ 15 % 128 * 2 ^ 15
        + v / 2 ^ 7 % 256 * 2 ^ 7
        + v % 128
      ≡ v
pts_bits v h = omega arith

pts90-lt : (m : Muxer) (time : ℤ) → pts90 m time < 2 ^ 33
unfolding pts90
pts90-lt m time = omega arith

encoded_length :
    (n : ℕ)
    → low (low (shr (if leb n 0xFFFF then low n 16 else 0) 8) 8) 8 * 256
        + low (low (if leb n 0xFFFF then low n 16 else 0) 8) 8
      ≡ (if leb n 0xFFFF then n else 0)
encoded_length n = ground arith

-- The five bytes, with each `|` as a sum.
stamped :
    (m : Muxer) (stream_id : ℕ) (payload : List ℕ) (time : ℤ) (v : ℕ)
    → pts90 m time ≡ v
    → pes_bytes m stream_id payload time
      ≡ 0
        ∷ 0
        ∷ 1
        ∷ stream_id
        ∷ low
            (low
              (shr (if leb (length payload + 8) 0xFFFF then low (length payload + 8) 16 else 0) 8)
              8)
            8
        ∷ low (low (if leb (length payload + 8) 0xFFFF then low (length payload + 8) 16 else 0) 8) 8
        ∷ 0x80
        ∷ 0x80
        ∷ 5
        ∷ (32 + v % 2 ^ 33 / 2 ^ 30 % 8 * 2 + 1)
        ∷ v % 2 ^ 33 / 2 ^ 22 % 256 % 256
        ∷ (v % 2 ^ 33 / 2 ^ 15 % 128 * 2 + 1)
        ∷ v % 2 ^ 33 / 2 ^ 7 % 256 % 256
        ∷ (v % 2 ^ 33 % 128 * 2 + 1)
        ∷ payload
unfolding pes_bytes append_pts append_u16
stamped m stream_id payload time v e =
    rw
      (
        e,
        first_byte (low (shr (low v 33) 30) 3) (omega arith),
        marked_byte (low (shr (low v 33) 15) 7) (omega arith),
        marked_byte (low (low v 33) 7) (omega arith),
      )
      refl

-- The PES packet of a payload is read back by the standard: its length field counts the bytes behind it
-- (or is zero where they are more than 65535), and its time stamp is the muxer's 33-bit clock.
pub pes_bytes-IsPes :
    (m : Muxer) (stream_id : ℕ) (payload : List ℕ) (time : ℤ)
    → IsPes stream_id (pts90 m time) payload (pes_bytes m stream_id payload time)
pes_bytes-IsPes m stream_id payload time = record {
  high = _;
  low_byte = _;
  a = _;
  b = _;
  c = _;
  d = _;
  e = _;
  shape = stamped m stream_id payload time (pts90 m time) refl;
  length_is = encoded_length (length payload + 8);
  prefix_is = omega arith;
  markers = (omega arith, omega arith, omega arith);
  stamp = omega (arith, pts_bits (pts90 m time) (pts90-lt m time), pts90-lt m time);
  bytes_are = (omega arith, omega arith, omega arith, omega arith, omega arith);
}

-- A clock reference: 33 bits of 90 kHz and 9 bits of 27 MHz.
abbrev pub pcr_value : List ℕ → ℕ
pcr_value (a ∷ b ∷ c ∷ d ∷ e ∷ f ∷ []) =
    (a * 2 ^ 25 + b * 2 ^ 17 + c * 2 ^ 9 + d * 2 + e / 128) * 300 + (e % 2 * 256 + f)
pcr_value _ = 0

mixed_byte :
    (base extension : ℕ)
    → base < 2
    → extension < 2
    → low (bit_or (bit_or (shl base 7) 0x7E) extension) 8 ≡ base * 128 + 126 + extension
mixed_byte base extension h k =
    let outer : bit_or (shl base 7) 0x7E ≡ (base * 64 + 63) * 2 ^ 1 =
      omega (arith, shl-bit_or 7 base 0x7E) in
    rw outer (omega (arith, shl-bit_or 1 (base * 64 + 63) extension))

-- The six bytes hold the 27 MHz clock, the base modulo 2^33.
pub pcr_value-pcr_bytes :
    (pcr : ℕ) → pcr_value (pcr_bytes pcr) ≡ pcr / 300 % 2 ^ 33 * 300 + pcr % 300
unfolding pcr_bytes
pcr_value-pcr_bytes pcr =
    rw
      (mixed_byte (low (low (pcr / 300) 33) 1) (low (shr (low (pcr % 300) 16) 8) 1) (omega arith)
        (omega arith))
      (omega arith)

elapsed :
    (m : Muxer) (o t : ℕ)
    → m.origin_microseconds ≡ pos o
    → o ≤ t
    → t < 2 ^ 63
    → relative_microseconds m (pos t) ≡ t - o
unfolding ◌-ℤ◌
elapsed m o t e h k = rw e (ground arith)

-- For a time at or after the origin, up to 2^64 ticks of 90 MHz later, the packet's time stamp is the
-- elapsed time in 90 kHz ticks modulo 2^33.
pub pes_bytes_clock :
    (m : Muxer) (stream_id : ℕ) (payload : List ℕ) (o t : ℕ)
    → m.origin_microseconds ≡ pos o
    → o ≤ t
    → t < 2 ^ 63
    → (t - o) * 90 < 2 ^ 64
    → IsPes stream_id ((t - o) * 90 / 1000 % 2 ^ 33) payload (pes_bytes m stream_id payload (pos t))
unfolding pts90
pes_bytes_clock m stream_id payload o t e h k l =
    let ticks : pts90 m (pos t) ≡ (t - o) * 90 / 1000 % 2 ^ 33 =
      rw (elapsed m o t e h k) (omega arith) in
    rw (← ticks) (pes_bytes-IsPes m stream_id payload (pos t))

-- In the first 2^33 * 300 ticks after the origin the clock reference is the elapsed time at 27 MHz.
pub pcr_value-pcr27 :
    (m : Muxer) (o t : ℕ)
    → m.origin_microseconds ≡ pos o
    → o ≤ t
    → t < 2 ^ 63
    → (t - o) * 27 < 2 ^ 33 * 300
    → pcr_value (pcr_bytes (pcr27 m (pos t))) ≡ (t - o) * 27
unfolding pcr27
pcr_value-pcr27 m o t e h k l =
    let ticks : pcr27 m (pos t) ≡ (t - o) * 27 = rw (elapsed m o t e h k) (omega arith) in
    rw ticks (pcr_value-pcr_bytes ((t - o) * 27) ∙ omega arith)
