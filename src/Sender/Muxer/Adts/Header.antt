-- ===== src/Sender/Muxer/Adts/Header.antt =====
-- An independent reader of ADTS headers, by ISO/IEC 13818-7, and what it finds in the muxer's frames.
use Prim.Native.Nat.{bit_or}
use android2pc_stream.Prelude.{
  ℕ, ◌+◌, ◌*◌, ◌/◌, ◌%◌, ◌≤◌, ◌<◌, ◌≡◌, refl, ap, false, some, List, [], ◌∷◌, ◌++◌, length,
  get_elem?, arith, Option-cases, inl, inr,
}
use android2pc_stream.Prelude.Bits.{shr, shl, low, shl-bit_or, bit_or-zero}
use android2pc_stream.Prelude.Int.{ℤ, pos, negsuc, ltb_ℤ, to_u64}
use android2pc_stream.Sender.Muxer.Adts.{aac_frequency_index, adts_header, build_adts}

-- The standard's table of sampling frequencies, by index.
abbrev pub frequencies : List ℕ
frequencies =
    96000 ∷ 88200 ∷ 64000 ∷ 48000 ∷ 44100 ∷ 32000 ∷ 24000 ∷ 22050 ∷ 16000 ∷ 12000 ∷ 11025 ∷ 8000
    ∷ 7350 ∷ []

-- A frame with the given sampling frequency, channel configuration and raw data block.
pub record IsAdts (frequency channels : ℕ) (raw frame : List ℕ) : Type 0 where
  pub index : ℕ
  pub size_high : ℕ
  pub size_middle : ℕ
  pub size_low : ℕ
  pub setting : ℕ
  pub shape : frame ≡ 0xFF ∷ 0xF1 ∷ setting ∷ size_high ∷ size_middle ∷ size_low ∷ 0xFC ∷ raw
  pub frequency_is : get_elem? frequencies index ≡ some frequency
  pub setting_is : setting ≡ 1 * 64 + index * 4 + 0
  pub channels_are : size_high / 64 ≡ channels
  pub length_is : size_high % 4 * 2048 + size_middle * 8 + size_low / 32 ≡ length frame
  pub bytes : (size_high < 256) × (size_middle < 256) × (size_low < 256)

index_frequency :
    (rate : ℤ) (i : ℕ)
    → aac_frequency_index rate ≡ some i
    → (n : ℕ) × (rate ≡ pos n) × (i ≤ 8) × (get_elem? frequencies i ≡ some n)
unfolding aac_frequency_index
index_frequency (pos n) i h = (n, refl, ground arith, ground arith)
index_frequency (negsuc n) i h = absurd (ground arith)

setting_lem :
    (i channels : ℕ)
    → i ≤ 8
    → channels ≤ 2
    → low (bit_or (bit_or (shl 1 6) (shl i 2)) (shr channels 2)) 8 ≡ 1 * 64 + i * 4 + 0
setting_lem i channels h k =
    let none_left : shr channels 2 ≡ 0 = omega arith in
    rw (none_left, bit_or-zero (bit_or 64 (i * 4))) (omega (arith, shl-bit_or 6 1 (i * 4)))

size_high_lem :
    (channels size : ℕ)
    → channels ≤ 2
    → size < 8192
    → low (bit_or (shl (low channels 2) 6) (low (shr size 11) 2)) 8 ≡ channels * 64 + size / 2048
size_high_lem channels size h k = omega (arith, shl-bit_or 6 (channels % 4) (size / 2048 % 4))

size_low_lem : (size : ℕ) → low (bit_or (shl (low size 3) 5) 0x1F) 8 ≡ size % 8 * 32 + 31
size_low_lem size = omega (arith, shl-bit_or 5 (size % 8) 31)

adts_header-IsAdts :
    (i channels n : ℕ) (raw : List ℕ)
    → i ≤ 8
    → get_elem? frequencies i ≡ some n
    → 1 ≤ channels
    → channels ≤ 2
    → length raw ≤ 8184
    → IsAdts n channels raw (adts_header i channels (length raw + 7) ++ raw)
unfolding adts_header
adts_header-IsAdts i channels n raw h e lo hi k = record {
  index = i;
  size_high = _;
  size_middle = _;
  size_low = _;
  setting = _;
  shape = refl;
  frequency_is = e;
  setting_is = setting_lem i channels h hi;
  channels_are = omega (arith, size_high_lem channels (length raw + 7) hi (omega arith));
  length_is = omega (
    arith,
    size_high_lem channels (length raw + 7) hi (omega arith),
    size_low_lem (length raw + 7),
  );
  bytes = (omega arith, omega arith, omega arith);
}

-- The settings that a frame exists for: a sampling frequency of the first nine, one or two channels,
-- and a raw block of at most 8184 bytes.
pub record Encodable (raw : List ℕ) (rate channels : ℤ) (frame : List ℕ) : Type 0 where
  pub frequency : ℕ
  pub count : ℕ
  pub rate_is : rate ≡ pos frequency
  pub channels_is : channels ≡ pos count
  pub bounded : length raw ≤ 8184
  pub frame_is : IsAdts frequency count raw frame

channels_range :
    (channels : ℤ)
    → ltb_ℤ channels (pos 1) ≡ false
    → ltb_ℤ (pos 2) channels ≡ false
    → (k : ℕ) × (channels ≡ pos k) × (1 ≤ k) × (k ≤ 2) × (to_u64 channels ≡ k)
channels_range (pos k) h l = (k, refl, ground arith, ground arith, omega (arith, small))
  where
    small : k ≤ 2
    small = ground arith
channels_range (negsuc k) h l = absurd (ground arith)

-- A frame that `build_adts` makes is one of the standard for the given sampling frequency and channel
-- count, with a length field that is the frame's size, around the raw data unchanged.
pub build_adts-Encodable :
    (raw : List ℕ) (rate channels : ℤ) (frame : List ℕ)
    → build_adts raw rate channels ≡ some frame
    → Encodable raw rate channels frame
unfolding build_adts
build_adts-Encodable raw rate channels frame h = elim (Option-cases (aac_frequency_index rate)) [
  | inl e ↦ absurd (ground arith)
  | inr (i, e) ↦
      let (n, rate_is, small, known) = index_frequency rate i e in
      let (k, channels_is, lo, hi, same) = channels_range channels (ground arith) (ground arith) in
      let bounded : length raw ≤ 8184 = ground arith in
      let frame_is : adts_header i k (length raw + 7) ++ raw ≡ frame = ground (arith, same) in
      record {
        frequency = n;
        count = k;
        rate_is = rate_is;
        channels_is = channels_is;
        bounded = bounded;
        frame_is = rw (← frame_is) (adts_header-IsAdts i k n raw small known lo hi bounded);
      }
]

pub build_adts-length :
    (raw : List ℕ) (rate channels : ℤ) (frame : List ℕ)
    → build_adts raw rate channels ≡ some frame
    → (length frame ≡ length raw + 7) × (length raw ≤ 8184)
build_adts-length raw rate channels frame h =
    let e = build_adts-Encodable raw rate channels frame h in
    (omega (arith, ap length e.frame_is.shape), e.bounded)
