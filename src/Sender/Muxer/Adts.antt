-- ===== src/Sender/Muxer/Adts.antt =====
-- mpeg_ts_muxer.cpp, lines 57 to 100: the ADTS header in front of each raw AAC frame.
pub mod Header
use Prim.Native.Nat.{bit_or}
use android2pc_stream.Prelude.{
  ℕ, ◌+◌, ◌-◌, ◌*◌, ◌/◌, ◌%◌, ◌^◌, Bool, ◌||◌, Option, none, some, List, [], ◌∷◌, ◌++◌, length, ltb,
  ◌==◌, if◌then◌else◌,
}
use android2pc_stream.Prelude.Bits.{shr, shl, low}
use android2pc_stream.Prelude.Int.{ℤ, pos, negsuc, ltb_ℤ, is_number, to_u64}

-- `none` is the -1 of the default case.
unfoldable pub aac_frequency_index : ℤ → Option ℕ
aac_frequency_index sample_rate =
    if is_number sample_rate 96000
    then some 0
    else if is_number sample_rate 88200
    then some 1
    else if is_number sample_rate 64000
    then some 2
    else if is_number sample_rate 48000
    then some 3
    else if is_number sample_rate 44100
    then some 4
    else if is_number sample_rate 32000
    then some 5
    else if is_number sample_rate 24000
    then some 6
    else if is_number sample_rate 22050
    then some 7
    else if is_number sample_rate 16000
    then some 8
    else none

-- The seven header bytes, for a channel count that has passed the test.
unfoldable pub adts_header : ℕ → ℕ → ℕ → List ℕ
adts_header frequency_index channels frame_length =
    0xFF
    ∷ 0xF1
    ∷ low (bit_or (bit_or (shl 1 6) (shl frequency_index 2)) (shr channels 2)) 8
    ∷ low (bit_or (shl (low channels 2) 6) (low (shr frame_length 11) 2)) 8
    ∷ low (low (shr frame_length 3) 8) 8
    ∷ low (bit_or (shl (low frame_length 3) 5) 0x1F) 8
    ∷ 0xFC
    ∷ []

-- `none` is `return false`; the frame is what the call leaves in `output`.
unfoldable pub build_adts : List ℕ → ℤ → ℤ → Option (List ℕ)
unfolding aac_frequency_index adts_header
build_adts raw sample_rate channels = elim (aac_frequency_index sample_rate) [
  | none ↦ none
  | some frequency_index ↦
      if ltb_ℤ channels (pos 1) || ltb_ℤ (pos 2) channels || ltb (8191 - 7) (length raw)
      then none
      else some (adts_header frequency_index (to_u64 channels) (length raw + 7) ++ raw)
]
