-- ===== src/Sender/Muxer/Tables.antt =====
-- mpeg_ts_muxer.cpp, lines 35 to 38 and 177 to 230: the program association and program map tables.
use Prim.Native.Nat.{bit_or}
use android2pc_stream.Prelude.{
  ℕ, ◌+◌, ◌-◌, List, [], ◌∷◌, ◌++◌, length, replicate, ltb, if◌then◌else◌,
}
use android2pc_stream.Prelude.Bits.{shr, low}
use android2pc_stream.Sender.Muxer.Crc.{append_crc}
use android2pc_stream.Sender.Muxer.State.{
  Muxer, VideoCodec, hevc, avc, pat_pid, pmt_pid, video_pid, audio_pid, program_number,
  transport_packet_bytes, next_continuity,
}

unfoldable pub append_u16 : List ℕ → ℕ → List ℕ
append_u16 output value = (output ++ low (low (shr value 8) 8) 8 ∷ []) ++ low (low value 8) 8 ∷ []

-- The array starts as 0xFF everywhere; the header, a zero pointer and the section are written in front.
unfoldable pub emit_psi : Muxer → ℕ → List ℕ → List (List ℕ) → Muxer × List (List ℕ)
emit_psi m pid section packets =
    if ltb 184 (length section + 1)
    then (m, packets)
    else let (counter, after) = next_continuity m pid in
      (
        after,
        packets
            ++ (0x47
                ∷ low (bit_or 0x40 (low (shr pid 8) 5)) 8
                ∷ low (low pid 8) 8
                ∷ low (bit_or 0x10 counter) 8
                ∷ 0x00
                ∷ (section ++ replicate (transport_packet_bytes - (5 + length section)) 0xFF))
              ∷ [],
      )

unfoldable pub pat_section : List ℕ
unfolding append_u16
pat_section =
    let pat =
      append_u16 (0x00 ∷ 0xB0 ∷ 0x0D ∷ 0x00 ∷ 0x01 ∷ 0xC1 ∷ 0x00 ∷ 0x00 ∷ []) program_number in
    append_crc (append_u16 pat (low (bit_or 0xE000 pmt_pid) 16))

abbrev stream_type : VideoCodec → ℕ
stream_type hevc = 0x24
stream_type avc = 0x1B

unfoldable pub pmt_section : Muxer → List ℕ
unfolding append_u16
pmt_section m =
    let stream_bytes : ℕ = if m.audio_enabled then 10 else 5 in
    let section_length = low (13 + stream_bytes) 16 in
    let start : List ℕ =
      0x02
      ∷ low (bit_or 0xB0 (low (shr section_length 8) 4)) 8
      ∷ low (low section_length 8) 8
      ∷ [] in
    let program = append_u16 start program_number ++ 0xC1 ∷ 0x00 ∷ 0x00 ∷ [] in
    let clock = append_u16 program (low (bit_or 0xE000 video_pid) 16) ++ 0xF0 ∷ 0x00 ∷ [] in
    let video =
      append_u16 (clock ++ stream_type m.video_codec ∷ []) (low (bit_or 0xE000 video_pid) 16)
      ++ 0xF0 ∷ 0x00 ∷ [] in
    let audio =
      append_u16 (video ++ 0x0F ∷ []) (low (bit_or 0xE000 audio_pid) 16) ++ 0xF0 ∷ 0x00 ∷ [] in
    append_crc (if m.audio_enabled then audio else video)

unfoldable pub emit_tables : Muxer → List (List ℕ) → Muxer × List (List ℕ)
emit_tables m packets =
    let (with_pat, first) = emit_psi m pat_pid pat_section packets in
    emit_psi with_pat pmt_pid (pmt_section m) first
