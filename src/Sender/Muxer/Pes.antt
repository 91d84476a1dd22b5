-- ===== src/Sender/Muxer/Pes.antt =====
-- mpeg_ts_muxer.cpp, lines 48 to 55 and 232 to 312: an access unit as a packetised elementary stream,
-- cut into transport packets.
use Prim.Native.Nat.{bit_or}
use android2pc_stream.Prelude.{
  ℕ, zero, suc, ◌+◌, ◌-◌, ◌/◌, ◌%◌, min, Bool, true, false, ◌&&◌, ◌||◌, Option, none, some, List,
  [], ◌∷◌, ◌++◌, length, take, drop, replicate, ltb, leb, if◌then◌else◌,
}
use android2pc_stream.Prelude.Bits.{shr, shl, low}
use android2pc_stream.Prelude.Int.{ℤ}
use android2pc_stream.Packets.{size_max}
use android2pc_stream.Sender.Muxer.State.{
  Muxer, transport_packet_bytes, maximum_video_access_unit_bytes, next_continuity, update, pts90,
  pcr27,
}
use android2pc_stream.Sender.Muxer.Tables.{append_u16}

-- The five timestamp bytes, from the upper bits on.
unfoldable pub append_pts : List ℕ → ℕ → List ℕ
append_pts output pts =
    let value = low pts 33 in
    output
    ++ low (bit_or (bit_or 0x20 (shl (low (shr value 30) 3) 1)) 0x01) 8
      ∷ low (low (shr value 22) 8) 8
      ∷ low (bit_or (shl (low (shr value 15) 7) 1) 0x01) 8
      ∷ low (low (shr value 7) 8) 8
      ∷ low (bit_or (shl (low value 7) 1) 0x01) 8
      ∷ []

-- The packet that `emit_pes` builds before it cuts it.
unfoldable pub pes_bytes : Muxer → ℕ → List ℕ → ℤ → List ℕ
unfolding append_u16 append_pts
pes_bytes m stream_id payload time =
    let packet_length = length payload + 8 in
    let encoded_length = if leb packet_length 0xFFFF then low packet_length 16 else 0 in
    let start =
      append_u16 (0x00 ∷ 0x00 ∷ 0x01 ∷ stream_id ∷ []) encoded_length ++ 0x80 ∷ 0x80 ∷ 0x05 ∷ [] in
    append_pts start (pts90 m time) ++ payload

-- The six bytes of the program clock reference.
unfoldable pub pcr_bytes : ℕ → List ℕ
pcr_bytes pcr =
    let base = low (pcr / 300) 33 in
    let extension = low (pcr % 300) 16 in
    low (low (shr base 25) 8) 8
    ∷ low (low (shr base 17) 8) 8
    ∷ low (low (shr base 9) 8) 8
    ∷ low (low (shr base 1) 8) 8
    ∷ low (bit_or (bit_or (shl (low base 1) 7) 0x7E) (low (shr extension 8) 1)) 8
    ∷ low (low extension 8) 8
    ∷ []

-- What stays the same over the loop of one access unit.
pub record PesJob : Type 0 where
  pub pid : ℕ
  pub key_frame : Bool
  pub include_pcr : Bool
  pub discont : Bool
  pub pcr : ℕ

-- `minimum_adaptation_total`.
abbrev pub minimum_adaptation : PesJob → Bool → ℕ
minimum_adaptation job first =
    if first && job.include_pcr then 8 else if job.discont && first then 2 else 0

-- `adaptation_total`, by the bytes that remain.
abbrev pub adaptation_total : PesJob → Bool → ℕ → ℕ
adaptation_total job first remaining =
    if ltb remaining (184 - minimum_adaptation job first)
    then 184 - remaining
    else minimum_adaptation job first

abbrev pub adaptation_flags : PesJob → Bool → ℕ
adaptation_flags job first =
    bit_or
      (bit_or (if job.key_frame && first then 0x40 else 0x00)
        (if first && job.include_pcr then 0x10 else 0x00))
      (if job.discont && first then 0x80 else 0x00)

-- The clock bytes of the first packet of a job that carries them.
abbrev pub clock_bytes : PesJob → Bool → List ℕ
clock_bytes job first = if first && job.include_pcr then pcr_bytes job.pcr else []

-- The adaptation field of `total` bytes: its length, flags and clock, and 0xFF behind them.
unfoldable pub adaptation_field : PesJob → Bool → ℕ → List ℕ
adaptation_field job first total =
    if ltb 1 total
    then low (total - 1) 8
      ∷ low (adaptation_flags job first) 8
      ∷ (clock_bytes job first ++ replicate (total - (2 + length (clock_bytes job first))) 0xFF)
    else if ltb 0 total
    then low (total - 1) 8 ∷ []
    else []

-- One transport packet: the header, the adaptation field, the bytes that fit, and 0xFF behind them.
unfoldable pub ts_packet : PesJob → Bool → ℕ → List ℕ → List ℕ
unfolding adaptation_field
ts_packet job first counter rest =
    let total = adaptation_total job first (length rest) in
    let writable = transport_packet_bytes - (4 + total) in
    let copied = min writable (length rest) in
    0x47
    ∷ low (bit_or (if first then 0x40 else 0x00) (low (shr job.pid 8) 5)) 8
    ∷ low (low job.pid 8) 8
    ∷ low (bit_or (if ltb 0 total then 0x30 else 0x10) counter) 8
    ∷ (adaptation_field job first total ++ (take copied rest ++ replicate (writable - copied) 0xFF))

-- `copied` of one round.
abbrev pub copied_bytes : PesJob → Bool → List ℕ → ℕ
copied_bytes job first rest =
    min (transport_packet_bytes - (4 + adaptation_total job first (length rest))) (length rest)

-- The loop, on fuel; the list is what the loop has not copied yet. `none`: the fuel ran out.
unfoldable pub pes_loop : ℕ → PesJob → Bool → Muxer → List ℕ → Option (Muxer × List (List ℕ))
unfolding ts_packet
pes_loop fuel job first m [] = some (m, [])
pes_loop zero job first m (b ∷ bs) = none
pes_loop (suc fuel) job first m (b ∷ bs) =
    let (counter, after) = next_continuity m job.pid in
    elim (pes_loop fuel job false after (drop (copied_bytes job first (b ∷ bs)) (b ∷ bs))) [
      | none ↦ none
      | some (final, packets) ↦ some (final, ts_packet job first counter (b ∷ bs) ∷ packets)
    ]

abbrev pub pending : Muxer → ℕ → Bool
pending m pid = ltb pid 8192 && m.discontinuity_pending pid

abbrev pub settle : PesJob → Muxer → Muxer
settle job m =
    if job.discont && ltb job.pid 8192
    then record m { discontinuity_pending = update m.discontinuity_pending job.pid false }
    else m

-- `none` is `return false`. The fuel is the size of the PES packet: each round copies a byte at least.
unfoldable pub emit_pes :
    Muxer → ℕ → ℕ → List ℕ → ℤ → Bool → Bool → List (List ℕ) → Option (Muxer × List (List ℕ))
unfolding pes_bytes pes_loop
emit_pes m pid stream_id payload time key_frame include_pcr packets =
    let job : PesJob = record {
      pid = pid;
      key_frame = key_frame;
      include_pcr = include_pcr;
      discont = pending m pid;
      pcr = pcr27 m time;
    } in
    let pes = pes_bytes m stream_id payload time in
    if ltb maximum_video_access_unit_bytes (length payload) || ltb (size_max - 14) (length payload)
    then none
    else elim (pes_loop (length pes) job true m pes) [
      | none ↦ none
      | some (final, emitted) ↦ some (settle job final, packets ++ emitted)
    ]
