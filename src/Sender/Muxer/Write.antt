-- ===== src/Sender/Muxer/Write.antt =====
-- mpeg_ts_muxer.cpp, lines 119 to 175 and 331 to 349: the muxer's two entry points, and the grouping
-- of transport packets into payloads for SRT. A call returns the muxer it leaves, the batch that it
-- leaves in `output`, and its answer.
use android2pc_stream.Prelude.{
  ℕ, zero, suc, Bool, true, false, not, ◌||◌, Option, none, some, List, [], ◌∷◌, ◌++◌, length,
  is_empty, ltb, if◌then◌else◌,
}
use android2pc_stream.Prelude.Int.{ℤ, pos, ltb_ℤ, is_negative, ◌-ℤ◌}
use android2pc_stream.Packets.{PacketBatch}
use android2pc_stream.Sender.Muxer.Adts.{build_adts}
use android2pc_stream.Sender.Muxer.State.{
  Muxer, reset, video_pid, audio_pid, table_interval_microseconds, maximum_video_access_unit_bytes,
  maximum_audio_access_unit_bytes,
}
use android2pc_stream.Sender.Muxer.Tables.{emit_tables}
use android2pc_stream.Sender.Muxer.Pes.{emit_pes}

-- The loop of `group_packets`: `payload` holds the packets of the group that is being filled, and
-- `room` says how many more it takes.
unfoldable pub group_loop : ℕ → List ℕ → List (List ℕ) → PacketBatch
group_loop room payload [] = if is_empty payload then [] else payload ∷ []
group_loop zero payload (packet ∷ packets) = payload ∷ group_loop 6 packet packets
group_loop (suc room) payload (packet ∷ packets) = group_loop room (payload ++ packet) packets

unfoldable pub group_packets : List (List ℕ) → PacketBatch
unfolding group_loop
group_packets packets = group_loop 7 [] packets

abbrev pub tables_due : Muxer → ℤ → Bool → Bool
tables_due m time key_frame =
    is_negative m.last_tables_microseconds
    || key_frame
    || not (ltb_ℤ (time -ℤ m.last_tables_microseconds) (pos table_interval_microseconds))

-- The tables that a video unit is preceded by, if they are due.
unfoldable pub write_tables : Muxer → ℤ → Bool → Muxer × List (List ℕ)
write_tables m time key_frame =
    if tables_due m time key_frame
    then (let (after, packets) = emit_tables m [] in
        (record after { last_tables_microseconds = time }, packets))
    else (m, [])

-- The end of both entry points: the batch, and whether it holds anything.
unfoldable pub finish :
    Muxer → PacketBatch → Option (Muxer × List (List ℕ)) → Muxer × PacketBatch × Bool
finish m output none = (m, output, false)
finish m output (some (after, packets)) =
    let batch = group_packets packets in (after, batch, not (is_empty batch))

unfoldable pub write_video : Muxer → List ℕ → ℤ → Bool → PacketBatch → Muxer × PacketBatch × Bool
unfolding write_tables finish
write_video m access_unit time key_frame output =
    if is_empty access_unit
      || ltb maximum_video_access_unit_bytes (length access_unit)
      || is_negative time
    then (m, output, false)
    else (let started = if is_negative m.origin_microseconds then reset m time else m in
        if ltb_ℤ time started.origin_microseconds
        then (started, output, false)
        else (let (after, packets) = write_tables started time key_frame in
            finish after output
              (emit_pes after video_pid 0xE0 access_unit time key_frame true packets)))

unfoldable pub write_audio : Muxer → List ℕ → ℤ → PacketBatch → Muxer × PacketBatch × Bool
unfolding finish
write_audio m raw_aac time output =
    if not m.audio_enabled
      || is_empty raw_aac
      || ltb maximum_audio_access_unit_bytes (length raw_aac)
      || is_negative m.origin_microseconds
      || ltb_ℤ time m.origin_microseconds
    then (m, output, false)
    else elim (build_adts raw_aac m.audio_sample_rate m.audio_channels) [
      | none ↦ (m, output, false)
      | some adts ↦ finish m output (emit_pes m audio_pid 0xC0 adts time false false [])
    ]
