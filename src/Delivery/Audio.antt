-- ===== src/Delivery/Audio.antt =====
-- MpegTsMuxer::write_audio: what an accepted unit leaves.
use android2pc_stream.Prelude.{
  ℕ, ◌<◌, ◌≡◌, refl, ap, true, false, not, some, List, [], ◌∷◌, length, ltb, arith,
}
use android2pc_stream.Prelude.Int.{ℤ, ltb_ℤ, is_negative}
use android2pc_stream.Packets.{PacketBatch}
use android2pc_stream.Sender.Muxer.State.{Muxer, audio_pid, maximum_audio_access_unit_bytes}
use android2pc_stream.Sender.Muxer.Adts.{build_adts}
use android2pc_stream.Sender.Muxer.Adts.Header.{build_adts-length}
use android2pc_stream.Sender.Muxer.Pes.{emit_pes, pes_bytes}
use android2pc_stream.Sender.Muxer.Psi.{Counters}
use android2pc_stream.Sender.Muxer.Write.{finish, write_audio}
use android2pc_stream.Delivery.{Delivered, Prepared, finish-Delivered}

-- An audio unit that is written: audio is enabled, the origin is set, and the encoder's settings have
-- an ADTS header.
pub record AcceptsAudio (m : Muxer) (raw_aac : List ℕ) (time : ℤ) : Type 0 where
  pub enabled : m.audio_enabled ≡ true
  pub some_byte : 0 < length raw_aac
  pub origin_set : is_negative m.origin_microseconds ≡ false
  pub not_before : ltb_ℤ time m.origin_microseconds ≡ false
  pub adts : List ℕ
  pub built : build_adts raw_aac m.audio_sample_rate m.audio_channels ≡ some adts

unprepared : (m : Muxer) → Counters m → Prepared m false audio_pid (m, [])
unprepared m c = record {
  after = m;
  tables = [];
  returned = refl;
  whole = tt;
  has_tables = refl;
  same_counter = refl;
  same_origin = refl;
  counters = c;
}

write_audio-guards :
    (m : Muxer) (b : ℕ) (bs : List ℕ) (time : ℤ) (output : PacketBatch)
    → (a : AcceptsAudio m (b ∷ bs) time)
    → write_audio m (b ∷ bs) time output
      ≡ finish m output (emit_pes m audio_pid 0xC0 a.adts time false false [])
unfolding write_audio
write_audio-guards m b bs time output a =
    let fits : ltb maximum_audio_access_unit_bytes (length (b ∷ bs)) ≡ false =
      ground (arith, build_adts-length _ _ _ a.adts a.built) in
    let wanted : not m.audio_enabled ≡ false = ap not a.enabled in
    rw (wanted, fits, a.origin_set, a.not_before, a.built) refl

-- For a muxer whose counters are below 16, with audio enabled and its origin set, an audio unit
-- that is not empty, not before the origin, and for which `build_adts` makes a frame, makes
-- `write_audio` answer true, with a batch of groups of one to seven whole packets. Joined, they
-- are packets of the audio PID, with no table in front, that carry exactly the PES packet of that
-- frame, with counters that go up by one modulo 16.
pub write_audio-Delivered :
    (m : Muxer) (raw_aac : List ℕ) (time : ℤ) (output : PacketBatch)
    → Counters m
    → (a : AcceptsAudio m raw_aac time)
    → Delivered m false audio_pid (pes_bytes m 0xC0 a.adts time) (write_audio m raw_aac time output)
unfolding unprepared
write_audio-Delivered m [] time output c a = absurd (omega (arith, a.some_byte))
write_audio-Delivered m (b ∷ bs) time output c a = rw (write_audio-guards m b bs time output a) (
    finish-Delivered m false audio_pid 0xC0 a.adts time false false output (m, []) (omega arith)
      (omega (arith, build_adts-length _ _ _ a.adts a.built)) (unprepared m c))
