-- ===== src/Checks/MuxerChecks.antt =====
-- The muxer's and the sender's theorems at one video and one audio unit.
use android2pc_stream.Prelude.{
  ℕ, ◌≡◌, ◌↔◌, refl, true, false, some, List, [], ◌∷◌, replicate, arith, All,
}
use android2pc_stream.Prelude.Int.{pos}
use android2pc_stream.Sender.Muxer.State.{Muxer, VideoCodec, video_pid, audio_pid}
use android2pc_stream.Sender.Muxer.Adts.{build_adts, aac_frequency_index, adts_header}
use android2pc_stream.Sender.Muxer.Pes.{pes_bytes}
use android2pc_stream.Sender.Muxer.Psi.{Counters, Tables, emit_tables-Tables}
use android2pc_stream.Sender.Muxer.Tables.{emit_tables}
use android2pc_stream.Sender.Muxer.Write.{tables_due, write_video, write_audio}
use android2pc_stream.Sender.Muxer.Write
use android2pc_stream.Sender.Native.State.{Sender, SenderStatus, new_sender}
use android2pc_stream.Sender.Native.Media
use android2pc_stream.Sender.Native.Staging.{Staged, video_muxer, write_video-Staged}
use android2pc_stream.Delivery.{Delivered, Passes}
use android2pc_stream.Delivery.Video.{
  started, AcceptsVideo, write_video-Delivered, write_video_accepts, write_video-Passes,
}
use android2pc_stream.Delivery.Audio.{AcceptsAudio, write_audio-Delivered}
use android2pc_stream.Sender.Native.Worker.{Attempt, Round}
use android2pc_stream.Session.{Event}
use android2pc_stream.Checks.Data.{phone_config, desk}

abbrev fresh : Muxer
fresh = record {
  video_codec = VideoCodec.hevc;
  audio_enabled = true;
  audio_sample_rate = pos 48000;
  audio_channels = pos 1;
  origin_microseconds = pos 1000;
  last_tables_microseconds = pos 1000;
  continuity = λ pid. 3;
  discontinuity_pending = λ pid. true;
}

fresh-Counters : Counters fresh
fresh-Counters pid = omega arith

abbrev unit_bytes : List ℕ
unit_bytes = replicate 300 9

unit-AcceptsVideo : AcceptsVideo fresh unit_bytes (pos 2000)
unit-AcceptsVideo = record {
  some_byte = omega arith;
  bounded = omega arith;
  timed = refl;
  not_before = refl;
}

video_unit_example :
    Delivered
      (started fresh (pos 2000))
      (tables_due (started fresh (pos 2000)) (pos 2000) true)
      video_pid
      (pes_bytes (started fresh (pos 2000)) 0xE0 unit_bytes (pos 2000))
      (write_video fresh unit_bytes (pos 2000) true [])
video_unit_example =
    write_video-Delivered fresh unit_bytes (pos 2000) true [] fresh-Counters unit-AcceptsVideo

video_payload_example : All Passes (write_video fresh unit_bytes (pos 2000) true []).1
video_payload_example =
    write_video-Passes fresh unit_bytes (pos 2000) true [] fresh-Counters unit-AcceptsVideo

video_answer_example :
    (((write_video fresh unit_bytes (pos 2000) true []).2 ≡ true)
      ↔ AcceptsVideo fresh unit_bytes (pos 2000))
    × (((write_video fresh unit_bytes (pos 2000) true []).2 ≡ false)
        → (write_video fresh unit_bytes (pos 2000) true []).1 ≡ [])
video_answer_example = write_video_accepts fresh unit_bytes (pos 2000) true [] fresh-Counters

abbrev frame : List ℕ
frame = 1 ∷ 2 ∷ 3 ∷ []

abbrev framed : List ℕ
framed = 0xFF ∷ 0xF1 ∷ 76 ∷ 64 ∷ 1 ∷ 95 ∷ 0xFC ∷ frame

frame_built : build_adts frame (pos 48000) (pos 1) ≡ some framed
unfolding build_adts aac_frequency_index adts_header
frame_built = refl

abbrev frame-AcceptsAudio : AcceptsAudio fresh frame (pos 2000)
frame-AcceptsAudio = record {
  enabled = refl;
  some_byte = omega arith;
  origin_set = refl;
  not_before = refl;
  adts = framed;
  built = frame_built;
}

audio_unit_example :
    Delivered fresh false audio_pid
      (pes_bytes fresh 0xC0 framed (pos 2000))
      (write_audio fresh frame (pos 2000) [])
audio_unit_example =
    write_audio-Delivered fresh frame (pos 2000) [] fresh-Counters frame-AcceptsAudio

tables_example : Tables fresh [] (emit_tables fresh [])
tables_example = emit_tables-Tables fresh [] fresh-Counters

abbrev sending : Sender
sending = record (new_sender phone_config) {
  muxer = fresh;
  status = SenderStatus.connected;
  video_started = true;
}

video_queue_example :
    Staged sending
      (video_muxer sending (pos 2000))
      (Write.write_video (video_muxer sending (pos 2000)) unit_bytes (pos 2000) true [])
      (Media.write_video sending unit_bytes (pos 2000) true)
video_queue_example = write_video-Staged sending unit_bytes (pos 2000) true

-- An attempt that connects, a key frame, a unit of audio, a packet that is sent, and a stop.
abbrev short_session : List Event
short_session =
    Event.start desk
    ∷ Event.round (Round.connect Attempt.made true)
    ∷ Event.video (0 ∷ 0 ∷ 1 ∷ 0x26 ∷ []) (pos 10) true
    ∷ Event.audio (1 ∷ 2 ∷ []) (pos 20)
    ∷ Event.round (Round.transmit false true true)
    ∷ Event.stop
    ∷ Event.joined
    ∷ []
