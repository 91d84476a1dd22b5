-- ===== src/Session/Units.antt =====
-- The commit of native_sender.cpp's write_video and write_audio, against what Session asks of the sender.
use android2pc_stream.Prelude.{
  ℕ, ◌≡◌, inl, inr, Bool, true, List, [], ◌∷◌, All, All-append, Option-cases, arith,
}
use android2pc_stream.Prelude.Int.{ℤ}
use android2pc_stream.Packets.{PacketBatch}
use android2pc_stream.Sender.Muxer.State.{Muxer, reset}
use android2pc_stream.Sender.Muxer.Adts.{build_adts}
use android2pc_stream.Sender.Muxer.Psi.{Counters}
use android2pc_stream.Sender.Muxer.Write
use android2pc_stream.Sender.Native.State.{Sender}
use android2pc_stream.Sender.Native.Staging.{Staged, video_muxer}
use android2pc_stream.Delivery.{Delivered-Passes, Passes}
use android2pc_stream.Delivery.Video.{write_video-Delivered, write_video_accepts}
use android2pc_stream.Delivery.Audio.{AcceptsAudio, write_audio-Delivered}
use android2pc_stream.Session.{Sound}

-- A result of the muxer that may be committed.
abbrev pub Good : Muxer × PacketBatch × Bool → Type 0
Good result = result.2 ≡ true → Counters result.0 × All Passes result.1

pub video_Good :
    (m : Muxer) (access_unit : List ℕ) (time : ℤ) (key_frame : Bool)
    → Counters m
    → Good (Write.write_video m access_unit time key_frame [])
video_Good m access_unit time key_frame c answer =
    let a = (write_video_accepts m access_unit time key_frame [] c).0.0 answer in
    let d = write_video-Delivered m access_unit time key_frame [] c a in
    (rw d.returned d.counters, (Delivered-Passes _ _ _ _ _ d).1)

audio_accepts :
    (m : Muxer) (raw_aac : List ℕ) (time : ℤ)
    → (Write.write_audio m raw_aac time []).2 ≡ true
    → AcceptsAudio m raw_aac time
unfolding Write.write_audio
audio_accepts m [] time answer = absurd (ground arith)
audio_accepts m (b ∷ bs) time answer =
    elim (Option-cases (build_adts (b ∷ bs) m.audio_sample_rate m.audio_channels)) [
      | inl none_built ↦ absurd (ground (arith, none_built))
      | inr (adts, built) ↦ record {
        enabled = ground arith;
        some_byte = omega arith;
        origin_set = ground arith;
        not_before = ground arith;
        adts = adts;
        built = built;
      }
    ]

pub audio_Good :
    (m : Muxer) (raw_aac : List ℕ) (time : ℤ)
    → Counters m
    → Good (Write.write_audio m raw_aac time [])
audio_Good m raw_aac time c answer =
    let a = audio_accepts m raw_aac time answer in
    let d = write_audio-Delivered m raw_aac time [] c a in
    (rw d.returned d.counters, (Delivered-Passes _ _ _ _ _ d).1)

pub Staged-Sound :
    (s : Sender) (muxer : Muxer) (result : Muxer × PacketBatch × Bool) (outcome : Sender × Bool)
    → Staged s muxer result outcome
    → Counters muxer
    → Good result
    → Sound s
    → Sound outcome.0
Staged-Sound s muxer result (final, answer) (inl (yes_answer, c)) m good v =
    let (counters, passing) = good c.muxed in
    record {
      counters = rw c.muxer_kept counters;
      passing = rw c.queued (All-append Passes s.queue.packets result.1 v.passing passing);
    }
Staged-Sound s muxer result (final, answer) (inr (same, inl kept, video)) m good v = record {
  counters = rw kept v.counters;
  passing = rw same v.passing;
}
Staged-Sound s muxer result (final, answer) (inr (same, inr kept, video)) m good v = record {
  counters = rw kept m;
  passing = rw same v.passing;
}

pub video_muxer-Counters :
    (s : Sender) (time : ℤ) → Counters s.muxer → Counters (video_muxer s time)
unfolding reset
video_muxer-Counters s time c pid = ground (arith, c pid)
