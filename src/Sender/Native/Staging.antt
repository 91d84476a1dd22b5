-- ===== src/Sender/Native/Staging.antt =====
-- What write_video and write_audio of native_sender.cpp leave in the queue and the muxer.
use android2pc_stream.Prelude.{
  ℕ, ◌≡◌, refl, ◌⊎◌, inl, inr, Bool, true, false, not, ◌||◌, List, [], ◌++◌, is_empty,
  if◌then◌else◌, Bool-cases,
}
use android2pc_stream.Prelude.Int.{ℤ, is_negative}
use android2pc_stream.Packets.{PacketBatch}
use android2pc_stream.Sender.Queue.Fifo.{push_batch-packets}
use android2pc_stream.Sender.Muxer.State.{Muxer, reset}
use android2pc_stream.Sender.Muxer.Write
use android2pc_stream.Sender.Native.State.{Sender}
use android2pc_stream.Sender.Native.Media.{
  is_terminal, is_connecting, is_connected, commit, mux_video, write_video, write_audio,
}

-- What `commit` did with a result of the muxer: all of it, or nothing.
pub record Committed (s : Sender) (result : Muxer × PacketBatch × Bool) (final : Sender)
    : Type 0 where
  pub muxed : result.2 ≡ true
  pub queued : final.queue.packets ≡ s.queue.packets ++ result.1
  pub muxer_kept : final.muxer ≡ result.0
  pub video_kept : final.video_started ≡ true

pub record Unchanged (s final : Sender) : Type 0 where
  pub same_queue : final.queue ≡ s.queue
  pub same_muxer : final.muxer ≡ s.muxer
  pub same_video : final.video_started ≡ s.video_started

commit_cases :
    (s : Sender) (result : Muxer × PacketBatch × Bool)
    → ((commit s result true).1 ≡ true) × Committed s result (commit s result true).0
      ⊎ ((commit s result true).1 ≡ false) × Unchanged s (commit s result true).0
unfolding commit
commit_cases s (staged, packets, muxed) = elim (Bool-cases muxed) [
  | inr refused ↦ inr (
    rw refused refl,
    rw refused (record { same_queue = refl; same_muxer = refl; same_video = refl }),
  )
  | inl fine ↦ elim (push_batch-packets s.queue packets) [
    | inl (taken, joined) ↦ inl (
      rw (fine, taken) refl,
      rw (fine, taken)
          (record { muxed = refl; queued = joined; muxer_kept = refl; video_kept = refl }),
    )
    | inr (full, same) ↦ inr (
      rw (fine, full) refl,
      rw (fine, full) (record { same_queue = refl; same_muxer = refl; same_video = refl }),
    )
  ]
]

-- The muxer that a video unit is written with.
abbrev pub video_muxer : Sender → ℤ → Muxer
video_muxer s time = if s.video_started then s.muxer else reset s.muxer time

-- What a call of `write_video` may come to.
abbrev pub Staged : Sender → Muxer → Muxer × PacketBatch × Bool → Sender × Bool → Type 0
Staged s muxer result (final, answer) =
    ((answer ≡ true) × Committed s result final)
    ⊎ (final.queue ≡ s.queue)
      × ((final.muxer ≡ s.muxer) ⊎ (final.muxer ≡ muxer))
      × (final.video_started ≡ s.video_started)

commit-Staged :
    (s : Sender) (result : Muxer × PacketBatch × Bool)
    → Staged s s.muxer result (commit s result true)
commit-Staged s result = elim (commit_cases s result) [
  | inl (yes_answer, c) ↦ inl (yes_answer, c)
  | inr (no_answer, u) ↦ inr (u.same_queue, inl u.same_muxer, u.same_video)
]

mux_video-Staged :
    (s : Sender) (begun : Bool) (access_unit : List ℕ) (time : ℤ) (key_frame : Bool)
    → Staged s
        (if begun then s.muxer else reset s.muxer time)
        (Write.write_video
          (if begun then s.muxer else reset s.muxer time)
          access_unit
          time
          key_frame
          [])
        (mux_video s begun access_unit time key_frame)
unfolding mux_video
mux_video-Staged s true access_unit time key_frame = commit-Staged s _
mux_video-Staged s false access_unit time false = inr (refl, inl refl, refl)
mux_video-Staged s false access_unit time true =
    let origin : Sender = record s { muxer = reset s.muxer time } in
    elim (commit_cases origin (Write.write_video origin.muxer access_unit time true [])) [
      | inl (answer, c) ↦ inl (
        answer,
        record {
          muxed = c.muxed;
          queued = c.queued;
          muxer_kept = c.muxer_kept;
          video_kept = c.video_kept;
        },
      )
      | inr (answer, u) ↦ inr (u.same_queue, inr u.same_muxer, u.same_video)
    ]

-- Whatever `write_video` does, it either queues the whole batch that the muxer made of the unit and keeps
-- the muxer behind it, or it leaves the queue alone and keeps the muxer (reset to the unit's time, if
-- the unit was to be the first one).
pub write_video-Staged :
    (s : Sender) (access_unit : List ℕ) (time : ℤ) (key_frame : Bool)
    → Staged s
        (video_muxer s time)
        (Write.write_video (video_muxer s time) access_unit time key_frame [])
        (write_video s access_unit time key_frame)
unfolding write_video
write_video-Staged s access_unit time key_frame =
    elim (Bool-cases
      (s.stopping || is_terminal s.status || is_negative time || is_empty access_unit)) [
        | inl refused ↦ rw refused (inr (refl, inl refl, refl))
        | inr open_now ↦ elim (Bool-cases (is_connecting s.status)) [
          | inl connecting ↦ rw (open_now, connecting) (inr (refl, inl refl, refl))
          | inr ready ↦
              rw (open_now, ready) (mux_video-Staged s s.video_started access_unit time key_frame)
        ]
      ]

-- Whatever `write_audio` does, it either queues the whole batch that the muxer made of the unit
-- and keeps the muxer behind it, or it leaves the queue and the muxer as they were.
pub write_audio-Staged :
    (s : Sender) (access_unit : List ℕ) (time : ℤ)
    → Staged s s.muxer
        (Write.write_audio s.muxer access_unit time [])
        (write_audio s access_unit time)
unfolding write_audio
write_audio-Staged s access_unit time =
    elim (Bool-cases
      (s.stopping || is_terminal s.status || is_negative time || is_empty access_unit)) [
        | inl refused ↦ rw refused (inr (refl, inl refl, refl))
        | inr open_now ↦ elim (Bool-cases (not (is_connected s.status))) [
          | inl waiting ↦ rw (open_now, waiting) (inr (refl, inl refl, refl))
          | inr ready ↦ elim (Bool-cases (not s.video_started)) [
            | inl silent ↦ rw (open_now, ready, silent) (inr (refl, inl refl, refl))
            | inr begun ↦ rw (open_now, ready, begun) (commit-Staged s _)
          ]
        ]
      ]
