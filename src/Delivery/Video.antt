-- ===== src/Delivery/Video.antt =====
-- MpegTsMuxer::write_video: when it answers true, and what it leaves.
use android2pc_stream.Prelude.{
  ℕ, ◌≤◌, ◌<◌, ◌≡◌, refl, ◌↔◌, ◌⊎◌, Bool, true, false, List, [], ◌∷◌, length, ltb, if◌then◌else◌,
  All, arith, Bool-cases, inl, inr,
}
use android2pc_stream.Prelude.Int.{ℤ, ltb_ℤ, is_negative}
use android2pc_stream.Packets.{PacketBatch}
use android2pc_stream.Sender.Muxer.State.{Muxer, reset, video_pid, maximum_video_access_unit_bytes}
use android2pc_stream.Sender.Muxer.Pes.{emit_pes, pes_bytes}
use android2pc_stream.Sender.Muxer.Psi.{Counters}
use android2pc_stream.Sender.Muxer.Write.{tables_due, write_tables, finish, write_video}
use android2pc_stream.Delivery.{
  Delivered, Delivered-Passes, Passes, write_tables-Prepared, finish-Delivered,
}

-- The muxer that a video unit is written with: the first one sets the origin.
abbrev pub started : Muxer → ℤ → Muxer
started m time = if is_negative m.origin_microseconds then reset m time else m

-- A video unit that is written: not empty, at most 6 MiB, at a time that is not negative and not
-- before the origin.
pub record AcceptsVideo (m : Muxer) (access_unit : List ℕ) (time : ℤ) : Type 0 where
  pub some_byte : 0 < length access_unit
  pub bounded : length access_unit ≤ maximum_video_access_unit_bytes
  pub timed : is_negative time ≡ false
  pub not_before : ltb_ℤ time (started m time).origin_microseconds ≡ false

started-Counters : (m : Muxer) (time : ℤ) → Counters m → Counters (started m time)
unfolding reset
started-Counters m time c pid = elim (Bool-cases (is_negative m.origin_microseconds)) [
  | inl e ↦ rw e (omega arith)
  | inr e ↦ rw e (c pid)
]

write_video-guards :
    (m : Muxer) (b : ℕ) (bs : List ℕ) (time : ℤ) (key_frame : Bool) (output : PacketBatch)
    → AcceptsVideo m (b ∷ bs) time
    → write_video m (b ∷ bs) time key_frame output
      ≡ finish (write_tables (started m time) time key_frame).0 output (
          emit_pes
            (write_tables (started m time) time key_frame).0
            video_pid
            0xE0
            (b ∷ bs)
            time
            key_frame
            true
            (write_tables (started m time) time key_frame).1)
unfolding write_video
write_video-guards m b bs time key_frame output a =
    let fits : ltb maximum_video_access_unit_bytes (length (b ∷ bs)) ≡ false =
      ground (arith, a.bounded) in
    rw (fits, a.timed, a.not_before) refl

-- For a muxer whose counters are below 16, a video unit that is not empty, has at most 6 MiB and a
-- time neither negative nor before the origin makes `write_video` answer true, with a batch of
-- groups of one to seven whole packets. Joined, the groups are the two program tables, where they
-- are due, with their next counters and right checksums, and then packets of the video PID that
-- carry exactly the unit's PES packet, with the start flag on the first only and counters that go
-- up by one modulo 16. The counters stay below 16, and the PID's pending discontinuity is settled.
pub write_video-Delivered :
    (m : Muxer) (access_unit : List ℕ) (time : ℤ) (key_frame : Bool) (output : PacketBatch)
    → Counters m
    → AcceptsVideo m access_unit time
    → Delivered
        (started m time)
        (tables_due (started m time) time key_frame)
        video_pid
        (pes_bytes (started m time) 0xE0 access_unit time)
        (write_video m access_unit time key_frame output)
write_video-Delivered m [] time key_frame output c a = absurd (omega (arith, a.some_byte))
write_video-Delivered m (b ∷ bs) time key_frame output c a =
    let p = write_tables-Prepared (started m time) time key_frame (started-Counters m time c) in
    rw (write_video-guards m b bs time key_frame output a, p.returned)
      (finish-Delivered (started m time) (tables_due (started m time) time key_frame) video_pid 0xE0
        (b ∷ bs) time key_frame true output (write_tables (started m time) time key_frame)
        (omega arith) a.bounded p)

write_video-refusal :
    (m : Muxer) (access_unit : List ℕ) (time : ℤ) (key_frame : Bool) (output : PacketBatch)
    → AcceptsVideo m access_unit time
      ⊎ (AcceptsVideo m access_unit time → ⊥)
        × ((write_video m access_unit time key_frame output).1 ≡ output)
        × ((write_video m access_unit time key_frame output).2 ≡ false)
unfolding write_video
write_video-refusal m [] time key_frame output = inr (λ a. omega (arith, a.some_byte), refl, refl)
write_video-refusal m (b ∷ bs) time key_frame output =
    elim (Bool-cases (ltb maximum_video_access_unit_bytes (length (b ∷ bs)))) [
      | inl big ↦ inr (λ a. ground (arith, a.bounded), rw big refl, rw big refl)
      | inr fits ↦ elim (Bool-cases (is_negative time)) [
        | inl neg ↦ inr (λ a. ground (arith, a.timed), rw (fits, neg) refl, rw (fits, neg) refl)
        | inr timed ↦ elim (Bool-cases (ltb_ℤ time (started m time).origin_microseconds)) [
          | inl before ↦ inr (
            λ a. ground (arith, a.not_before),
            rw (fits, timed, before) refl,
            rw (fits, timed, before) refl,
          )
          | inr after ↦ inl (record {
            some_byte = omega arith;
            bounded = ground (arith, fits);
            timed = timed;
            not_before = after;
          })
        ]
      ]
    ]

-- Where the counters are below 16, `write_video` answers true exactly for a unit that is not empty, has
-- at most 6 MiB and a time that is neither negative nor before the origin (which the first such unit
-- sets); otherwise `output` is left as it was.
pub write_video_accepts :
    (m : Muxer) (access_unit : List ℕ) (time : ℤ) (key_frame : Bool) (output : PacketBatch)
    → Counters m
    → (((write_video m access_unit time key_frame output).2 ≡ true)
        ↔ AcceptsVideo m access_unit time)
      × (((write_video m access_unit time key_frame output).2 ≡ false)
          → (write_video m access_unit time key_frame output).1 ≡ output)
write_video_accepts m access_unit time key_frame output c =
    elim (write_video-refusal m access_unit time key_frame output) [
      | inl a ↦
          let d = write_video-Delivered m access_unit time key_frame output c a in
          let yes : (write_video m access_unit time key_frame output).2 ≡ true =
            rw d.returned refl in
          ((λ h. a, λ h. yes), λ h. absurd (ground (arith, yes)))
      | inr (refused, same, answer) ↦
          ((λ h. absurd (ground (arith, answer)), λ a. absurd (refused a)), λ h. same)
    ]

-- For a muxer whose counters are below 16, every payload of an accepted video unit has 1 to 1316
-- bytes, as the sender's queue wants, and passes the receiver's `valid_ts_group`.
pub write_video-Passes :
    (m : Muxer) (access_unit : List ℕ) (time : ℤ) (key_frame : Bool) (output : PacketBatch)
    → Counters m
    → AcceptsVideo m access_unit time
    → All Passes (write_video m access_unit time key_frame output).1
write_video-Passes m access_unit time key_frame output c a =
    (Delivered-Passes _ _ _ _ _ (write_video-Delivered m access_unit time key_frame output c a)).1
