-- ===== src/Sender/Muxer/Loop.antt =====
-- The loop of `emit_pes` in mpeg_ts_muxer.cpp, as a demuxer sees its packets.
use android2pc_stream.Prelude.{
  ℕ, zero, suc, ◌+◌, ◌%◌, ◌≤◌, ◌<◌, ◌≡◌, refl, ◌∙◌, ◌≢◌, Bool, false, Option, some, List, [], ◌∷◌,
  length, length-drop, drop, take-append-drop, arith, if◌then◌else◌,
}
use android2pc_stream.Sender.Demux.{Stream}
use android2pc_stream.Sender.Muxer.State.{Muxer, next_continuity}
use android2pc_stream.Sender.Muxer.Pes.{PesJob, ts_packet, copied_bytes, pes_loop}
use android2pc_stream.Sender.Muxer.Packet.{Reads, ts_packet-Reads, copied_bytes_lem}

abbrev pub start_flag : Bool → ℕ
start_flag first = if first then 1 else 0

-- The muxer after `n` packets of one PID.
pub record Advanced (pid n : ℕ) (m final : Muxer) : Type 0 where
  pub moved : final.continuity pid ≡ (m.continuity pid + n) % 16
  pub others : (q : ℕ) → q ≢ pid → final.continuity q ≡ m.continuity q
  pub same_pending : final.discontinuity_pending ≡ m.discontinuity_pending
  pub same_origin : final.origin_microseconds ≡ m.origin_microseconds
  pub same_tables : final.last_tables_microseconds ≡ m.last_tables_microseconds
  pub same_codec : final.video_codec ≡ m.video_codec
  pub same_audio : final.audio_enabled ≡ m.audio_enabled
  pub same_rate : final.audio_sample_rate ≡ m.audio_sample_rate
  pub same_channels : final.audio_channels ≡ m.audio_channels

pub next_continuity-Advanced :
    (m : Muxer) (pid : ℕ)
    → pid < 8192
    → ((next_continuity m pid).0 ≡ m.continuity pid) × Advanced pid 1 m (next_continuity m pid).1
unfolding next_continuity
next_continuity-Advanced m pid h = (
  ground arith,
  record {
    moved = ground arith;
    others = λ q ne. grind arith;
    same_pending = ground arith;
    same_origin = ground arith;
    same_tables = ground arith;
    same_codec = ground arith;
    same_audio = ground arith;
    same_rate = ground arith;
    same_channels = ground arith;
  },
)

pub Advanced-trans :
    (pid n k : ℕ) (m l final : Muxer)
    → Advanced pid n m l
    → Advanced pid k l final
    → Advanced pid (n + k) m final
Advanced-trans pid n k m l final a b = record {
  moved = omega (arith, a.moved, b.moved);
  others = λ q ne. b.others q ne ∙ a.others q ne;
  same_pending = b.same_pending ∙ a.same_pending;
  same_origin = b.same_origin ∙ a.same_origin;
  same_tables = b.same_tables ∙ a.same_tables;
  same_codec = b.same_codec ∙ a.same_codec;
  same_audio = b.same_audio ∙ a.same_audio;
  same_rate = b.same_rate ∙ a.same_rate;
  same_channels = b.same_channels ∙ a.same_channels;
}

-- A packet in front of those that carry the rest.
Stream-cons :
    (job : PesJob) (first : Bool) (counter : ℕ) (rest packet : List ℕ) (packets : List (List ℕ))
    → Reads job first counter rest packet
    → Stream job.pid 0 ((counter + 1) % 16) (drop (copied_bytes job first rest) rest) packets
    → Stream job.pid (start_flag first) counter rest (packet ∷ packets)
Stream-cons job first counter rest packet packets r s = record {
  whole = (r.whole, s.whole);
  of_pid = (r.of_pid, s.of_pid);
  starts = (r.starts, s.starts);
  counted = (r.counted, s.counted);
  carried = rw (r.carried, s.carried) (take-append-drop (copied_bytes job first rest) rest);
}

pub record Done (job : PesJob) (first : Bool) (m : Muxer) (rest : List ℕ)
    (result : Option (Muxer × List (List ℕ))) : Type 0 where
  pub final : Muxer
  pub packets : List (List ℕ)
  pub returned : result ≡ some (final, packets)
  pub stream : Stream job.pid (start_flag first) (m.continuity job.pid) rest packets
  pub advanced : Advanced job.pid (length packets) m final

pub Advanced-refl : (pid : ℕ) (m : Muxer) → m.continuity pid < 16 → Advanced pid 0 m m
Advanced-refl pid m h = record {
  moved = omega arith;
  others = λ q ne. refl;
  same_pending = refl;
  same_origin = refl;
  same_tables = refl;
  same_codec = refl;
  same_audio = refl;
  same_rate = refl;
  same_channels = refl;
}

empty_loop :
    (fuel : ℕ) (job : PesJob) (first : Bool) (m : Muxer)
    → pes_loop fuel job first m [] ≡ some (m, [])
unfolding pes_loop
empty_loop zero job first m = refl
empty_loop (suc fuel) job first m = refl

-- One more round in front of a loop that is done.
Done-cons :
    (fuel : ℕ) (job : PesJob) (first : Bool) (m : Muxer) (b : ℕ) (bs : List ℕ)
    → job.pid < 8192
    → m.continuity job.pid < 16
    → Done job false
        (next_continuity m job.pid).1
        (drop (copied_bytes job first (b ∷ bs)) (b ∷ bs))
        (pes_loop fuel job false
          (next_continuity m job.pid).1
          (drop (copied_bytes job first (b ∷ bs)) (b ∷ bs)))
    → Done job first m (b ∷ bs) (pes_loop (suc fuel) job first m (b ∷ bs))
unfolding pes_loop
Done-cons fuel job first m b bs hp hc d =
    let (counter, step) = next_continuity-Advanced m job.pid hp in
    let one_more : suc (length d.packets) ≡ 1 + length d.packets = omega arith in
    record {
      final = d.final;
      packets = ts_packet job first (next_continuity m job.pid).0 (b ∷ bs) ∷ d.packets;
      returned = rw (d.returned, pes_loop) refl;
      stream = rw counter (
          Stream-cons job first (m.continuity job.pid) (b ∷ bs) _ d.packets
            (ts_packet-Reads job first (m.continuity job.pid) (b ∷ bs) hp hc (omega arith))
            (rw step.moved at d.stream));
      advanced = rw one_more (
          Advanced-trans job.pid 1 (length d.packets) m (next_continuity m job.pid).1 d.final step
            d.advanced);
    }

-- For a PID below 8192 and a counter below 16, fuel of one unit for each byte is enough: the loop
-- returns whole packets of that PID whose payloads are exactly the bytes, of which only the first has
-- the start flag, with counters that go up by one modulo 16, and it leaves the next counter behind.
pub pes_loop-Done :
    (fuel : ℕ) (job : PesJob) (first : Bool) (m : Muxer) (rest : List ℕ)
    → job.pid < 8192
    → m.continuity job.pid < 16
    → length rest ≤ fuel
    → Done job first m rest (pes_loop fuel job first m rest)
unfolding pes_loop
pes_loop-Done fuel job first m [] hp hc h = record {
  final = m;
  packets = [];
  returned = empty_loop fuel job first m;
  stream = record { whole = tt; of_pid = tt; starts = tt; counted = tt; carried = refl };
  advanced = Advanced-refl job.pid m hc;
}
pes_loop-Done zero job first m (b ∷ bs) hp hc h = absurd (omega arith)
pes_loop-Done (suc fuel) job first m (b ∷ bs) hp hc h =
    let (counter, step) = next_continuity-Advanced m job.pid hp in
    let copied = copied_bytes_lem job first (b ∷ bs) (omega arith) in
    let rest : List ℕ = drop (copied_bytes job first (b ∷ bs)) (b ∷ bs) in
    let sized = length-drop (copied_bytes job first (b ∷ bs)) (b ∷ bs) in
    let after : Muxer = (next_continuity m job.pid).1 in
    let ih =
      pes_loop-Done fuel job false after rest hp (omega (arith, step.moved))
        (omega (arith, sized, copied, h)) in
    Done-cons fuel job first m b bs hp hc ih
