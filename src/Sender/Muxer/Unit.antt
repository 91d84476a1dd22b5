-- ===== src/Sender/Muxer/Unit.antt =====
-- One access unit: what `emit_pes` adds to the packets.
use android2pc_stream.Prelude.{
  ℕ, ◌+◌, ◌-◌, ◌%◌, ◌≤◌, ◌<◌, ◌≡◌, refl, ap, ◌∙◌, Bool, true, false, ◌||◌, Option, some, List, [],
  ◌∷◌, ◌++◌, length, arith, ltb,
}
use android2pc_stream.Prelude.Int.{ℤ}
use android2pc_stream.Packets.{size_max}
use android2pc_stream.Sender.Demux.{Stream}
use android2pc_stream.Sender.Muxer.State.{Muxer, pcr27, maximum_video_access_unit_bytes}
use android2pc_stream.Sender.Muxer.Tables.{append_u16}
use android2pc_stream.Sender.Muxer.Pes.{PesJob, pes_bytes, append_pts, pending, settle, emit_pes}
use android2pc_stream.Sender.Muxer.Loop.{pes_loop-Done}
use android2pc_stream.Sender.Muxer.Psi.{Counters, Advanced-Counters}

pub pes_bytes-length :
    (m : Muxer) (stream_id : ℕ) (payload : List ℕ) (time : ℤ)
    → length (pes_bytes m stream_id payload time) ≡ 14 + length payload
unfolding pes_bytes append_pts append_u16
pes_bytes-length m stream_id payload time = omega arith

-- The packets that one access unit adds behind `packets`.
pub record Emitted (m : Muxer) (pid stream_id : ℕ) (payload : List ℕ) (time : ℤ)
    (packets : List (List ℕ)) (result : Option (Muxer × List (List ℕ))) : Type 0 where
  pub final : Muxer
  pub emitted : List (List ℕ)
  pub returned : result ≡ some (final, packets ++ emitted)
  pub stream : Stream pid 1 (m.continuity pid) (pes_bytes m stream_id payload time) emitted
  pub some_packet : 1 ≤ length emitted
  pub moved : final.continuity pid ≡ (m.continuity pid + length emitted) % 16
  pub settled : final.discontinuity_pending pid ≡ false
  pub same_origin : final.origin_microseconds ≡ m.origin_microseconds
  pub same_tables : final.last_tables_microseconds ≡ m.last_tables_microseconds
  pub counters : Counters final

unfoldable job_of : Muxer → ℕ → ℤ → Bool → Bool → PesJob
job_of m pid time key_frame include_pcr = record {
  pid = pid;
  key_frame = key_frame;
  include_pcr = include_pcr;
  discont = pending m pid;
  pcr = pcr27 m time;
}

settle-settled :
    (job : PesJob) (m : Muxer)
    → job.pid < 8192
    → (job.discont ≡ m.discontinuity_pending job.pid)
    → (settle job m).discontinuity_pending job.pid ≡ false
settle-settled job m h e = ground arith

settle-same :
    (job : PesJob) (m : Muxer)
    → ((settle job m).continuity ≡ m.continuity)
      × ((settle job m).origin_microseconds ≡ m.origin_microseconds)
      × ((settle job m).last_tables_microseconds ≡ m.last_tables_microseconds)
settle-same job m = ground arith

some_emitted :
    (pid start counter : ℕ) (bytes : List ℕ) (packets : List (List ℕ))
    → Stream pid start counter bytes packets
    → 0 < length bytes
    → 1 ≤ length packets
some_emitted pid start counter bytes [] s h = absurd (omega (arith, ap length s.carried))
some_emitted pid start counter bytes (p ∷ ps) s h = omega arith

-- For a PID below 8192, counters below 16 and a payload of at most 6 MiB, `emit_pes` succeeds, and what
-- it adds is one unit of that PID that carries exactly the PES packet of the payload.
pub emit_pes-Emitted :
    (m : Muxer) (pid stream_id : ℕ) (payload : List ℕ) (time : ℤ) (key_frame include_pcr : Bool)
    (packets : List (List ℕ))
    → pid < 8192
    → Counters m
    → length payload ≤ maximum_video_access_unit_bytes
    → Emitted m pid stream_id payload time packets
        (emit_pes m pid stream_id payload time key_frame include_pcr packets)
unfolding emit_pes job_of
emit_pes-Emitted m pid stream_id payload time key_frame include_pcr packets h c k =
    let job : PesJob = job_of m pid time key_frame include_pcr in
    let pes : List ℕ = pes_bytes m stream_id payload time in
    let d = pes_loop-Done (length pes) job true m pes h (c pid) (omega arith) in
    let same = settle-same job d.final in
    let fits : (ltb maximum_video_access_unit_bytes (length payload)
          || ltb (size_max - 14) (length payload))
        ≡ false =
      ground arith in
    record {
      final = settle job d.final;
      emitted = d.packets;
      returned = rw (fits, d.returned) refl;
      stream = d.stream;
      some_packet =
          some_emitted pid 1 (m.continuity pid) pes d.packets d.stream
            (omega (arith, pes_bytes-length m stream_id payload time));
      moved = rw same.0 d.advanced.moved;
      settled = settle-settled job d.final h (ground (arith, d.advanced.same_pending));
      same_origin = same.1 ∙ d.advanced.same_origin;
      same_tables = same.2 ∙ d.advanced.same_tables;
      counters = rw same.0 (Advanced-Counters pid (length d.packets) m d.final d.advanced c);
    }
