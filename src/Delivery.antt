-- ===== src/Delivery.antt =====
-- The muxer's entry points end to end: the batch that a written unit leaves, and what it carries to the
-- receiver.
pub mod Video
pub mod Audio
use android2pc_stream.Prelude.{
  ℕ, zero, suc, ◌+◌, ◌-◌, ◌*◌, ◌≤◌, ◌<◌, ◌≡◌, refl, sym, ap, ◌∙◌, ◌↔◌, ◌⊎◌, Bool, true, false, not,
  ◌||◌, Option, none, some, List, [], ◌∷◌, ◌++◌, length, length-append, is_empty, ltb,
  if◌then◌else◌, All, All-append, arith, Bool-cases, inl, inr,
}
use android2pc_stream.Prelude.Int.{ℤ, pos, ltb_ℤ, is_negative}
use android2pc_stream.Packets.{PacketBatch, Sendable}
use android2pc_stream.Sender.Demux.{IsTs, Stream}
use android2pc_stream.Sender.Muxer.State.{
  Muxer, reset, pts90, video_pid, audio_pid, maximum_video_access_unit_bytes,
  maximum_audio_access_unit_bytes,
}
use android2pc_stream.Sender.Muxer.Adts.{build_adts}
use android2pc_stream.Sender.Muxer.Adts.Header.{build_adts-length}
use android2pc_stream.Sender.Muxer.Pes.{emit_pes, pes_bytes}
use android2pc_stream.Sender.Muxer.Psi.{Counters, IsTable, Tables, emit_tables-Tables}
use android2pc_stream.Sender.Muxer.Unit.{Emitted, emit_pes-Emitted}
use android2pc_stream.Sender.Muxer.Tables.{pat_section, pmt_section}
use android2pc_stream.Sender.Muxer.Write.{
  group_packets, tables_due, write_tables, finish, write_video, write_audio,
}
use android2pc_stream.Receiver.TsGroup.{valid_ts_group}
use android2pc_stream.Grouping.{
  concat, concat-append, Group, Group-Sendable, Group-valid_ts_group, group_packets-groups,
  IsTs-length, length-concat,
}

-- The tables that stand in front of a unit: both, or none.
abbrev pub HasTables : Muxer → Bool → List (List ℕ) → Type 0
HasTables m true tables =
    (pat : List ℕ) × (pmt : List ℕ) × (tables ≡ pat ∷ pmt ∷ [])
    × IsTable 0 (m.continuity 0) pat_section pat
    × IsTable 0x1000 (m.continuity 0x1000) (pmt_section m) pmt
HasTables m false tables = tables ≡ []

-- A batch for one unit: groups of one to seven packets, which joined are the tables and the packets
-- of the unit.
pub record Delivered (m : Muxer) (tabled : Bool) (pid : ℕ) (bytes : List ℕ)
    (result : Muxer × PacketBatch × Bool) : Type 0 where
  pub final : Muxer
  pub batch : PacketBatch
  pub returned : result ≡ (final, batch, true)
  pub groups : All Group batch
  pub tables : List (List ℕ)
  pub unit : List (List ℕ)
  pub joined : concat batch ≡ concat (tables ++ unit)
  pub has_tables : HasTables m tabled tables
  pub stream : Stream pid 1 (m.continuity pid) bytes unit
  pub settled : final.discontinuity_pending pid ≡ false
  pub same_origin : final.origin_microseconds ≡ m.origin_microseconds
  pub counters : Counters final

-- A batch that carries a packet is not empty.
batch_full :
    (batch : PacketBatch) (packets : List (List ℕ))
    → concat batch ≡ concat packets
    → All IsTs packets
    → 1 ≤ length packets
    → is_empty batch ≡ false
batch_full [] packets e w h = absurd (omega (arith, ap length e, length-concat packets w))
batch_full (chunk ∷ batch) packets e w h = refl

pes_bytes-origin :
    (m after : Muxer) (stream_id : ℕ) (payload : List ℕ) (time : ℤ)
    → after.origin_microseconds ≡ m.origin_microseconds
    → pes_bytes after stream_id payload time ≡ pes_bytes m stream_id payload time
unfolding pes_bytes pts90
pes_bytes-origin m after stream_id payload time e = rw e refl

-- The packets in front of a unit, and the muxer that it is written with.
pub record Prepared (m : Muxer) (tabled : Bool) (pid : ℕ) (result : Muxer × List (List ℕ))
    : Type 0 where
  pub after : Muxer
  pub tables : List (List ℕ)
  pub returned : result ≡ (after, tables)
  pub whole : All IsTs tables
  pub has_tables : HasTables m tabled tables
  pub same_counter : after.continuity pid ≡ m.continuity pid
  pub same_origin : after.origin_microseconds ≡ m.origin_microseconds
  pub counters : Counters after

pub write_tables-Prepared :
    (m : Muxer) (time : ℤ) (key_frame : Bool)
    → Counters m
    → Prepared m (tables_due m time key_frame) video_pid (write_tables m time key_frame)
unfolding write_tables
write_tables-Prepared m time key_frame c = elim (Bool-cases (tables_due m time key_frame)) [
  | inl due ↦
      let t = emit_tables-Tables m [] c in
      rw due (record {
        after = record t.final { last_tables_microseconds = time };
        tables = t.pat ∷ t.pmt ∷ [];
        returned = rw t.returned refl;
        whole = (t.association.whole, (t.program.whole, tt));
        has_tables = (t.pat, t.pmt, refl, t.association, t.program);
        same_counter =
            t.second.others video_pid (λ e. omega arith)
            ∙ t.first.others video_pid (λ e. omega arith);
        same_origin = t.second.same_origin ∙ t.first.same_origin;
        counters = t.counters;
      })
  | inr not_due ↦ rw not_due (record {
    after = m;
    tables = [];
    returned = refl;
    whole = tt;
    has_tables = refl;
    same_counter = refl;
    same_origin = refl;
    counters = c;
  })
]

-- A unit that `emit_pes` wrote behind its tables is delivered.
pub finish-Delivered :
    (m : Muxer) (tabled : Bool) (pid stream_id : ℕ) (payload : List ℕ) (time : ℤ)
    (key_frame include_pcr : Bool) (output : PacketBatch) (prepared : Muxer × List (List ℕ))
    → pid < 8192
    → length payload ≤ maximum_video_access_unit_bytes
    → (p : Prepared m tabled pid prepared)
    → Delivered m tabled pid (pes_bytes m stream_id payload time) (
        finish p.after output
          (emit_pes p.after pid stream_id payload time key_frame include_pcr p.tables))
unfolding finish
finish-Delivered m tabled pid stream_id payload time key_frame include_pcr output prepared h k p =
    let e =
      emit_pes-Emitted p.after pid stream_id payload time key_frame include_pcr p.tables h
        p.counters k in
    let whole = All-append IsTs p.tables e.emitted p.whole e.stream.whole in
    let (groups, joined) = group_packets-groups (p.tables ++ e.emitted) whole in
    let full =
      batch_full (group_packets (p.tables ++ e.emitted)) (p.tables ++ e.emitted) joined whole
        (omega (arith, length-append p.tables e.emitted, e.some_packet)) in
    rw e.returned (record {
      final = e.final;
      batch = group_packets (p.tables ++ e.emitted);
      returned = rw full refl;
      groups = groups;
      tables = p.tables;
      unit = e.emitted;
      joined = joined;
      has_tables = p.has_tables;
      stream =
          rw (p.same_counter, pes_bytes-origin m p.after stream_id payload time p.same_origin) at
            e.stream;
      settled = e.settled;
      same_origin = e.same_origin ∙ p.same_origin;
      counters = e.counters;
    })

-- What every payload of a delivered unit passes: the sender's queue and the receiver's test.
abbrev pub Passes : List ℕ → Type 0
Passes chunk = Sendable chunk × (valid_ts_group chunk ≡ true)

groups-Passes : (batch : PacketBatch) → All Group batch → All Passes batch
groups-Passes [] h = tt
groups-Passes (chunk ∷ batch) h =
    ((Group-Sendable chunk h.0, Group-valid_ts_group chunk h.0), groups-Passes batch h.1)

pub Delivered-Passes :
    (m : Muxer) (tabled : Bool) (pid : ℕ) (bytes : List ℕ) (result : Muxer × PacketBatch × Bool)
    → Delivered m tabled pid bytes result
    → (result.2 ≡ true) × All Passes result.1
Delivered-Passes m tabled pid bytes result d =
    (rw d.returned refl, rw d.returned (groups-Passes d.batch d.groups))
