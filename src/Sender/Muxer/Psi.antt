-- ===== src/Sender/Muxer/Psi.antt =====
-- The packets of the program tables.
use android2pc_stream.Prelude.{
  ℕ, ◌+◌, ◌-◌, ◌*◌, ◌%◌, ◌/◌, ◌≤◌, ◌<◌, ◌≡◌, ◌≢◌, refl, ap, ◌∙◌, false, List, [], ◌∷◌, ◌++◌, length,
  length-append, length-replicate, replicate, append_assoc, take, take-length_append, arith, ◌==◌,
  ltb, Bool-cases, inl, inr,
}
use Prim.Native.Nat.{bit_or}
use android2pc_stream.Prelude.Bits.{low, shr, shl-bit_or}
use android2pc_stream.Sender.Demux.{
  IsTs, ts_pid, ts_counter, ts_start, ts_section, section_bytes, section_size, pointed_section,
  ts_payload,
}
use android2pc_stream.Sender.Muxer.Crc.{append_crc, crc32_mpeg}
use android2pc_stream.Sender.Muxer.Crc.Residue.{crc32_mpeg-append_crc}
use android2pc_stream.Sender.Muxer.State.{Muxer, next_continuity, pat_pid, pmt_pid}
use android2pc_stream.Sender.Muxer.Tables.{
  emit_psi, emit_tables, pat_section, pmt_section, append_u16,
}
use android2pc_stream.Sender.Muxer.Loop.{Advanced, next_continuity-Advanced}

-- Every continuity counter fits its four bits.
abbrev pub Counters : Muxer → Type 0
Counters m = (pid : ℕ) → m.continuity pid < 16

-- A packet of a program table: its counter, and a section whose checksum is right.
pub record IsTable (pid counter : ℕ) (section packet : List ℕ) : Type 0 where
  pub whole : IsTs packet
  pub of_pid : ts_pid packet ≡ pid
  pub starts : ts_start packet ≡ 1
  pub counted : ts_counter packet ≡ counter
  pub carried : ts_section packet ≡ section
  pub checked : crc32_mpeg section ≡ 0

pub length-append_crc : (section : List ℕ) → length (append_crc section) ≡ length section + 4
unfolding append_crc
length-append_crc section = length-append section _

-- The section_length counts what follows it, the checksum included, which is right.
pub record Sized (section : List ℕ) : Type 0 where
  pub long : 3 ≤ length section
  pub sized : section_size section ≡ length section
  pub short : length section ≤ 26
  pub checked : crc32_mpeg section ≡ 0

append_crc-size :
    (id b c : ℕ) (body : List ℕ)
    → section_size (append_crc (id ∷ b ∷ c ∷ body)) ≡ 3 + (b % 16 * 256 + c)
unfolding append_crc
append_crc-size id b c body = refl

-- A section whose length field counts its body and the checksum.
append_crc-Sized :
    (id b c : ℕ) (body : List ℕ)
    → b % 16 * 256 + c ≡ length body + 4
    → length body ≤ 19
    → Sized (append_crc (id ∷ b ∷ c ∷ body))
append_crc-Sized id b c body e h = record {
  long = omega (arith, length-append_crc (id ∷ b ∷ c ∷ body));
  sized = omega (arith, append_crc-size id b c body, length-append_crc (id ∷ b ∷ c ∷ body));
  short = omega (arith, length-append_crc (id ∷ b ∷ c ∷ body));
  checked = crc32_mpeg-append_crc _;
}

pub pat_section-Sized : Sized pat_section
unfolding pat_section
pat_section-Sized = append_crc-Sized 0 0xB0 0x0D _ refl (omega arith)

pub pmt_section-Sized : (m : Muxer) → Sized (pmt_section m)
unfolding pmt_section append_u16
pmt_section-Sized m = elim (Bool-cases m.audio_enabled) [
  | inl e ↦ rw (e, pmt_section) (append_crc-Sized 2 0xB0 23 _ refl (omega arith))
  | inr e ↦ rw (e, pmt_section) (append_crc-Sized 2 0xB0 18 _ refl (omega arith))
]

abbrev counter_byte : ℕ → ℕ
counter_byte counter = low (bit_or 0x10 counter) 8

counter_byte_fields : (counter : ℕ) → counter < 16 → counter_byte counter ≡ 0x10 + counter
counter_byte_fields counter h = ground (arith, shl-bit_or 4 1 counter h)

start_byte_fields : (pid : ℕ) → low (bit_or 0x40 (low (shr pid 8) 5)) 8 ≡ 0x40 + pid / 256 % 32
start_byte_fields pid = ground (arith, shl-bit_or 6 1 (low (shr pid 8) 5))

take_all : (xs rest : List ℕ) (n : ℕ) → n ≡ length xs → take n (xs ++ rest) ≡ xs
take_all xs rest n e = rw e (take-length_append xs rest)

section_bytes-append :
    (section rest : List ℕ) → Sized section → section_bytes (section ++ rest) ≡ section
section_bytes-append [] rest z = absurd (omega (arith, z.long))
section_bytes-append (a ∷ []) rest z = absurd (omega (arith, z.long))
section_bytes-append (a ∷ b ∷ []) rest z = absurd (omega (arith, z.long))
section_bytes-append (a ∷ b ∷ c ∷ body) rest z =
    take_all (a ∷ b ∷ c ∷ body) rest (3 + (b % 16 * 256 + c)) z.sized

abbrev psi_packet : ℕ → ℕ → List ℕ → List ℕ
psi_packet pid counter section =
    0x47
    ∷ low (bit_or 0x40 (low (shr pid 8) 5)) 8
    ∷ low (low pid 8) 8
    ∷ counter_byte counter
    ∷ 0x00
    ∷ (section ++ replicate (188 - (5 + length section)) 0xFF)

ts_payload-plain :
    (s b c d : ℕ) (body : List ℕ) → d / 16 % 4 ≡ 1 → ts_payload (s ∷ b ∷ c ∷ d ∷ body) ≡ body
ts_payload-plain s b c d body e = ground arith

psi_packet-IsTable :
    (pid counter : ℕ) (section : List ℕ)
    → pid < 8192
    → counter < 16
    → Sized section
    → IsTable pid counter section (psi_packet pid counter section)
psi_packet-IsTable pid counter section h c z =
    let control = counter_byte_fields counter c in
    let start = start_byte_fields pid in
    let padding : List ℕ = replicate (188 - (5 + length section)) 0xFF in
    record {
      whole = (
        refl,
        omega (
          arith,
          length-append section padding,
          length-replicate {A = ℕ} (188 - (5 + length section)) 0xFF,
          z.short,
        ),
      );
      of_pid = grind (arith, start);
      starts = grind (arith, start);
      counted = grind (arith, control);
      carried =
          ap pointed_section (
            ts_payload-plain 0x47 (low (bit_or 0x40 (low (shr pid 8) 5)) 8) (low (low pid 8) 8)
              (counter_byte counter) (0 ∷ (section ++ padding)) (rw control (omega arith)))
          ∙ section_bytes-append section padding z;
      checked = z.checked;
    }

-- One table: its packet, and the muxer behind it.
emit_psi-packet :
    (m : Muxer) (pid : ℕ) (section : List ℕ) (packets : List (List ℕ))
    → pid < 8192
    → Sized section
    → emit_psi m pid section packets
      ≡ ((next_continuity m pid).1, packets ++ psi_packet pid (m.continuity pid) section ∷ [])
unfolding emit_psi
emit_psi-packet m pid section packets h z =
    let (counter, step) = next_continuity-Advanced m pid h in
    let small : ltb 184 (length section + 1) ≡ false = ground (arith, z.short) in
    rw (small, counter) refl

pub Advanced-Counters :
    (pid n : ℕ) (m final : Muxer) → Advanced pid n m final → Counters m → Counters final
Advanced-Counters pid n m final a c q = elim (Bool-cases (q == pid)) [
  | inl e ↦ let same : q ≡ pid = ground arith in rw same (omega (arith, a.moved))
  | inr e ↦ let other : q ≢ pid = λ same. ground arith in rw (a.others q other) (c q)
]

-- What `emit_tables` adds: the two tables, each with the next counter of its PID.
pub record Tables (m : Muxer) (packets : List (List ℕ)) (result : Muxer × List (List ℕ))
    : Type 0 where
  pub final : Muxer
  pub pat : List ℕ
  pub pmt : List ℕ
  pub returned : result ≡ (final, packets ++ pat ∷ pmt ∷ [])
  pub association : IsTable pat_pid (m.continuity pat_pid) pat_section pat
  pub program : IsTable pmt_pid (m.continuity pmt_pid) (pmt_section m) pmt
  pub middle : Muxer
  pub first : Advanced pat_pid 1 m middle
  pub second : Advanced pmt_pid 1 middle final
  pub counters : Counters final

-- Where every counter is below 16, `emit_tables` adds two whole packets, of PID 0 and 0x1000, with
-- the start flag, the next counter of their PID, and a section that is read back by its own length
-- field and whose checksum is right: the association table, and the map table of the muxer.
pub emit_tables-Tables :
    (m : Muxer) (packets : List (List ℕ)) → Counters m → Tables m packets (emit_tables m packets)
unfolding emit_tables
emit_tables-Tables m packets c =
    let (counter, step) = next_continuity-Advanced m pat_pid (omega arith) in
    let middle : Muxer = (next_continuity m pat_pid).1 in
    let (next_counter, next_step) = next_continuity-Advanced middle pmt_pid (omega arith) in
    let ok : Counters middle = Advanced-Counters pat_pid 1 m middle step c in
    record {
      final = (next_continuity middle pmt_pid).1;
      pat = psi_packet pat_pid (m.continuity pat_pid) pat_section;
      pmt = psi_packet pmt_pid (middle.continuity pmt_pid) (pmt_section m);
      returned =
          rw
            (
              emit_psi-packet m pat_pid pat_section packets (omega arith) pat_section-Sized,
              emit_psi-packet middle pmt_pid (pmt_section m)
                  (packets ++ psi_packet pat_pid (m.continuity pat_pid) pat_section ∷ [])
                  (omega arith) (pmt_section-Sized m),
            )
            (ap (λ (all : List (List ℕ)). ((next_continuity middle pmt_pid).1, all))
              (append_assoc packets _ _));
      association =
          psi_packet-IsTable pat_pid (m.continuity pat_pid) pat_section (omega arith) (c pat_pid)
            pat_section-Sized;
      program = rw (step.others pmt_pid (λ e. omega arith)) (
          psi_packet-IsTable pmt_pid (m.continuity pmt_pid) (pmt_section m) (omega arith)
            (c pmt_pid) (pmt_section-Sized m));
      middle = middle;
      first = step;
      second = next_step;
      counters = Advanced-Counters pmt_pid 1 middle _ next_step ok;
    }
