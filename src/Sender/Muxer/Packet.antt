-- ===== src/Sender/Muxer/Packet.antt =====
-- One transport packet of an access unit, as a demuxer reads it.
use Prim.Native.Nat.{bit_or}
use android2pc_stream.Prelude.{
  ℕ, ◌+◌, ◌-◌, ◌/◌, ◌%◌, ◌≤◌, ◌<◌, ◌≡◌, refl, ap, ◌∙◌, Bool, false, List, [], ◌∷◌, ◌++◌, length,
  length-append, length-take, length-replicate, take, drop, drop-length_append, replicate,
  append-nil, arith, if◌then◌else◌, ltb, inl, inr, Bool-cases, ltb→lt,
}
use android2pc_stream.Prelude.Bits.{shr, low, shl-bit_or, zero-bit_or}
use android2pc_stream.Sender.Demux.{
  ts_pid, ts_start, ts_counter, ts_payload, IsTs, after_adaptation,
}
use android2pc_stream.Sender.Muxer.Pes.{
  PesJob, minimum_adaptation, adaptation_total, adaptation_flags, pcr_bytes, clock_bytes,
  adaptation_field, ts_packet, copied_bytes,
}

pub length-pcr_bytes : (pcr : ℕ) → length (pcr_bytes pcr) ≡ 6
unfolding pcr_bytes
length-pcr_bytes pcr = refl

length-adaptation_field :
    (job : PesJob) (first : Bool) (total : ℕ)
    → minimum_adaptation job first ≤ total
    → length (adaptation_field job first total) ≡ total
unfolding adaptation_field
length-adaptation_field job first total h = ground (
  arith,
  length-pcr_bytes job.pcr,
  length-append (clock_bytes job first)
      (replicate (total - (2 + length (clock_bytes job first))) 0xFF),
  length-replicate {A = ℕ} (total - (2 + length (clock_bytes job first))) 0xFF,
)

-- The bytes that are copied fill the packet.
adaptation_total_bounds :
    (job : PesJob) (first : Bool) (remaining : ℕ)
    → 0 < remaining
    → (minimum_adaptation job first ≤ adaptation_total job first remaining)
      × (adaptation_total job first remaining < 184)
      × (184 - adaptation_total job first remaining ≤ remaining)
adaptation_total_bounds job first remaining h = ground arith

-- What stands behind the header: the adaptation field and as many bytes of the rest as fit.
pub copied_bytes_lem :
    (job : PesJob) (first : Bool) (rest : List ℕ)
    → 0 < length rest
    → (copied_bytes job first rest ≡ 184 - adaptation_total job first (length rest))
      × (0 < copied_bytes job first rest)
      × (copied_bytes job first rest ≤ length rest)
copied_bytes_lem job first rest h = omega (arith, adaptation_total_bounds job first (length rest) h)

abbrev body : PesJob → Bool → List ℕ → List ℕ
body job first rest =
    adaptation_field job first (adaptation_total job first (length rest))
    ++ take (copied_bytes job first rest) rest

abbrev pub control_byte : PesJob → Bool → ℕ → List ℕ → ℕ
control_byte job first counter rest =
    low (bit_or (if ltb 0 (adaptation_total job first (length rest)) then 0x30 else 0x10) counter) 8

abbrev start_byte : PesJob → Bool → ℕ
start_byte job first = low (bit_or (if first then 0x40 else 0x00) (low (shr job.pid 8) 5)) 8

ts_packet-body :
    (job : PesJob) (first : Bool) (counter : ℕ) (rest : List ℕ)
    → 0 < length rest
    → ts_packet job first counter rest
      ≡ 0x47
        ∷ start_byte job first
        ∷ low (low job.pid 8) 8
        ∷ control_byte job first counter rest
        ∷ body job first rest
unfolding ts_packet
ts_packet-body job first counter rest h =
    let none_left : 188
          - (4 + adaptation_total job first (length rest))
          - copied_bytes job first rest
        ≡ 0 =
      omega (arith, adaptation_total_bounds job first (length rest) h) in
    rw (none_left, append-nil) refl

-- The control byte has the counter below and the two control bits above.
control_byte_fields :
    (job : PesJob) (first : Bool) (counter : ℕ) (rest : List ℕ)
    → counter < 16
    → control_byte job first counter rest
      ≡ (if ltb 0 (adaptation_total job first (length rest)) then 0x30 else 0x10) + counter
control_byte_fields job first counter rest h =
    ground (arith, shl-bit_or 4 3 counter h, shl-bit_or 4 1 counter h)

start_byte_fields :
    (job : PesJob) (first : Bool)
    → start_byte job first ≡ (if first then 0x40 else 0x00) + job.pid / 256 % 32
start_byte_fields job first =
    ground (arith, shl-bit_or 6 1 (low (shr job.pid 8) 5), zero-bit_or (low (shr job.pid 8) 5))

-- What follows the length byte of an adaptation field.
abbrev pub adaptation_tail : PesJob → Bool → ℕ → List ℕ
adaptation_tail job first total =
    if ltb 1 total
    then low (adaptation_flags job first) 8
      ∷ (clock_bytes job first ++ replicate (total - (2 + length (clock_bytes job first))) 0xFF)
    else []

pub adaptation_field-tail :
    (job : PesJob) (first : Bool) (total : ℕ)
    → 0 < total
    → total < 184
    → adaptation_field job first total ≡ (total - 1) ∷ adaptation_tail job first total
unfolding adaptation_field
adaptation_field-tail job first total h k = ground arith

drop_exactly : (n : ℕ) (xs ys : List ℕ) → length xs ≡ n → drop n (xs ++ ys) ≡ ys
drop_exactly n xs ys e = rw (← e) (drop-length_append xs ys)

after_adaptation_field :
    (job : PesJob) (first : Bool) (total : ℕ) (rest : List ℕ)
    → minimum_adaptation job first ≤ total
    → 0 < total
    → total < 184
    → after_adaptation (adaptation_field job first total ++ rest) ≡ rest
after_adaptation_field job first total rest h k l =
    let sized : length (adaptation_tail job first total) ≡ total - 1 = omega (
      arith,
      ap length (adaptation_field-tail job first total k l),
      length-adaptation_field job first total h,
    ) in
    rw (adaptation_field-tail job first total k l)
      (drop_exactly (total - 1) (adaptation_tail job first total) rest sized)

no_adaptation : (job : PesJob) (first : Bool) → adaptation_field job first 0 ≡ []
unfolding adaptation_field
no_adaptation job first = refl

-- What a demuxer reads in one packet of an access unit.
pub record Reads (job : PesJob) (first : Bool) (counter : ℕ) (rest packet : List ℕ) : Type 0 where
  pub whole : IsTs packet
  pub of_pid : ts_pid packet ≡ job.pid
  pub starts : ts_start packet ≡ (if first then 1 else 0)
  pub counted : ts_counter packet ≡ counter
  pub carried : ts_payload packet ≡ take (copied_bytes job first rest) rest

with_field :
    (s b c d : ℕ) (body payload : List ℕ)
    → d / 16 % 4 ≡ 3
    → after_adaptation body ≡ payload
    → ts_payload (s ∷ b ∷ c ∷ d ∷ body) ≡ payload
with_field s b c d body payload e f = ground arith

without_field :
    (s b c d : ℕ) (body payload : List ℕ)
    → d / 16 % 4 ≡ 1
    → body ≡ payload
    → ts_payload (s ∷ b ∷ c ∷ d ∷ body) ≡ payload
without_field s b c d body payload e f = ground arith

not_positive : (n : ℕ) → ltb 0 n ≡ false → n ≡ 0
not_positive n h = ground arith

nothing_before :
    (job : PesJob) (first : Bool) (rest : List ℕ)
    → adaptation_total job first (length rest) ≡ 0
    → body job first rest ≡ take (copied_bytes job first rest) rest
nothing_before job first rest e =
    ap (λ (t : ℕ). adaptation_field job first t ++ take (copied_bytes job first rest) rest) e
    ∙ ap (λ (front : List ℕ). front ++ take (copied_bytes job first rest) rest)
        (no_adaptation job first)

ts_payload-body :
    (job : PesJob) (first : Bool) (counter : ℕ) (rest : List ℕ) (s b c : ℕ)
    → 0 < length rest
    → counter < 16
    → ts_payload (s ∷ b ∷ c ∷ control_byte job first counter rest ∷ body job first rest)
      ≡ take (copied_bytes job first rest) rest
ts_payload-body job first counter rest s b c h k =
    let bounds = adaptation_total_bounds job first (length rest) h in
    elim (Bool-cases (ltb 0 (adaptation_total job first (length rest)))) [
      | inl has ↦
          with_field s b c (control_byte job first counter rest) (body job first rest)
            (take (copied_bytes job first rest) rest)
            (rw (control_byte_fields job first counter rest k, has) (omega arith))
            (after_adaptation_field job first _ _ bounds.0 (ltb→lt 0 _ has) bounds.1)
      | inr none ↦
          let empty : adaptation_total job first (length rest) ≡ 0 = not_positive _ none in
          without_field s b c (control_byte job first counter rest) (body job first rest)
            (take (copied_bytes job first rest) rest)
            (rw (control_byte_fields job first counter rest k, none) (omega arith))
            (nothing_before job first rest empty)
    ]

pub ts_packet-Reads :
    (job : PesJob) (first : Bool) (counter : ℕ) (rest : List ℕ)
    → job.pid < 8192
    → counter < 16
    → 0 < length rest
    → Reads job first counter rest (ts_packet job first counter rest)
ts_packet-Reads job first counter rest hp hc h =
    rw (ts_packet-body job first counter rest h) (record {
      whole = (
        refl,
        omega (
          arith,
          length-append (adaptation_field job first (adaptation_total job first (length rest)))
              (take (copied_bytes job first rest) rest),
          length-adaptation_field job first _ (adaptation_total_bounds job first (length rest) h).0,
          length-take (copied_bytes job first rest) rest,
          copied_bytes_lem job first rest h,
          adaptation_total_bounds job first (length rest) h,
        ),
      );
      of_pid = grind (arith, start_byte_fields job first);
      starts = grind (arith, start_byte_fields job first);
      counted = grind (arith, control_byte_fields job first counter rest hc);
      carried =
          ts_payload-body job first counter rest 0x47 (start_byte job first) (low (low job.pid 8) 8)
            h hc;
    })
