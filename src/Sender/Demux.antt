-- ===== src/Sender/Demux.antt =====
-- An independent reader of transport packets, by ISO/IEC 13818-1: what a receiver's demuxer sees in the
-- packets that the muxer writes.
use android2pc_stream.Prelude.{
  ℕ, ◌+◌, ◌*◌, ◌/◌, ◌%◌, ◌≡◌, List, [], ◌∷◌, ◌++◌, length, take, drop, ◌==◌, if◌then◌else◌, All,
}

-- The fields of the four header bytes.
abbrev pub ts_pid : List ℕ → ℕ
ts_pid (s ∷ b ∷ c ∷ d ∷ rest) = b % 32 * 256 + c
ts_pid _ = 0

abbrev pub ts_start : List ℕ → ℕ
ts_start (s ∷ b ∷ c ∷ d ∷ rest) = b / 64 % 2
ts_start _ = 0

abbrev pub ts_counter : List ℕ → ℕ
ts_counter (s ∷ b ∷ c ∷ d ∷ rest) = d % 16
ts_counter _ = 0

abbrev pub ts_control : List ℕ → ℕ
ts_control (s ∷ b ∷ c ∷ d ∷ rest) = d / 16 % 4
ts_control _ = 0

-- The bytes behind an adaptation field that begins with its length.
abbrev pub after_adaptation : List ℕ → List ℕ
after_adaptation [] = []
after_adaptation (size ∷ rest) = drop size rest

abbrev pub ts_payload : List ℕ → List ℕ
ts_payload (s ∷ b ∷ c ∷ d ∷ rest) =
    if d / 16 % 4 == 3 then after_adaptation rest else if d / 16 % 4 == 1 then rest else []
ts_payload _ = []

-- The section in a payload that begins with its pointer_field, as long as its own section_length says.
abbrev pub section_size : List ℕ → ℕ
section_size (id ∷ b ∷ c ∷ rest) = 3 + (b % 16 * 256 + c)
section_size _ = 0

abbrev pub section_bytes : List ℕ → List ℕ
section_bytes section = take (section_size section) section

abbrev pub pointed_section : List ℕ → List ℕ
pointed_section [] = []
pointed_section (pointer ∷ rest) = section_bytes (drop pointer rest)

abbrev pub ts_section : List ℕ → List ℕ
ts_section packet = pointed_section (ts_payload packet)

-- A packet of 188 bytes with its sync byte.
abbrev pub IsTs : List ℕ → Type 0
IsTs [] = ⊥
IsTs (s ∷ rest) = (s ≡ 0x47) × (length rest ≡ 187)

abbrev pub payloads : List (List ℕ) → List ℕ
payloads [] = []
payloads (p ∷ ps) = ts_payload p ++ payloads ps

-- The counters go up by one modulo 16, from the given one on.
abbrev pub CountsUp : ℕ → List (List ℕ) → Type 0
CountsUp counter [] = Unit {0}
CountsUp counter (p ∷ ps) = (ts_counter p ≡ counter) × CountsUp ((counter + 1) % 16) ps

-- Only the first packet has the payload_unit_start_indicator.
abbrev pub StartsOnce : ℕ → List (List ℕ) → Type 0
StartsOnce start [] = Unit {0}
StartsOnce start (p ∷ ps) = (ts_start p ≡ start) × StartsOnce 0 ps

-- The packets of one unit of a stream: whole packets of one PID that carry exactly the bytes.
pub record Stream (pid start counter : ℕ) (bytes : List ℕ) (packets : List (List ℕ)) : Type 0 where
  pub whole : All IsTs packets
  pub of_pid : All (λ p. ts_pid p ≡ pid) packets
  pub starts : StartsOnce start packets
  pub counted : CountsUp counter packets
  pub carried : payloads packets ≡ bytes
