-- ===== src/Sender/Muxer/State.antt =====
-- mpeg_ts_muxer.h and the muxer's clocks and counters (mpeg_ts_muxer.cpp, lines 11 to 117 and 314 to 329).
use android2pc_stream.Prelude.{
  ℕ, ◌+◌, ◌*◌, ◌/◌, ◌%◌, ◌^◌, Bool, true, false, leb, ◌==◌, if◌then◌else◌,
}
use android2pc_stream.Prelude.Bits.{low}
use android2pc_stream.Prelude.Int.{ℤ, negsuc, ◌-ℤ◌, to_u64}

abbrev pub pat_pid : ℕ
pat_pid = 0x0000

abbrev pub pmt_pid : ℕ
pmt_pid = 0x1000

abbrev pub video_pid : ℕ
video_pid = 0x0100

abbrev pub audio_pid : ℕ
audio_pid = 0x0101

abbrev pub program_number : ℕ
program_number = 1

abbrev pub table_interval_microseconds : ℕ
table_interval_microseconds = 100000

abbrev pub transport_packet_bytes : ℕ
transport_packet_bytes = 188

abbrev pub maximum_video_access_unit_bytes : ℕ
maximum_video_access_unit_bytes = 6 * 1024 * 1024

abbrev pub maximum_audio_access_unit_bytes : ℕ
maximum_audio_access_unit_bytes = 64 * 1024

pub data VideoCodec : Type 0 where
  hevc avc : VideoCodec

-- The two arrays are functions of the PID. Only PIDs below 8192 have an entry.
pub record Muxer : Type 0 where
  pub video_codec : VideoCodec
  pub audio_enabled : Bool
  pub audio_sample_rate : ℤ
  pub audio_channels : ℤ
  pub origin_microseconds : ℤ
  pub last_tables_microseconds : ℤ
  pub continuity : ℕ → ℕ
  pub discontinuity_pending : ℕ → Bool

unfoldable pub new_muxer : VideoCodec → Bool → ℤ → ℤ → Muxer
new_muxer video_codec audio_enabled audio_sample_rate audio_channels = record {
  video_codec = video_codec;
  audio_enabled = audio_enabled;
  audio_sample_rate = audio_sample_rate;
  audio_channels = audio_channels;
  origin_microseconds = negsuc 0;
  last_tables_microseconds = negsuc 0;
  continuity = λ pid. 0;
  discontinuity_pending = λ pid. false;
}

unfoldable pub reset : Muxer → ℤ → Muxer
reset m origin = record m {
  origin_microseconds = origin;
  last_tables_microseconds = negsuc 0;
  continuity = λ pid. 0;
  discontinuity_pending = λ pid. true;
}

-- `array[pid] = value`.
abbrev pub update {ℓ} : {A : Type ℓ} → (ℕ → A) → ℕ → A → ℕ → A
update f pid value q = if q == pid then value else f q

-- The counter that the packet gets, and the muxer behind it.
unfoldable pub next_continuity : Muxer → ℕ → ℕ × Muxer
next_continuity m pid = if leb 8192 pid then (0, m) else (
  m.continuity pid,
  record m { continuity = update m.continuity pid (low (m.continuity pid + 1) 4) },
)

-- `static_cast<std::uint64_t>(microseconds - origin_microseconds_)`.
abbrev pub relative_microseconds : Muxer → ℤ → ℕ
relative_microseconds m microseconds = to_u64 (microseconds -ℤ m.origin_microseconds)

unfoldable pub pts90 : Muxer → ℤ → ℕ
pts90 m microseconds = low (relative_microseconds m microseconds * 90 % 2 ^ 64 / 1000) 33

unfoldable pub pcr27 : Muxer → ℤ → ℕ
pcr27 m microseconds = relative_microseconds m microseconds * 27 % 2 ^ 64
