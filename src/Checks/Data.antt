-- ===== src/Checks/Data.antt =====
-- The inputs that the checks share. The platform knows one address and takes labels as they are.
use android2pc_stream.Prelude.{
  ℕ, ◌+◌, ◌*◌, ◌^◌, ◌≡◌, refl, true, none, some, List, [], ◌∷◌, codes, ◌==◌, if◌then◌else◌,
  list_eqb, replicate, arith, All, IsByte, all, ltb, Bool-cases, inl, inr,
}
use android2pc_stream.Platform.{Platform, NtopFits, NtopDotted, PtonIsWord}
use android2pc_stream.Receiver.Config.{
  ReceiverConfig, WellTyped, ConfigError, validate_config, is_canonical_uuid, valid_utf8_label,
  is_canonical_private_ipv4, is_private_octets,
}
use android2pc_stream.Prelude.Int.{pos}
use android2pc_stream.Sender.Muxer.State.{VideoCodec}
use android2pc_stream.Sender.Native.Config.{SenderConfig}
use android2pc_stream.Receiver.Store.{Dpapi, Recovers, Disk, WriteOutcome}
use android2pc_stream.Receiver.Store.Reload.{Succeeds}

abbrev pub desk_address : List ℕ
desk_address = codes "10.0.0.7"

abbrev pub desk_word : ℕ
desk_word = 10 * 2 ^ 24 + 7

abbrev pub desk : Platform
desk = record {
  utf8_to_wide = λ text. some text;
  inet_pton = λ host. if list_eqb host desk_address then some desk_word else none;
  inet_ntop = λ address. if address == desk_word then some desk_address else none;
  inet_addrstrlen = 16;
}

pub desk-NtopFits : NtopFits desk
desk-NtopFits = (omega arith, λ address text h. ground arith)

abbrev pub desk_config : ReceiverConfig
desk_config = record {
  receiver_id = codes "0f8fad5b-d9cb-469f-a165-70867728950e";
  label = codes "Desk PC";
  host = desk_address;
  port = 49152;
  latency_ms = 120;
  credential_expires_epoch_seconds = 2000;
  secret = replicate 32 0xA5;
}

pub desk_config-WellTyped : WellTyped desk_config
desk_config-WellTyped = record {
  id_bytes = ground arith;
  label_bytes = ground arith;
  host_bytes = ground arith;
  port_word = omega arith;
  latency_word = omega arith;
  expires_word = omega arith;
  secret_sized = refl;
  secret_byte = ground arith;
}

pub desk_config_valid : validate_config desk desk_config 1000 ≡ ConfigError.no_error
unfolding validate_config is_canonical_uuid valid_utf8_label is_canonical_private_ipv4
    is_private_octets
desk_config_valid = refl

pub desk-NtopDotted : NtopDotted desk
desk-NtopDotted address text h = elim (Bool-cases (address == desk_word)) [
  | inl e ↦ let same : desk_address ≡ text = ground (arith, h, e) in rw (← same) (ground arith)
  | inr e ↦ ground (arith, h, e)
]

pub desk-PtonIsWord : PtonIsWord desk
desk-PtonIsWord host address h = ground arith

-- A protection that changes nothing, on texts of bytes.
abbrev pub plain_dpapi : Dpapi
plain_dpapi = record {
  protect = λ plain. if all (λ b. ltb b 256) plain then some plain else none;
  unprotect = λ blob. some blob;
}

all_bytes : (plain : List ℕ) → all (λ (b : ℕ). ltb b 256) plain ≡ true → All IsByte plain
all_bytes [] h = tt
all_bytes (b ∷ bs) h = (ground arith, all_bytes bs (ground arith))

pub plain_dpapi-Recovers : Recovers plain_dpapi
plain_dpapi-Recovers plain blob h = elim (Bool-cases (all (λ (b : ℕ). ltb b 256) plain)) [
  | inl e ↦
      let same : plain ≡ blob = ground arith in (rw same refl, rw (← same) (all_bytes plain e))
  | inr e ↦ absurd (ground arith)
]

-- A protection that adds much to every text.
abbrev pub large_dpapi : Dpapi
large_dpapi = record { protect = λ plain. some (replicate 65528 0); unprotect = λ blob. none }

abbrev pub no_file : Disk
no_file = record { target = none; temporary = none }

abbrev pub all_well : ℕ → WriteOutcome
all_well n = record {
  directories_made = true;
  created = true;
  written = some n;
  flushed = true;
  moved = true;
  deleted = true;
}

pub all_well-Succeeds : (n : ℕ) → Succeeds (all_well n) n
all_well-Succeeds n = record {
  made = refl;
  opened = refl;
  whole = refl;
  flushed = refl;
  moved = refl;
}

-- A phone's configuration for that PC.
abbrev pub phone_config : SenderConfig
phone_config = record {
  host = desk_address;
  device_name = codes "Pixel-7";
  port = 49152;
  secret = replicate 32 0xA5;
  latency_milliseconds = pos 120;
  video_codec = VideoCodec.hevc;
  audio_enabled = true;
  audio_sample_rate = pos 48000;
  audio_channels = pos 1;
}
