-- ===== src/Receiver/Config.antt =====
-- pc/src/credential_codec.cpp and pc/include/local_camera_receiver/receiver_config.hpp: the receiver's
-- configuration and its validation. Texts are lists of bytes.
pub mod Valid
use android2pc_stream.Prelude.{
  ℕ, zero, suc, ◌+◌, ◌-◌, ◌*◌, ◌^◌, ◌<◌, ◌≡◌, Bool, true, false, not, ◌&&◌, ◌||◌, Option, none,
  some, List, [], ◌∷◌, length, get_or, replicate, is_empty, All, IsByte, ltb, leb, ◌==◌,
  if◌then◌else◌, list_eqb, codes, between, front_is, back_is,
}
use android2pc_stream.Prelude.Bits.{shr, low}
use android2pc_stream.Platform.{Platform}

abbrev pub minimum_port : ℕ
minimum_port = 1024

abbrev pub minimum_latency_ms : ℕ
minimum_latency_ms = 60

abbrev pub maximum_latency_ms : ℕ
maximum_latency_ms = 2000

abbrev pub secret_bytes : ℕ
secret_bytes = 32

abbrev pub maximum_label_utf8_bytes : ℕ
maximum_label_utf8_bytes = 192

abbrev pub maximum_credential_lifetime_seconds : ℕ
maximum_credential_lifetime_seconds = 366 * 24 * 60 * 60

abbrev pub maximum_qr_lifetime_seconds : ℕ
maximum_qr_lifetime_seconds = 10 * 60

pub record ReceiverConfig : Type 0 where
  pub receiver_id : List ℕ
  pub label : List ℕ
  pub host : List ℕ
  pub port : ℕ
  pub latency_ms : ℕ
  pub credential_expires_epoch_seconds : ℕ
  pub secret : List ℕ

-- What the C++ types of the fields say.
pub record WellTyped (c : ReceiverConfig) : Type 0 where
  pub id_bytes : All IsByte c.receiver_id
  pub label_bytes : All IsByte c.label
  pub host_bytes : All IsByte c.host
  pub port_word : c.port < 2 ^ 16
  pub latency_word : c.latency_ms < 2 ^ 16
  pub expires_word : c.credential_expires_epoch_seconds < 2 ^ 64
  pub secret_sized : length c.secret ≡ 32
  pub secret_byte : All IsByte c.secret

pub data ConfigError : Type 0 where
  no_error malformed unsupported_version invalid_receiver_id invalid_label invalid_host
        invalid_port :
      ConfigError
  invalid_latency expired unsafe_lifetime crypto_failure io_failure : ConfigError

-- `error == ConfigError::none`.
abbrev pub is_no_error : ConfigError → Bool
is_no_error ConfigError.no_error = true
is_no_error _ = false

unfoldable pub clear_secret : ReceiverConfig → ReceiverConfig
clear_secret c = record c { secret = replicate (length c.secret) 0 }

-- A unit that the label may not hold: a control character, DEL, or a bidirectional override.
abbrev pub is_forbidden : ℕ → Bool
is_forbidden value =
    ltb value 0x20 || value == 0x7f || between 0x202a 0x202e value || between 0x2066 0x2069 value

abbrev pub is_high_surrogate : ℕ → Bool
is_high_surrogate value = between 0xd800 0xdbff value

abbrev pub is_low_surrogate : ℕ → Bool
is_low_surrogate value = between 0xdc00 0xdfff value

-- The loop of `valid_utf8_label` over the UTF-16 units, with its count of code points.
pub check_units : List ℕ → ℕ → Bool
check_units [] code_points = true
check_units (value ∷ []) code_points = not (
    is_forbidden value
    || is_high_surrogate value
    || is_low_surrogate value
    || ltb 48 (code_points + 1))
check_units (value ∷ next ∷ units) code_points =
    let pair = check_units units (code_points + 1) in
    let single = check_units (next ∷ units) (code_points + 1) in
    if is_forbidden value
    then false
    else if is_high_surrogate value
    then if not (is_low_surrogate next) || ltb 48 (code_points + 1) then false else pair
    else if is_low_surrogate value || ltb 48 (code_points + 1)
    then false
    else single

-- The loop of `is_canonical_uuid`, from `index` on.
unfoldable pub check_uuid_from : ℕ → List ℕ → Bool
check_uuid_from index [] = true
check_uuid_from index (c ∷ rest) =
    (if index == 8 || index == 13 || index == 18 || index == 23
      then c == b'-'
      else between b'0' b'9' c || between b'a' b'f' c)
    && check_uuid_from (index + 1) rest

unfoldable pub is_canonical_uuid : List ℕ → Bool
unfolding check_uuid_from
is_canonical_uuid value =
    length value == 36
    && check_uuid_from 0 value
    && get_or value 14 0 == b'4'
    && (get_or value 19 0 == b'8'
        || get_or value 19 0 == b'9'
        || get_or value 19 0 == b'a'
        || get_or value 19 0 == b'b')

-- The tests on the first two octets.
unfoldable pub is_private_octets : ℕ → ℕ → Bool
is_private_octets first second =
    first == 10
    || (first == 172 && leb 16 second && leb second 31)
    || (first == 192 && second == 168)
    || (first == 169 && second == 254)

module _ (platform : Platform) where
  -- Both conversions call the same function on the same bytes, so they agree on the count.
  unfoldable pub valid_utf8_label : List ℕ → Bool
  unfolding check_units
  valid_utf8_label label =
      if is_empty label
        || ltb maximum_label_utf8_bytes (length label)
        || front_is b' ' label
        || back_is b' ' label
      then false
      else elim (platform.utf8_to_wide label) [
        | none ↦ false
        | some decoded ↦
            if is_empty decoded || ltb 96 (length decoded) then false else check_units decoded 0
      ]

  unfoldable pub is_canonical_private_ipv4 : List ℕ → Bool
  unfolding is_private_octets
  is_canonical_private_ipv4 host = if is_empty host then false else elim (platform.inet_pton host) [
    | none ↦ false
    | some value ↦ elim (platform.inet_ntop value) [
      | none ↦ false
      | some canonical ↦
          list_eqb host canonical
          && is_private_octets (low (shr value 24) 8) (low (low (shr value 16) 8) 8)
    ]
  ]

  unfoldable pub validate_config : ReceiverConfig → ℕ → ConfigError
  validate_config config now =
      if not (is_canonical_uuid config.receiver_id)
      then ConfigError.invalid_receiver_id
      else if not (valid_utf8_label config.label)
      then ConfigError.invalid_label
      else if not (is_canonical_private_ipv4 config.host)
      then ConfigError.invalid_host
      else if ltb config.port minimum_port
      then ConfigError.invalid_port
      else if ltb config.latency_ms minimum_latency_ms || ltb maximum_latency_ms config.latency_ms
      then ConfigError.invalid_latency
      else if leb config.credential_expires_epoch_seconds now
      then ConfigError.expired
      else if ltb maximum_credential_lifetime_seconds
          (config.credential_expires_epoch_seconds - now)
      then ConfigError.unsafe_lifetime
      else ConfigError.no_error
