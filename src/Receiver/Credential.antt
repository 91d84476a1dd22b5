-- ===== src/Receiver/Credential.antt =====
-- pc/src/credential_codec.cpp, lines 301 to 349: the stored form of a configuration.
pub mod Layout
pub mod RoundTrip
use android2pc_stream.Prelude.{
  ℕ, ◌+◌, ◌-◌, not, ◌||◌, Option, none, some, List, [], ◌∷◌, ◌++◌, length, drop, get_or, ltb, ◌==◌,
  if◌then◌else◌, starts_with, ◌>>=◌,
}
use android2pc_stream.Platform.{Platform}
use android2pc_stream.Receiver.Bytes.{
  append_u16, append_u64, append_string, take_u16, take_u64, take_string,
}
use android2pc_stream.Receiver.Config.{
  ReceiverConfig, ConfigError, maximum_label_utf8_bytes, validate_config,
}

-- 'L', 'C', 'R', '1'.
abbrev pub plain_magic : List ℕ
plain_magic = b'L' ∷ b'C' ∷ b'R' ∷ b'1' ∷ []

abbrev pub format_version : ℕ
format_version = 1

unfoldable pub serialize_config : ReceiverConfig → List ℕ
serialize_config config =
    let start = plain_magic ++ format_version ∷ [] in
    let texts =
      append_string (append_string (append_string start config.receiver_id) config.label)
        config.host in
    let numbers =
      append_u64 (append_u16 (append_u16 texts config.port) config.latency_ms)
        config.credential_expires_epoch_seconds in
    numbers ++ config.secret

-- `bytes.size() - offset != config.secret.size()`: the rest must be the secret and nothing else.
abbrev check_secret : ReceiverConfig → Option ReceiverConfig
check_secret config = if length config.secret == 32 then some config else none

module _ (platform : Platform) where
  -- The chain of `take_...` calls behind the version byte, and the test on what is left.
  pub read_fields : List ℕ → Option ReceiverConfig
  read_fields bytes = do
    (receiver_id, after_id) ← take_string bytes 36
    (label, after_label) ← take_string after_id maximum_label_utf8_bytes
    (host, after_host) ← take_string after_label (platform.inet_addrstrlen - 1)
    (port, after_port) ← take_u16 after_host
    (latency_ms, after_latency) ← take_u16 after_port
    (expires, secret) ← take_u64 after_latency
    check_secret (record {
      receiver_id = receiver_id;
      label = label;
      host = host;
      port = port;
      latency_ms = latency_ms;
      credential_expires_epoch_seconds = expires;
      secret = secret;
    })

  -- The result, with what the call leaves in `error`. A refused configuration is cleared and dropped.
  pub validated : ReceiverConfig → ConfigError → Option ReceiverConfig × ConfigError
  validated config ConfigError.no_error = (some config, ConfigError.no_error)
  validated config error = (none, error)

  unfoldable pub deserialize_config : List ℕ → ℕ → Option ReceiverConfig × ConfigError
  unfolding read_fields validated
  deserialize_config bytes now =
      if ltb (length bytes) (4 + 1) || not (starts_with bytes plain_magic)
      then (none, ConfigError.malformed)
      else if not (get_or bytes 4 0 == format_version)
      then (none, ConfigError.unsupported_version)
      else elim (read_fields (drop 5 bytes)) [
        | none ↦ (none, ConfigError.malformed)
        | some config ↦ validated config (validate_config platform config now)
      ]
