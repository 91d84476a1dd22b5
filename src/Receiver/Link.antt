-- ===== src/Receiver/Link.antt =====
-- pc/src/credential_codec.cpp, generate_config and build_pairing_payload: a new configuration, and the link
-- of the pairing code. The random generator is a parameter: its bytes, or none where it fails.
pub mod Decimal
pub mod Parts
pub mod Reading
pub mod Fresh
use android2pc_stream.Prelude.{
  ℕ, zero, suc, ◌+◌, ◌-◌, ◌*◌, ◌/◌, ◌%◌, ◌^◌, Bool, true, false, not, ◌||◌, Option, none, some,
  List, [], ◌∷◌, ◌++◌, ltb, leb, ◌==◌, if◌then◌else◌, codes, replicate,
}
use android2pc_stream.Platform.{Platform}
use android2pc_stream.Base64.{base64url}
use android2pc_stream.Receiver.Config.{
  ReceiverConfig, secret_bytes, maximum_qr_lifetime_seconds, is_no_error, validate_config,
}
use android2pc_stream.Receiver.Pairing.{new_uuid, percent_encode}

-- `std::to_string` of an unsigned number; twenty digits are enough for std::uint64_t.
unfoldable pub decimal : ℕ → ℕ → List ℕ → List ℕ
decimal zero n after = after
decimal (suc fuel) n after =
    let digits = (b'0' + n % 10) ∷ after in
    let more = decimal fuel (n / 10) digits in if n / 10 == 0 then digits else more

unfoldable pub to_string : ℕ → List ℕ
unfolding decimal
to_string n = decimal 20 n []

-- `now + 30ULL * 24ULL * 60ULL * 60ULL`.
abbrev pub default_expiry : ℕ → ℕ
default_expiry now = (now + 30 * 24 * 60 * 60) % 2 ^ 64

module _ (platform : Platform) where
  -- `uuid_bytes` and `secret` are what the two calls of the random generator give.
  unfoldable pub generate_config :
      List ℕ → List ℕ → ℕ → ℕ → ℕ → Option (List ℕ) → Option (List ℕ) → Option ReceiverConfig
  generate_config label host port latency_ms now uuid_bytes none = none
  generate_config label host port latency_ms now uuid_bytes (some secret) =
      let config : ReceiverConfig = record {
        receiver_id = new_uuid uuid_bytes;
        label = label;
        host = host;
        port = port;
        latency_ms = latency_ms;
        credential_expires_epoch_seconds = default_expiry now;
        secret = secret;
      } in
      if is_no_error (validate_config platform config now) then some config else none

  -- The text of a valid configuration's link.
  unfoldable pub pairing_link : ReceiverConfig → ℕ → List ℕ
  unfolding to_string
  pairing_link config qr_expires =
      codes "pcstream://pair/v1?receiver_id="
      ++ (config.receiver_id
          ++ (codes "&label="
              ++ (percent_encode config.label
                  ++ (codes "&host="
                      ++ (config.host
                          ++ (codes "&port="
                              ++ (to_string config.port
                                  ++ (codes "&secret="
                                      ++ (base64url config.secret
                                          ++ (codes "&qr_expires="
                                              ++ (to_string qr_expires
                                                  ++ (codes "&credential_expires="
                                                      ++ (to_string
                                                            config.credential_expires_epoch_seconds
                                                          ++ (codes "&latency_ms="
                                                            ++ (to_string config.latency_ms
                                                            ++ codes "&pbkeylen=32")))))))))))))))

  unfoldable pub build_pairing_payload : ReceiverConfig → ℕ → ℕ → List ℕ
  unfolding pairing_link
  build_pairing_payload config qr_expires now =
      if not (is_no_error (validate_config platform config now))
        || leb qr_expires now
        || ltb maximum_qr_lifetime_seconds (qr_expires - now)
        || ltb config.credential_expires_epoch_seconds qr_expires
      then []
      else pairing_link config qr_expires
