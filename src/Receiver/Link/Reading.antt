-- ===== src/Receiver/Link/Reading.antt =====
-- build_pairing_payload, read back field by field.
use android2pc_stream.Prelude.{
  ℕ, ◌+◌, ◌-◌, ◌≤◌, ◌<◌, ◌^◌, ◌≡◌, ◌≢◌, refl, ap, ◌⊎◌, inl, inr, Bool, true, false, not, ◌||◌,
  Option, none, some, List, [], ◌++◌, ◌>>=◌, length, is_empty, ltb, leb, if◌then◌else◌, codes,
  arith, Bool-cases, suc,
}
use android2pc_stream.Platform.{Platform, NtopDotted}
use android2pc_stream.Base64.{base64url}
use android2pc_stream.Base64.Reading.{base64_decode, base64_decode-base64url}
use android2pc_stream.Receiver.Config.{
  ReceiverConfig, WellTyped, validate_config, maximum_qr_lifetime_seconds, is_no_error, ConfigError,
}
use android2pc_stream.Receiver.Config.Valid.{Valid, validate_config-Valid}
use android2pc_stream.Receiver.Link.{to_string, pairing_link, build_pairing_payload}
use android2pc_stream.Receiver.Link.Decimal.{read_from, read_from-to_string}
use android2pc_stream.Receiver.Link.Parts.{
  expect, read_field, read_field_lem, decimal-NoMark, secret-NoMark, label-NoMark, uuid-NoMark,
  host-NoMark,
}
use android2pc_stream.Receiver.Pairing.{percent_encode}
use android2pc_stream.Receiver.Pairing.Encoding.{percent_decode, percent_decode-percent_encode}

-- The fields of a link, as text.
pub record LinkFields : Type 0 where
  pub receiver_id : List ℕ
  pub label : List ℕ
  pub host : List ℕ
  pub port : List ℕ
  pub secret : List ℕ
  pub qr_expires : List ℕ
  pub credential_expires : List ℕ
  pub latency_ms : List ℕ

read_end : List ℕ → LinkFields → Option LinkFields
unfolding expect
read_end text fields =
    expect (codes "&pbkeylen=32") text >>= λ rest. if is_empty rest then some fields else none

pub read_fields : List ℕ → Option LinkFields
read_fields text = do
  (receiver_id, text) ← read_field (codes "pcstream://pair/v1?receiver_id=") text
  (label, text) ← read_field (codes "&label=") text
  (host, text) ← read_field (codes "&host=") text
  (port, text) ← read_field (codes "&port=") text
  (secret, text) ← read_field (codes "&secret=") text
  (qr_expires, text) ← read_field (codes "&qr_expires=") text
  (credential_expires, text) ← read_field (codes "&credential_expires=") text
  (latency_ms, text) ← read_field (codes "&latency_ms=") text
  read_end text (record {
    receiver_id = receiver_id;
    label = label;
    host = host;
    port = port;
    secret = secret;
    qr_expires = qr_expires;
    credential_expires = credential_expires;
    latency_ms = latency_ms;
  })

-- The configuration and the code's expiry that the fields stand for.
abbrev pub meaning : LinkFields → ReceiverConfig × ℕ
meaning f = (
  record {
    receiver_id = f.receiver_id;
    label = percent_decode (suc (length f.label)) f.label;
    host = f.host;
    port = read_from 0 f.port;
    latency_ms = read_from 0 f.latency_ms;
    credential_expires_epoch_seconds = read_from 0 f.credential_expires;
    secret = base64_decode f.secret;
  },
  read_from 0 f.qr_expires,
)

pub read_link : List ℕ → Option (ReceiverConfig × ℕ)
unfolding read_fields
read_link text = read_fields text >>= λ f. some (meaning f)

pub is_no_error-eq : (e : ConfigError) → is_no_error e ≡ true → e ≡ ConfigError.no_error
is_no_error-eq ConfigError.no_error h = refl
is_no_error-eq _ h = cc

module _ (platform : Platform) (c : ReceiverConfig) (qr now : ℕ) where
  abbrev fields_of : LinkFields
  fields_of = record {
    receiver_id = c.receiver_id;
    label = percent_encode c.label;
    host = c.host;
    port = to_string c.port;
    secret = base64url c.secret;
    qr_expires = to_string qr;
    credential_expires = to_string c.credential_expires_epoch_seconds;
    latency_ms = to_string c.latency_ms;
  }

  read_fields-pairing_link :
      NtopDotted platform
      → WellTyped c
      → Valid platform c now
      → read_fields (pairing_link platform c qr) ≡ some fields_of
  unfolding read_fields pairing_link read_end
  read_fields-pairing_link dotted w v =
      let r8 : List ℕ = codes "&pbkeylen=32" in
      let r7 = codes "&latency_ms=" ++ (to_string c.latency_ms ++ r8) in
      let r6 =
        codes "&credential_expires=" ++ (to_string c.credential_expires_epoch_seconds ++ r7) in
      let r5 = codes "&qr_expires=" ++ (to_string qr ++ r6) in
      let r4 = codes "&secret=" ++ (base64url c.secret ++ r5) in
      let r3 = codes "&port=" ++ (to_string c.port ++ r4) in
      let r2 = codes "&host=" ++ (c.host ++ r3) in
      let r1 = codes "&label=" ++ (percent_encode c.label ++ r2) in
      rw
        (
          read_field_lem (codes "pcstream://pair/v1?receiver_id=") c.receiver_id r1
              (uuid-NoMark c.receiver_id v.id_valid) refl,
          read_field_lem (codes "&label=") (percent_encode c.label) r2 (label-NoMark c.label) refl,
          read_field_lem (codes "&host=") c.host r3
              (host-NoMark platform c.host dotted v.host_valid) refl,
          read_field_lem (codes "&port=") (to_string c.port) r4 (decimal-NoMark c.port) refl,
          read_field_lem (codes "&secret=") (base64url c.secret) r5
              (secret-NoMark c.secret w.secret_byte) refl,
          read_field_lem (codes "&qr_expires=") (to_string qr) r6 (decimal-NoMark qr) refl,
          read_field_lem (codes "&credential_expires=")
              (to_string c.credential_expires_epoch_seconds) r7
              (decimal-NoMark c.credential_expires_epoch_seconds) refl,
          read_field_lem (codes "&latency_ms=") (to_string c.latency_ms) r8
              (decimal-NoMark c.latency_ms) refl,
        )
        refl

  -- When a link may be shown.
  pub record Showable : Type 0 where
    pub config_valid : Valid platform c now
    pub in_time : now < qr
    pub short : qr ≤ now + maximum_qr_lifetime_seconds
    pub within : qr ≤ c.credential_expires_epoch_seconds

  meaning_fields : WellTyped c → qr < 2 ^ 64 → meaning fields_of ≡ (c, qr)
  meaning_fields w h =
      rw
        (
          percent_decode-percent_encode c.label (suc (length (percent_encode c.label)))
              w.label_bytes (omega arith),
          read_from-to_string c.port (omega (arith, w.port_word)),
          read_from-to_string c.latency_ms (omega (arith, w.latency_word)),
          read_from-to_string c.credential_expires_epoch_seconds (omega (arith, w.expires_word)),
          (base64_decode-base64url c.secret w.secret_byte).0,
          read_from-to_string qr (omega arith),
        )
        refl

  abbrev refused : Bool
  refused =
      not (is_no_error (validate_config platform c now))
      || leb qr now
      || ltb maximum_qr_lifetime_seconds (qr - now)
      || ltb c.credential_expires_epoch_seconds qr

  Showable-refused : Showable → refused ≡ false
  Showable-refused s =
      let e = (validate_config-Valid platform c now).1 s.config_valid in
      let less : ltb maximum_qr_lifetime_seconds (qr - now) ≡ false = ground arith in
      rw (e, less) (ground arith)

  refused-Showable : refused ≡ false → Showable
  refused-Showable h = record {
    config_valid = (validate_config-Valid platform c now).0 (is_no_error-eq _ (ground arith));
    in_time = ground arith;
    short = ground arith;
    within = ground arith;
  }

  pub payload-Showable : build_pairing_payload platform c qr now ≢ [] → Showable
  unfolding build_pairing_payload
  payload-Showable h = elim (Bool-cases refused) [
    | inl e ↦ absurd (h (rw e refl))
    | inr e ↦ refused-Showable e
  ]

  -- Where addresses print as numbers and dots: for a well-typed configuration, the payload is the empty text
  -- unless the configuration is valid and the code's expiry is after now, at most ten minutes after it, and
  -- not after the credential's; and then a reader of its fields gets the whole configuration and that expiry
  -- back.
  pub read_link-build_pairing_payload :
      NtopDotted platform
      → WellTyped c
      → (Showable → read_link (build_pairing_payload platform c qr now) ≡ some (c, qr))
        × ((build_pairing_payload platform c qr now ≡ []) ⊎ Showable)
  unfolding build_pairing_payload read_link
  read_link-build_pairing_payload dotted w = (
    λ s.
        rw (Showable-refused s, read_fields-pairing_link dotted w s.config_valid)
          (ap (λ m. some m) (meaning_fields w (omega (arith, w.expires_word, s.within)))),
    elim (Bool-cases refused) [ inl e ↦ inl (rw e refl) | inr e ↦ inr (refused-Showable e) ],
  )
