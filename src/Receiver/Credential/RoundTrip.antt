-- ===== src/Receiver/Credential/RoundTrip.antt =====
-- Storing a configuration and reading it back, and reading any bytes at all.
use android2pc_stream.Prelude.{
  ℕ, ◌-◌, ◌≡◌, refl, ◌∙◌, some, List, [], ◌∷◌, ◌++◌, length, All, IsByte, arith, Option-cases, inl,
  inr,
}
use android2pc_stream.Platform.{Platform, NtopFits}
use android2pc_stream.Receiver.Bytes.{take_u16, take_u64, take_string}
use android2pc_stream.Receiver.Bytes.Fields.{
  take_string-Split, take_u16-Split, take_u64-Split, Split, StringSplit,
}
use android2pc_stream.Receiver.Config.{ReceiverConfig, WellTyped, ConfigError, validate_config}
use android2pc_stream.Receiver.Config.Valid.{
  Valid, validate_config-Valid, uuid-length, label-length, host-length,
}
use android2pc_stream.Receiver.Credential.{
  plain_magic, format_version, serialize_config, read_fields, deserialize_config,
}
use android2pc_stream.Receiver.Credential.Layout.{
  Short, fields, serialize_config-fields, read_fields-fields,
}

rest_IsByte :
    (bytes rest : List ℕ)
    → All IsByte bytes
    → bytes ≡ plain_magic ++ format_version ∷ rest
    → All IsByte rest
rest_IsByte bytes rest h e = (rw e at h).1.1.1.1.1

module _ (platform : Platform) where
  pub Valid-Short :
      (c : ReceiverConfig) (now : ℕ) → NtopFits platform → Valid platform c now → Short c
  Valid-Short c now fits v = omega (
    arith,
    uuid-length platform c.receiver_id v.id_valid,
    label-length platform c.label v.label_valid,
    host-length platform c.host fits v.host_valid,
    fits.0,
  )

  read_fields-Valid :
      (c : ReceiverConfig) (now : ℕ)
      → NtopFits platform
      → WellTyped c
      → Valid platform c now
      → read_fields platform (fields c) ≡ some c
  read_fields-Valid c now fits w v =
      read_fields-fields platform c w (Valid-Short c now fits v)
        (omega (arith, uuid-length platform c.receiver_id v.id_valid))
        (label-length platform c.label v.label_valid)
        (host-length platform c.host fits v.host_valid)

  -- Where addresses print within their buffer, a well-typed configuration that is valid at the
  -- time of reading is read back whole from its stored bytes, with no error.
  pub deserialize_config-serialize_config :
      (c : ReceiverConfig) (now : ℕ)
      → NtopFits platform
      → WellTyped c
      → validate_config platform c now ≡ ConfigError.no_error
      → deserialize_config platform (serialize_config c) now ≡ (some c, ConfigError.no_error)
  unfolding deserialize_config
  deserialize_config-serialize_config c now fits w h =
      let v = (validate_config-Valid platform c now).0 h in
      ground (
        arith,
        serialize_config-fields c (Valid-Short c now fits v),
        read_fields-Valid c now fits w v,
      )

  -- The reads of a successful chain, joined.
  joined :
      (bytes r1 r2 r3 r4 r5 : List ℕ) (c : ReceiverConfig)
      → StringSplit bytes 36 c.receiver_id r1
      → StringSplit r1 192 c.label r2
      → StringSplit r2 (platform.inet_addrstrlen - 1) c.host r3
      → Split 2 r3 c.port r4
      → Split 2 r4 c.latency_ms r5
      → Split 8 r5 c.credential_expires_epoch_seconds c.secret
      → length c.secret ≡ 32
      → (bytes ≡ fields c) × WellTyped c × Short c
  joined bytes r1 r2 r3 r4 r5 c s1 s2 s3 s4 s5 s6 e = (
    rw (s1.0, s2.0, s3.0, s4.0, s5.0, s6.0) refl,
    record {
      id_bytes = s1.3;
      label_bytes = s2.3;
      host_bytes = s3.3;
      port_word = omega arith;
      latency_word = omega arith;
      expires_word = omega arith;
      secret_sized = e;
      secret_byte = s6.2;
    },
    omega arith,
  )

  read_fields-some :
      (bytes : List ℕ) (c : ReceiverConfig)
      → All IsByte bytes
      → read_fields platform bytes ≡ some c
      → (bytes ≡ fields c) × WellTyped c × Short c
  unfolding read_fields
  read_fields-some bytes c h e = elim (Option-cases (take_string bytes 36)) [
    | inl f ↦ absurd (ground arith)
    | inr ((id, r1), e1) ↦ elim (Option-cases (take_string r1 192)) [
      | inl f ↦ absurd (ground arith)
      | inr ((label, r2), e2) ↦
          elim (Option-cases (take_string r2 (platform.inet_addrstrlen - 1))) [
            | inl f ↦ absurd (ground arith)
            | inr ((host, r3), e3) ↦ elim (Option-cases (take_u16 r3)) [
              | inl f ↦ absurd (ground arith)
              | inr ((port, r4), e4) ↦ elim (Option-cases (take_u16 r4)) [
                | inl f ↦ absurd (ground arith)
                | inr ((latency, r5), e5) ↦ elim (Option-cases (take_u64 r5)) [
                  | inl f ↦ absurd (ground arith)
                  | inr ((expires, secret), e6) ↦
                      let s1 = take_string-Split bytes 36 id r1 h e1 in
                      let s2 = take_string-Split r1 192 label r2 s1.4 e2 in
                      let s3 =
                        take_string-Split r2 (platform.inet_addrstrlen - 1) host r3 s2.4 e3 in
                      let s4 = take_u16-Split r3 port r4 s3.4 e4 in
                      let s5 = take_u16-Split r4 latency r5 s4.2 e5 in
                      let s6 = take_u64-Split r5 expires secret s5.2 e6 in
                      let sized : length secret ≡ 32 = ground arith in
                      let c' : ReceiverConfig = record {
                        receiver_id = id;
                        label = label;
                        host = host;
                        port = port;
                        latency_ms = latency;
                        credential_expires_epoch_seconds = expires;
                        secret = secret;
                      } in
                      let same : c' ≡ c = ground arith in
                      rw (← same) (joined bytes r1 r2 r3 r4 r5 c' s1 s2 s3 s4 s5 s6 sized)
                ]
              ]
            ]
          ]
    ]
  ]

  -- A successful call has found the magic, the version, the fields and a valid configuration.
  deserialize_config-some :
      (bytes : List ℕ) (now : ℕ) (c : ReceiverConfig) (error : ConfigError)
      → deserialize_config platform bytes now ≡ (some c, error)
      → (rest : List ℕ) × (bytes ≡ plain_magic ++ format_version ∷ rest)
        × (read_fields platform rest ≡ some c)
        × (validate_config platform c now ≡ ConfigError.no_error)
  unfolding deserialize_config
  deserialize_config-some [] now c error h = absurd (ground arith)
  deserialize_config-some (m ∷ []) now c error h = absurd (ground arith)
  deserialize_config-some (m ∷ n ∷ []) now c error h = absurd (ground arith)
  deserialize_config-some (m ∷ n ∷ o ∷ []) now c error h = absurd (ground arith)
  deserialize_config-some (m ∷ n ∷ o ∷ q ∷ []) now c error h = absurd (ground arith)
  deserialize_config-some (m ∷ n ∷ o ∷ q ∷ v ∷ rest) now c error h =
      (rest, ground arith, ground arith, ground arith)

  -- Whatever bytes are accepted are exactly those that storing the result would write, and the result
  -- is a valid configuration of the right types: no two files stand for one configuration.
  pub serialize_config-deserialize_config :
      (bytes : List ℕ) (now : ℕ) (c : ReceiverConfig) (error : ConfigError)
      → All IsByte bytes
      → deserialize_config platform bytes now ≡ (some c, error)
      → (serialize_config c ≡ bytes) × WellTyped c × Valid platform c now
  serialize_config-deserialize_config bytes now c error h e =
      let (rest, shape, reads, valid) = deserialize_config-some bytes now c error e in
      let (whole, typed, short) = read_fields-some rest c (rest_IsByte bytes rest h shape) reads in
      (
        serialize_config-fields c short ∙ rw (shape, whole) refl,
        typed,
        (validate_config-Valid platform c now).0 valid,
      )
