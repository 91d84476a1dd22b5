-- ===== src/Receiver/Link/Fresh.antt =====
-- generate_config: which settings it takes, and what it makes of them.
use android2pc_stream.Prelude.{
  ℕ, ◌+◌, ◌*◌, ◌^◌, ◌≤◌, ◌<◌, ◌≡◌, refl, sym, ap, ◌∙◌, ◌↔◌, inl, inr, true, Option, none, some,
  List, if◌then◌else◌, arith, Bool-cases,
}
use android2pc_stream.Platform.{Platform}
use android2pc_stream.Receiver.Config.{
  ReceiverConfig, validate_config, is_no_error, is_canonical_uuid, valid_utf8_label,
  is_canonical_private_ipv4,
}
use android2pc_stream.Receiver.Config.Valid.{Valid, validate_config-Valid}
use android2pc_stream.Receiver.Link.{generate_config, default_expiry}
use android2pc_stream.Receiver.Link.Reading.{is_no_error-eq}
use android2pc_stream.Receiver.Pairing.{new_uuid}

module _ (platform : Platform) (label host : List ℕ) (port latency_ms now : ℕ) where
  -- Settings that the pairing window may pass on.
  pub record Usable : Type 0 where
    pub label_valid : valid_utf8_label platform label ≡ true
    pub host_valid : is_canonical_private_ipv4 platform host ≡ true
    pub port_valid : 1024 ≤ port
    pub latency_least : 60 ≤ latency_ms
    pub latency_most : latency_ms ≤ 2000

  -- The configuration that is made.
  abbrev pub fresh_config : Option (List ℕ) → List ℕ → ReceiverConfig
  fresh_config uuid_bytes secret = record {
    receiver_id = new_uuid uuid_bytes;
    label = label;
    host = host;
    port = port;
    latency_ms = latency_ms;
    credential_expires_epoch_seconds = now + 30 * 24 * 60 * 60;
    secret = secret;
  }

  Usable-Valid :
      (uuid_bytes : Option (List ℕ)) (secret : List ℕ)
      → is_canonical_uuid (new_uuid uuid_bytes) ≡ true
      → Usable
      → Valid platform (fresh_config uuid_bytes secret) now
  Usable-Valid uuid_bytes secret h u = record {
    id_valid = h;
    label_valid = u.label_valid;
    host_valid = u.host_valid;
    port_valid = u.port_valid;
    latency_least = u.latency_least;
    latency_most = u.latency_most;
    not_expired = omega arith;
    not_too_long = omega arith;
  }

  generate_config-fresh_config :
      (uuid_bytes : Option (List ℕ)) (bytes : List ℕ)
      → now + 30 * 24 * 60 * 60 < 2 ^ 64
      → generate_config platform label host port latency_ms now uuid_bytes (some bytes) ≡ (
          if is_no_error (validate_config platform (fresh_config uuid_bytes bytes) now)
          then some (fresh_config uuid_bytes bytes)
          else none)
  unfolding generate_config
  generate_config-fresh_config uuid_bytes bytes room =
      let expiry : default_expiry now ≡ now + 30 * 24 * 60 * 60 = omega arith in rw expiry refl

  generate_config-none :
      (uuid_bytes : Option (List ℕ))
      → generate_config platform label host port latency_ms now uuid_bytes none ≡ none
  unfolding generate_config
  generate_config-none uuid_bytes = refl

  -- Where the time leaves room for thirty days in 64 bits, and the identifier's random bytes make a canonical
  -- one: settings make a configuration exactly when the label, the host, the port and the latency are usable
  -- and the generator gives a secret. It is then valid, with those settings, and for thirty days.
  pub generate_config_iff :
      (uuid_bytes secret : Option (List ℕ)) (c : ReceiverConfig)
      → now + 30 * 24 * 60 * 60 < 2 ^ 64
      → is_canonical_uuid (new_uuid uuid_bytes) ≡ true
      → (generate_config platform label host port latency_ms now uuid_bytes secret ≡ some c) ↔ (
          Usable
          × ((bytes : List ℕ) × (secret ≡ some bytes) × (c ≡ fresh_config uuid_bytes bytes))
          × Valid platform c now)
  generate_config_iff uuid_bytes none c room canonical =
      (λ h. cc (generate_config-none uuid_bytes), λ (u, (bytes, e, f), v). cc)
  generate_config_iff uuid_bytes (some bytes) c room canonical =
      let made = fresh_config uuid_bytes bytes in
      let run = generate_config-fresh_config uuid_bytes bytes room in
      (
        λ h. elim (Bool-cases (is_no_error (validate_config platform made now))) [
          | inl e ↦
              let v = (validate_config-Valid platform made now).0 (is_no_error-eq _ e) in
              let same : c ≡ made = cc (h, rw e at run) in
              (
                record {
                  label_valid = v.label_valid;
                  host_valid = v.host_valid;
                  port_valid = v.port_valid;
                  latency_least = v.latency_least;
                  latency_most = v.latency_most;
                },
                (bytes, refl, same),
                rw same v,
              )
          | inr e ↦ cc (h, rw e at run)
        ],
        λ (u, (other, e, f), v).
            let same : c ≡ made = cc in
            let ok =
              (validate_config-Valid platform made now).1
                (Usable-Valid uuid_bytes bytes canonical u) in
            run ∙ rw ok (ap (λ x. some x) (sym same)),
      )
