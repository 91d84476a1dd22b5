-- ===== src/Receiver/Config/Valid.antt =====
-- What `validate_config` accepts.
use android2pc_stream.Prelude.{
  ℕ, ◌+◌, ◌-◌, ◌≤◌, ◌<◌, ◌≡◌, ◌↔◌, true, some, List, length, arith, Option-cases, inl, inr,
  list_eqb→eq,
}
use android2pc_stream.Prelude.Bits.{shr, low}
use android2pc_stream.Platform.{Platform, NtopFits}
use android2pc_stream.Receiver.Config.{
  ReceiverConfig, ConfigError, is_canonical_uuid, valid_utf8_label, is_canonical_private_ipv4,
  is_private_octets, validate_config, maximum_credential_lifetime_seconds,
}

module _ (platform : Platform) where
  -- The configuration may be used at the time `now`.
  pub record Valid (c : ReceiverConfig) (now : ℕ) : Type 0 where
    pub id_valid : is_canonical_uuid c.receiver_id ≡ true
    pub label_valid : valid_utf8_label platform c.label ≡ true
    pub host_valid : is_canonical_private_ipv4 platform c.host ≡ true
    pub port_valid : 1024 ≤ c.port
    pub latency_least : 60 ≤ c.latency_ms
    pub latency_most : c.latency_ms ≤ 2000
    pub not_expired : now < c.credential_expires_epoch_seconds
    pub not_too_long :
        c.credential_expires_epoch_seconds ≤ now + maximum_credential_lifetime_seconds

  -- `validate_config` reports no error exactly for the identifiers, labels and hosts that their own
  -- tests accept, a port from 1024 on, a latency from 60 to 2000 ms, and an expiry after `now` and at
  -- most 366 days after it.
  pub validate_config-Valid :
      (c : ReceiverConfig) (now : ℕ)
      → (validate_config platform c now ≡ ConfigError.no_error) ↔ Valid c now
  unfolding validate_config
  validate_config-Valid c now = (λ h. ground arith, λ v. ground arith)

  pub uuid-length : (id : List ℕ) → is_canonical_uuid id ≡ true → length id ≡ 36
  unfolding is_canonical_uuid
  uuid-length id h = ground arith

  pub label-length : (label : List ℕ) → valid_utf8_label platform label ≡ true → length label ≤ 192
  unfolding valid_utf8_label
  label-length label h = ground arith

  -- A host that passes is the text that the platform prints for a private or link-local address.
  pub host_address :
      (host : List ℕ)
      → is_canonical_private_ipv4 platform host ≡ true
      → (address : ℕ) × (platform.inet_pton host ≡ some address)
        × (platform.inet_ntop address ≡ some host)
        × (is_private_octets (low (shr address 24) 8) (low (low (shr address 16) 8) 8) ≡ true)
  unfolding is_canonical_private_ipv4
  host_address host h = elim (Option-cases (platform.inet_pton host)) [
    | inl e ↦ absurd (ground arith)
    | inr (address, e) ↦ elim (Option-cases (platform.inet_ntop address)) [
      | inl f ↦ absurd (ground arith)
      | inr (canonical, f) ↦
          let same : host ≡ canonical = list_eqb→eq host canonical (ground arith) in
          (address, e, rw same f, ground arith)
    ]
  ]

  pub host-length :
      (host : List ℕ)
      → NtopFits platform
      → is_canonical_private_ipv4 platform host ≡ true
      → length host ≤ platform.inet_addrstrlen - 1
  host-length host fits h =
      let (address, found, printed, octets) = host_address host h in
      omega (arith, fits.1 address host printed)
