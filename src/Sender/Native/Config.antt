-- ===== src/Sender/Native/Config.antt =====
-- SenderConfig, is_private_ipv4 and NativeSender::validate_config.
use android2pc_stream.Prelude.{
  ℕ, ◌/◌, ◌^◌, ◌<◌, ◌≡◌, refl, ◌↔◌, Bool, true, false, not, ◌&&◌, ◌||◌, none, some, List, [], ◌∷◌,
  ◌++◌, length, is_empty, ltb, ◌==◌, if◌then◌else◌, list_eqb, all, front_is, back_is, arith,
  Option-cases, inl, inr,
}
use android2pc_stream.Prelude.Bits.{low, shr}
use android2pc_stream.Prelude.Int.{ℤ, pos, ltb_ℤ, is_number}
use android2pc_stream.Platform.{Platform, PtonIsWord}
use android2pc_stream.Receiver.Config.{is_canonical_private_ipv4, is_private_octets}
use android2pc_stream.Receiver.StreamId.{
  is_label_character, is_safe_device_label, parse_device_stream_id, device_stream_id_prefix,
}
use android2pc_stream.Receiver.StreamId.Labels.{parse_device_stream_id_iff}
use android2pc_stream.Sender.Muxer.State.{VideoCodec}

pub record SenderConfig : Type 0 where
  pub host : List ℕ
  pub device_name : List ℕ
  pub port : ℕ
  pub secret : List ℕ
  pub latency_milliseconds : ℤ
  pub video_codec : VideoCodec
  pub audio_enabled : Bool
  pub audio_sample_rate : ℤ
  pub audio_channels : ℤ

-- `value & 0xFF000000` and the other masks keep the upper bits, so each comparison is one of quotients.
unfoldable pub is_private_word : ℕ → Bool
is_private_word value =
    value / 2 ^ 24 == 0x0A
    || value / 2 ^ 20 == 0xAC1
    || value / 2 ^ 16 == 0xC0A8
    || value / 2 ^ 16 == 0xA9FE

module _ (platform : Platform) where
  unfoldable pub is_private_ipv4 : List ℕ → Bool
  unfolding is_private_word
  is_private_ipv4 host = elim (platform.inet_pton host) [
    | none ↦ false
    | some value ↦ elim (platform.inet_ntop value) [
      | none ↦ false
      | some canonical ↦ if not (list_eqb host canonical) then false else is_private_word value
    ]
  ]

  -- The codec is one of the two enumerators, so its test always passes.
  unfoldable pub validate_config : SenderConfig → Bool
  validate_config config =
      if not (is_private_ipv4 config.host) || ltb config.port 1024
      then false
      else if is_empty config.device_name
          || ltb 48 (length config.device_name)
          || not (all is_label_character config.device_name)
      then false
      else if all (λ byte. byte == 0) config.secret
          || ltb_ℤ config.latency_milliseconds (pos 60)
          || ltb_ℤ (pos 2000) config.latency_milliseconds
      then false
      else if not config.audio_enabled
      then true
      else is_number config.audio_sample_rate 48000 && is_number config.audio_channels 1

  -- The stream id that `connect_socket` sets.
  unfoldable pub stream_id : SenderConfig → List ℕ
  stream_id config = device_stream_id_prefix ++ config.device_name

  private_word_octets :
      (value : ℕ)
      → value < 2 ^ 32
      → is_private_word value
        ≡ is_private_octets (low (shr value 24) 8) (low (low (shr value 16) 8) 8)
  unfolding is_private_word is_private_octets
  private_word_octets value h = ground arith

  -- Where `inet_pton` gives words of 32 bits, the sender's test of a host, by masks, and the
  -- receiver's, by octets, agree on every host that is not empty.
  pub is_private_ipv4-is_canonical_private_ipv4 :
      (host : List ℕ)
      → PtonIsWord platform
      → 0 < length host
      → is_private_ipv4 host ≡ is_canonical_private_ipv4 platform host
  unfolding is_private_ipv4 is_canonical_private_ipv4
  is_private_ipv4-is_canonical_private_ipv4 [] word h = absurd (omega arith)
  is_private_ipv4-is_canonical_private_ipv4 (c ∷ host) word h =
      elim (Option-cases (platform.inet_pton (c ∷ host))) [
        | inl e ↦ ground arith
        | inr (value, e) ↦ elim (Option-cases (platform.inet_ntop value)) [
          | inl f ↦ ground arith
          | inr (canonical, f) ↦ ground (arith, private_word_octets value (word (c ∷ host) value e))
        ]
      ]

  -- The receiver reads the stream id of a valid configuration as its device name exactly when the name
  -- neither begins nor ends with a space, which the sender does not test.
  pub parse_device_stream_id-stream_id :
      (config : SenderConfig)
      → validate_config config ≡ true
      → (parse_device_stream_id (stream_id config) ≡ some config.device_name)
        ↔ (front_is b' ' config.device_name ≡ false) × (back_is b' ' config.device_name ≡ false)
  unfolding validate_config stream_id is_safe_device_label
  parse_device_stream_id-stream_id config valid = (
    λ h.
        let (e, safe) = (parse_device_stream_id_iff _ config.device_name).0 h in
        (ground arith, ground arith),
    λ (front, back).
        (parse_device_stream_id_iff (device_stream_id_prefix ++ config.device_name)
            config.device_name).1
          (refl, ground arith),
  )
