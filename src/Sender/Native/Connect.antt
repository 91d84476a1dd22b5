-- ===== src/Sender/Native/Connect.antt =====
-- NativeSender::connect_socket: the options that are set on a new socket, and how the attempt ends.
use android2pc_stream.Prelude.{
  ℕ, ◌*◌, ◌/◌, ◌<◌, ◌≡◌, ◌≢◌, refl, sym, ap, ◌∙◌, inl, inr, Bool, true, false, not, Option, none,
  some, List, [], ◌∷◌, ◌++◌, drop, ltb, if◌then◌else◌, arith, Option-cases, if_ind,
}
use android2pc_stream.Prelude.Int.{ℤ, pos, negsuc}
use android2pc_stream.Platform.{Platform}
use android2pc_stream.Base64.{base64url}
use android2pc_stream.Receiver.Listener.Encryption.{
  Poll, Secured, verify_encryption, verify_encryption_iff, aes_gcm_mode,
}
use android2pc_stream.Srt.{SocketOption, OptionValue, Setting, set_options, set_options-all}
use android2pc_stream.Receiver.StreamId.{device_stream_id_prefix}
use android2pc_stream.Sender.Native.Config.{SenderConfig, stream_id}
use android2pc_stream.Sender.Native.Worker.{Attempt, payload_bytes}

-- `std::max(kSendTimeoutMilliseconds, latency * 3 / 2)`.
abbrev pub send_timeout : ℤ → ℤ
send_timeout (pos n) = pos (if ltb 1500 (n * 3 / 2) then n * 3 / 2 else 1500)
send_timeout (negsuc n) = pos 1500

-- The settings in the order of the calls.
unfoldable pub settings_of : Platform → SenderConfig → List Setting
settings_of platform config =
    (SocketOption.transtype, OptionValue.live_mode)
    ∷ (SocketOption.sender, OptionValue.flag true)
    ∷ (SocketOption.tsbpdmode, OptionValue.flag true)
    ∷ (SocketOption.messageapi, OptionValue.flag true)
    ∷ (SocketOption.sndsyn, OptionValue.flag true)
    ∷ (SocketOption.payloadsize, OptionValue.number (pos payload_bytes))
    ∷ (SocketOption.latency, OptionValue.number config.latency_milliseconds)
    ∷ (SocketOption.peerlatency, OptionValue.number config.latency_milliseconds)
    ∷ (SocketOption.conntimeo, OptionValue.number (pos 3000))
    ∷ (SocketOption.sndtimeo, OptionValue.number (send_timeout config.latency_milliseconds))
    ∷ (SocketOption.peeridletimeo, OptionValue.number (pos 5000))
    ∷ (SocketOption.minversion, OptionValue.version 1 5 6)
    ∷ (SocketOption.pbkeylen, OptionValue.number (pos 32))
    ∷ (SocketOption.enforcedencryption, OptionValue.flag true)
    ∷ (SocketOption.cryptomode, OptionValue.number (pos aes_gcm_mode))
    ∷ (SocketOption.streamid, OptionValue.text (stream_id platform config))
    ∷ (SocketOption.passphrase, OptionValue.text (base64url config.secret))
    ∷ []

-- What the calls of one attempt answer: whether there is a socket, the options that it takes, whether it
-- connects, and the answers that verify_encryption reads.
pub record Answers : Type 0 where
  pub created : Bool
  pub accepts : SocketOption → Bool
  pub connects : Bool
  pub crypto_mode : Option ℕ
  pub polls : List Poll

-- An attempt, with the settings of its socket, and whether the socket was closed.
pub record Connection : Type 0 where
  pub attempt : Attempt
  pub settings : List Setting
  pub closed : Bool

module _ (platform : Platform) (km_secured km_nosecret : ℕ) where
  -- The sender's own copy of `verify_encryption`; its polls end at its deadline and at a stop.
  abbrev pub sender_verifies : Answers → Bool
  sender_verifies answers =
      verify_encryption km_secured km_nosecret answers.crypto_mode answers.polls

  abbrev pub reaches : SenderConfig → Answers → Bool
  reaches config answers = elim (platform.inet_pton config.host) [
    | none ↦ false
    | some address ↦ answers.connects
  ]

  -- What follows the options.
  unfoldable pub connect_configured : SenderConfig → Answers → List Setting × Bool → Connection
  connect_configured config answers (settings, configured) =
      if not configured
      then record { attempt = Attempt.not_configured; settings = settings; closed = true }
      else if not (reaches config answers)
      then record { attempt = Attempt.not_connected; settings = settings; closed = true }
      else if not (sender_verifies answers)
      then record { attempt = Attempt.not_encrypted; settings = settings; closed = true }
      else record { attempt = Attempt.made; settings = settings; closed = false }

  unfoldable pub connect_socket : SenderConfig → Answers → Connection
  unfolding set_options connect_configured
  connect_socket config answers =
      if not answers.created
      then record { attempt = Attempt.no_socket; settings = []; closed = false }
      else connect_configured config answers
          (set_options answers.accepts (settings_of platform config))

  -- How a socket is left.
  pub record Safe (config : SenderConfig) (answers : Answers) (c : Connection) : Type 0 where
    pub all_set : c.attempt ≡ Attempt.made → c.settings ≡ settings_of platform config
    pub last_set :
        c.attempt ≡ Attempt.made
        → drop 12 c.settings
          ≡ (SocketOption.pbkeylen, OptionValue.number (pos 32))
            ∷ (SocketOption.enforcedencryption, OptionValue.flag true)
            ∷ (SocketOption.cryptomode, OptionValue.number (pos 2))
            ∷ (
              SocketOption.streamid,
              OptionValue.text (device_stream_id_prefix ++ config.device_name),
            )
            ∷ (SocketOption.passphrase, OptionValue.text (base64url config.secret))
            ∷ []
    pub mode : c.attempt ≡ Attempt.made → answers.crypto_mode ≡ some aes_gcm_mode
    pub secured : c.attempt ≡ Attempt.made → Secured km_secured km_nosecret answers.polls
    pub kept_open : c.attempt ≡ Attempt.made → c.closed ≡ false
    pub no_leak : c.attempt ≢ Attempt.made → answers.created ≡ true → c.closed ≡ true

  verified :
      (answers : Answers)
      → km_secured < km_nosecret
      → sender_verifies answers ≡ true
      → (answers.crypto_mode ≡ some aes_gcm_mode) × Secured km_secured km_nosecret answers.polls
  unfolding verify_encryption
  verified answers h v = elim (Option-cases answers.crypto_mode) [
    | inl e ↦ absurd (ground (arith, e, v))
    | inr (mode, e) ↦
        let (is_gcm, secured) =
          (verify_encryption_iff km_secured km_nosecret mode answers.polls h).0 (
            ap (λ (m : Option ℕ). verify_encryption km_secured km_nosecret m answers.polls) (sym e)
            ∙ v) in
        (e ∙ ap (λ (m : ℕ). some m) is_gcm, secured)
  ]

  refused-Safe :
      (config : SenderConfig) (answers : Answers) (c : Connection)
      → c.attempt ≢ Attempt.made
      → (answers.created ≡ true → c.closed ≡ true)
      → Safe config answers c
  refused-Safe config answers c failed closes = record {
    all_set = λ f. absurd (failed f);
    last_set = λ f. absurd (failed f);
    mode = λ f. absurd (failed f);
    secured = λ f. absurd (failed f);
    kept_open = λ f. absurd (failed f);
    no_leak = λ f. closes;
  }

  connect_configured-Safe :
      (config : SenderConfig) (answers : Answers) (set : List Setting × Bool)
      → (set.1 ≡ true → set.0 ≡ settings_of platform config)
      → km_secured < km_nosecret
      → Safe config answers (connect_configured config answers set)
  unfolding connect_configured settings_of stream_id
  connect_configured-Safe config answers (settings, false) all h =
      refused-Safe config answers _ (λ f. cc) (λ f. refl)
  connect_configured-Safe config answers (settings, true) all h =
      if_ind (Safe config answers) (not (reaches config answers)) _ _
        (λ e. refused-Safe config answers _ (λ f. cc) (λ f. refl))
        (λ e.
          if_ind (Safe config answers) (not (sender_verifies answers)) _ _
            (λ f. refused-Safe config answers _ (λ g. cc) (λ g. refl))
            (λ f.
              let (mode, secured) = verified answers h (ground arith) in
              record {
                all_set = λ g. all refl;
                last_set = λ g. ap (λ (s : List Setting). drop 12 s) (all refl);
                mode = λ g. mode;
                secured = λ g. secured;
                kept_open = λ g. refl;
                no_leak = λ g k. absurd (g refl);
              }))

  -- Where SRT numbers the secured state below the failed ones: an attempt that succeeds has set every
  -- option of the source on its socket, the last five of them a key of 32 bytes, enforced encryption, AES-GCM
  -- mode, the stream id with the device's name and the secret's base64url text as passphrase; its mode was read back as AES-GCM and both sides
  -- reported a secured key exchange; and one that fails has closed the socket if there was one.
  pub connect_socket-Safe :
      (config : SenderConfig) (answers : Answers)
      → km_secured < km_nosecret
      → Safe config answers (connect_socket config answers)
  unfolding connect_socket
  connect_socket-Safe config answers h =
      let whole = set_options answers.accepts (settings_of platform config) in
      if_ind (Safe config answers) (not answers.created) _ _
        (λ e. refused-Safe config answers _ (λ f. cc) (λ f. cc))
        (λ e.
          connect_configured-Safe config answers whole
            (set_options-all answers.accepts (settings_of platform config)) h)
