-- ===== src/Agreement.antt =====
-- The phone and the PC after a pairing: native_sender.cpp, srt_listener.cpp and the link of credential_codec.cpp.
use android2pc_stream.Prelude.{ℕ, ◌≡◌, ◌≢◌, refl, ap, ◌∙◌, some, List, [], ◌∷◌, All}
use android2pc_stream.Prelude.Int.{pos}
use android2pc_stream.Platform.{Platform, NtopDotted}
use android2pc_stream.Srt.{SocketOption, OptionValue, look_up}
use android2pc_stream.Sender.Native.Config.{SenderConfig}
use android2pc_stream.Sender.Native.Connect.{settings_of}
use android2pc_stream.Receiver.Config.{ReceiverConfig, WellTyped}
use android2pc_stream.Receiver.Link.{build_pairing_payload}
use android2pc_stream.Receiver.Link.Reading.{
  read_link, payload-Showable, read_link-build_pairing_payload,
}
use android2pc_stream.Receiver.Listener.Options.{listener_settings}

-- The options that both ends set.
abbrev pub shared_options : List SocketOption
shared_options =
    SocketOption.transtype ∷ SocketOption.tsbpdmode ∷ SocketOption.messageapi
    ∷ SocketOption.payloadsize ∷ SocketOption.latency ∷ SocketOption.peerlatency
    ∷ SocketOption.peeridletimeo ∷ SocketOption.minversion ∷ SocketOption.pbkeylen
    ∷ SocketOption.enforcedencryption ∷ SocketOption.cryptomode ∷ SocketOption.passphrase ∷ []

module _ (platform : Platform) where
  -- Both ends set the option, and to one value.
  abbrev pub Agrees : SenderConfig → ReceiverConfig → SocketOption → Type 0
  Agrees s c option =
      (value : OptionValue) × (look_up option (settings_of platform s) ≡ some value)
      × (look_up option (listener_settings c) ≡ some value)

  same_settings :
      (s : SenderConfig) (c : ReceiverConfig)
      → s.secret ≡ c.secret
      → s.latency_milliseconds ≡ pos c.latency_ms
      → All (Agrees s c) shared_options
  unfolding look_up settings_of listener_settings
  same_settings s c secret latency =
      rw (secret, latency)
        (
          (_, refl, refl),
          (
            (_, refl, refl),
            (
              (_, refl, refl),
              (
                (_, refl, refl),
                (
                  (_, refl, refl),
                  (
                    (_, refl, refl),
                    (
                      (_, refl, refl),
                      (
                        (_, refl, refl),
                        (
                          (_, refl, refl),
                          ((_, refl, refl), ((_, refl, refl), ((_, refl, refl), tt))),
                        ),
                      ),
                    ),
                  ),
                ),
              ),
            ),
          ),
        )

  -- Where addresses print as numbers and dots: a reader of a link that was made of a well-typed configuration
  -- gets that configuration; and a sender that takes the secret and the latency from the link sets each option
  -- that both ends set, the passphrase included, to the same value as a listener with the configuration.
  pub read_link-Agrees :
      (c read : ReceiverConfig) (qr now expires : ℕ) (s : SenderConfig)
      → NtopDotted platform
      → WellTyped c
      → build_pairing_payload platform c qr now ≢ []
      → read_link (build_pairing_payload platform c qr now) ≡ some (read, expires)
      → s.secret ≡ read.secret
      → s.latency_milliseconds ≡ pos read.latency_ms
      → (read ≡ c) × All (Agrees s c) shared_options
  read_link-Agrees c read qr now expires s dotted typed shown link secret latency =
      let showable = payload-Showable platform c qr now shown in
      let whole = (read_link-build_pairing_payload platform c qr now dotted typed).0 showable in
      let same : read ≡ c = cc (link, whole) in
      (
        same,
        same_settings s c (secret ∙ ap (λ (r : ReceiverConfig). r.secret) same)
            (latency ∙ ap (λ (r : ReceiverConfig). pos r.latency_ms) same),
      )
