-- ===== src/Receiver/Listener/Options.antt =====
-- The options that SrtListener::run sets on its listening socket.
use android2pc_stream.Prelude.{Bool, true, List, [], ◌∷◌, ◌&&◌}
use android2pc_stream.Prelude.Int.{pos}
use android2pc_stream.Base64.{base64url}
use android2pc_stream.Srt.{SocketOption, OptionValue, Setting, set_options}
use android2pc_stream.Receiver.Config.{ReceiverConfig}
use android2pc_stream.Receiver.Listener.Encryption.{aes_gcm_mode}

unfoldable pub listener_settings : ReceiverConfig → List Setting
listener_settings config =
    (SocketOption.transtype, OptionValue.live_mode)
    ∷ (SocketOption.tsbpdmode, OptionValue.flag true)
    ∷ (SocketOption.messageapi, OptionValue.flag true)
    ∷ (SocketOption.rcvsyn, OptionValue.flag true)
    ∷ (SocketOption.payloadsize, OptionValue.number (pos 1316))
    ∷ (SocketOption.latency, OptionValue.number (pos config.latency_ms))
    ∷ (SocketOption.peerlatency, OptionValue.number (pos config.latency_ms))
    ∷ (SocketOption.rcvtimeo, OptionValue.number (pos 1000))
    ∷ (SocketOption.peeridletimeo, OptionValue.number (pos 5000))
    ∷ (SocketOption.minversion, OptionValue.version 1 5 6)
    ∷ (SocketOption.pbkeylen, OptionValue.number (pos 32))
    ∷ (SocketOption.enforcedencryption, OptionValue.flag true)
    ∷ (SocketOption.cryptomode, OptionValue.number (pos aes_gcm_mode))
    ∷ (SocketOption.passphrase, OptionValue.text (base64url config.secret))
    ∷ []

-- The answer that a setup of the listener's thread reads; `created` says that there is a socket.
unfoldable pub configured : Bool → (SocketOption → Bool) → ReceiverConfig → Bool
configured created accepts config = created && (set_options accepts (listener_settings config)).1
