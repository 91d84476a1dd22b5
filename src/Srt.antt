-- ===== src/Srt.antt =====
-- The socket options of SRT that mobile/app/src/main/cpp/native_sender.cpp and pc/src/srt_listener.cpp set, and
-- the chain of calls in which both set them.
use android2pc_stream.Prelude.{
  ℕ, ◌≡◌, refl, ap, inl, inr, Bool, true, false, Option, none, some, List, [], ◌∷◌, ◌==◌,
  if◌then◌else◌, arith, Bool-cases,
}
use android2pc_stream.Prelude.Int.{ℤ}

pub data SocketOption : Type 0 where
  transtype sender tsbpdmode messageapi sndsyn rcvsyn payloadsize latency peerlatency conntimeo
        sndtimeo rcvtimeo peeridletimeo minversion pbkeylen enforcedencryption cryptomode streamid
        passphrase :
      SocketOption

-- `live_mode` is SRTT_LIVE, `version` is SRT_MAKE_VERSION.
pub data OptionValue : Type 0 where
  live_mode : OptionValue
  flag : Bool → OptionValue
  number : ℤ → OptionValue
  version : ℕ → ℕ → ℕ → OptionValue
  text : List ℕ → OptionValue

abbrev pub Setting : Type 0
Setting = SocketOption × OptionValue

-- The calls end with the first that fails: the settings that were made, and whether that is all of them.
unfoldable pub set_options : (SocketOption → Bool) → List Setting → List Setting × Bool
set_options accepts [] = ([], true)
set_options accepts ((option, value) ∷ rest) =
    let (set, all_set) = set_options accepts rest in
    if accepts option then ((option, value) ∷ set, all_set) else ([], false)

pub set_options-all :
    (accepts : SocketOption → Bool) (settings : List Setting)
    → (set_options accepts settings).1 ≡ true
    → (set_options accepts settings).0 ≡ settings
unfolding set_options
set_options-all accepts [] h = refl
set_options-all accepts ((option, value) ∷ rest) h = elim (Bool-cases (accepts option)) [
  | inl e ↦ rw e (
      ap (λ (s : List Setting). (option, value) ∷ s)
        (set_options-all accepts rest (ground (arith, e, h))))
  | inr e ↦ absurd (ground (arith, e, h))
]

-- To tell options apart.
abbrev index_of : SocketOption → ℕ
index_of SocketOption.transtype = 0
index_of SocketOption.sender = 1
index_of SocketOption.tsbpdmode = 2
index_of SocketOption.messageapi = 3
index_of SocketOption.sndsyn = 4
index_of SocketOption.rcvsyn = 5
index_of SocketOption.payloadsize = 6
index_of SocketOption.latency = 7
index_of SocketOption.peerlatency = 8
index_of SocketOption.conntimeo = 9
index_of SocketOption.sndtimeo = 10
index_of SocketOption.rcvtimeo = 11
index_of SocketOption.peeridletimeo = 12
index_of SocketOption.minversion = 13
index_of SocketOption.pbkeylen = 14
index_of SocketOption.enforcedencryption = 15
index_of SocketOption.cryptomode = 16
index_of SocketOption.streamid = 17
index_of SocketOption.passphrase = 18

-- What an option was first set to.
unfoldable pub look_up : SocketOption → List Setting → Option OptionValue
look_up option [] = none
look_up option ((other, value) ∷ rest) =
    let later = look_up option rest in
    if index_of option == index_of other then some value else later
