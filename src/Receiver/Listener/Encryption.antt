-- ===== src/Receiver/Listener/Encryption.antt =====
-- verify_encryption and the device label of the accepted socket.
use android2pc_stream.Prelude.{
  ℕ, ◌-◌, ◌<◌, ◌≡◌, ◌↔◌, Bool, true, false, not, ◌&&◌, ◌||◌, Option, none, some, List, [], ◌∷◌,
  take, get_or, leb, ◌==◌, if◌then◌else◌, arith, Bool-cases, inl, inr,
}
use android2pc_stream.Receiver.StreamId.{parse_device_stream_id}

abbrev pub aes_gcm_mode : ℕ
aes_gcm_mode = 2

-- One round of the loop: the two key-exchange states, or none where the socket gives no answer.
abbrev pub Poll : Type 0
Poll = Option (ℕ × ℕ)

-- What the machine reads of the answers to SRTO_STREAMID: an error, or the length and the buffer of 55
-- bytes.
unfoldable pub label_of_buffer : Option (ℕ × List ℕ) → Option (List ℕ)
label_of_buffer none = none
label_of_buffer (some (size, buffer)) =
    if size == 0 || leb 55 size
    then none
    else parse_device_stream_id
        (take (if get_or buffer (size - 1) 0 == 0 then size - 1 else size) buffer)

-- SRT's numbers for the key-exchange states; the loop compares with `>=`, so they are ordered.
module _ (km_secured km_nosecret : ℕ) where
  -- The loop over the rounds that come before the deadline and before a stop.
  unfoldable pub verify_loop : List Poll → Bool
  verify_loop [] = false
  verify_loop (none ∷ polls) = false
  verify_loop (some (sender, receiver) ∷ polls) =
      let rest = verify_loop polls in
      if sender == km_secured && receiver == km_secured
      then true
      else if leb km_nosecret sender || leb km_nosecret receiver
      then false
      else rest

  unfoldable pub verify_encryption : Option ℕ → List Poll → Bool
  unfolding verify_loop
  verify_encryption none polls = false
  verify_encryption (some crypto_mode) polls =
      if not (crypto_mode == aes_gcm_mode) then false else verify_loop polls

  -- A round in which both sides are secured, after rounds in which neither had failed.
  pub data Secured : List Poll → Type 0 where
    here : (polls : List Poll) → Secured (some (km_secured, km_secured) ∷ polls)
    later :
        (sender receiver : ℕ) (polls : List Poll)
        → sender < km_nosecret
        → receiver < km_nosecret
        → Secured polls
        → Secured (some (sender, receiver) ∷ polls)

  verify_loop-Secured : (polls : List Poll) → verify_loop polls ≡ true → Secured polls
  unfolding verify_loop
  verify_loop-Secured [] h = cc
  verify_loop-Secured (none ∷ polls) h = cc
  verify_loop-Secured (some (sender, receiver) ∷ polls) h =
      elim (Bool-cases (sender == km_secured && receiver == km_secured)) [
        | inl both ↦
            let sender_is : sender ≡ km_secured = ground arith in
            let receiver_is : receiver ≡ km_secured = ground arith in
            rw (sender_is, receiver_is) (Secured.here polls)
        | inr not_yet ↦
            Secured.later sender receiver polls (ground arith) (ground arith)
              (verify_loop-Secured polls (ground arith))
      ]

  Secured-verify_loop :
      (polls : List Poll) → km_secured < km_nosecret → Secured polls → verify_loop polls ≡ true
  unfolding verify_loop
  Secured-verify_loop _ h (Secured.here polls) = ground arith
  Secured-verify_loop _ h (Secured.later sender receiver polls s r rest) =
      ground (arith, Secured-verify_loop polls h rest)

  -- Where SRT numbers the secured state below the failed ones: a connection passes exactly when
  -- its mode is AES-GCM and, before the deadline, both sides report a secured key exchange, with
  -- no failure reported before.
  pub verify_encryption_iff :
      (crypto_mode : ℕ) (polls : List Poll)
      → km_secured < km_nosecret
      → (verify_encryption (some crypto_mode) polls ≡ true)
        ↔ (crypto_mode ≡ aes_gcm_mode) × Secured polls
  unfolding verify_encryption
  verify_encryption_iff crypto_mode polls h = (
    λ e. (ground arith, verify_loop-Secured polls (ground arith)),
    λ (e, s). ground (arith, Secured-verify_loop polls h s),
  )
