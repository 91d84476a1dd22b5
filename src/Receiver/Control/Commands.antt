-- ===== src/Receiver/Control/Commands.antt =====
-- Which bytes are which control message.
use android2pc_stream.Prelude.{
  ℕ, ◌≤◌, ◌≡◌, refl, sym, ap, ◌∙◌, ◌↔◌, true, false, none, some, List, [], ◌∷◌, ◌++◌, length,
  length-drop, drop, starts_with, list_eqb→eq, codes, arith,
}
use android2pc_stream.Receiver.StreamId.Labels.{starts_with-split}
use android2pc_stream.Receiver.Control.{
  PairingReceiverState, control_prefix, show_qr_command, state_value, state_of,
  receiver_status_command, is_show_qr_command, parse_receiver_status_command,
}

command_parses :
    (s : PairingReceiverState) → parse_receiver_status_command (receiver_status_command s) ≡ some s
unfolding parse_receiver_status_command receiver_status_command
command_parses PairingReceiverState.stopped = refl
command_parses PairingReceiverState.waiting_for_pairing = refl
command_parses PairingReceiverState.listening = refl
command_parses PairingReceiverState.authenticating = refl
command_parses PairingReceiverState.streaming = refl
command_parses PairingReceiverState.reconnecting = refl
command_parses PairingReceiverState.failed = refl

state_value-state_of : (raw : ℕ) → raw ≤ 6 → state_value (state_of raw) ≡ raw
state_value-state_of raw h = ground arith

-- The four bytes behind the prefix.
parsed_rest :
    (rest : List ℕ) (s : PairingReceiverState)
    → length rest ≡ 4
    → parse_receiver_status_command (control_prefix ++ rest) ≡ some s
    → rest ≡ codes "STA" ++ state_value s ∷ []
unfolding parse_receiver_status_command
parsed_rest [] s e h = absurd (omega arith)
parsed_rest (a ∷ []) s e h = absurd (omega arith)
parsed_rest (a ∷ b ∷ []) s e h = absurd (omega arith)
parsed_rest (a ∷ b ∷ c ∷ []) s e h = absurd (omega arith)
parsed_rest (a ∷ b ∷ c ∷ d ∷ x ∷ rest) s e h = absurd (omega arith)
parsed_rest (a ∷ b ∷ c ∷ d ∷ []) s e h =
    let (a_is, b_is, c_is, small, state) = four in
    rw (a_is, b_is, c_is, ← state, state_value-state_of d small) refl
  where
    four : (a ≡ 83) × (b ≡ 84) × (c ≡ 65) × (d ≤ 6) × (state_of d ≡ s)
    four = ground arith

parsed_length :
    (bytes : List ℕ) (s : PairingReceiverState)
    → parse_receiver_status_command bytes ≡ some s
    → (length bytes ≡ 12) × (starts_with bytes control_prefix ≡ true)
unfolding parse_receiver_status_command
parsed_length bytes s h = ground arith

-- A message is a status message exactly when it is the command of a state, and it then names that state.
pub parse_receiver_status_command_iff :
    (bytes : List ℕ) (s : PairingReceiverState)
    → (parse_receiver_status_command bytes ≡ some s) ↔ (bytes ≡ receiver_status_command s)
unfolding receiver_status_command
parse_receiver_status_command_iff bytes s = (parsed, λ e. rw e (command_parses s))
  where
    parsed : parse_receiver_status_command bytes ≡ some s → bytes ≡ receiver_status_command s
    parsed h =
        let (sized, front) = parsed_length bytes s h in
        let split = starts_with-split bytes control_prefix front in
        split
        ∙ ap (λ (rest : List ℕ). control_prefix ++ rest)
            (parsed_rest (drop (length control_prefix) bytes) s
              (omega (arith, length-drop (length control_prefix) bytes))
              (sym (ap parse_receiver_status_command split) ∙ h))

status_is_not_show_qr :
    (s : PairingReceiverState) → is_show_qr_command (receiver_status_command s) ≡ false
unfolding is_show_qr_command receiver_status_command
status_is_not_show_qr s = ground arith

-- The two kinds of message exclude each other: `is_show_qr_command` answers true for one message only,
-- and no message that it takes is a status message.
pub is_show_qr_command_iff :
    (bytes : List ℕ)
    → ((is_show_qr_command bytes ≡ true) ↔ (bytes ≡ show_qr_command))
      × ((is_show_qr_command bytes ≡ true) → parse_receiver_status_command bytes ≡ none)
unfolding is_show_qr_command parse_receiver_status_command
is_show_qr_command_iff bytes = (
  (λ h. list_eqb→eq bytes show_qr_command (ground arith), λ e. rw e refl),
  λ h. rw (list_eqb→eq bytes show_qr_command (ground arith)) refl,
)
