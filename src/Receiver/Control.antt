-- ===== src/Receiver/Control.antt =====
-- pc/include/local_camera_receiver/pairing_control_protocol.hpp and pairing_launch.hpp: the messages
-- between the OBS plugin and the pairing application, and the application's command line.
pub mod Commands
use android2pc_stream.Prelude.{
  ℕ, ◌+◌, ◌-◌, ◌<◌, ◌≡◌, ◌≢◌, refl, ap, ◌↔◌, Bool, true, false, not, ◌&&◌, ◌||◌, Option, none, some,
  List, [], ◌∷◌, ◌++◌, length, get_or, ltb, ◌==◌, if◌then◌else◌, codes, between, starts_with,
  list_eqb, list_eqb_self, list_eqb→eq, arith, map,
}

-- `L C R C`, the version and three zero bytes.
abbrev pub control_prefix : List ℕ
control_prefix = codes "LCRC" ++ 1 ∷ 0 ∷ 0 ∷ 0 ∷ []

abbrev pub show_qr_command : List ℕ
show_qr_command = control_prefix ++ codes "QR!" ++ 0 ∷ []

pub data PairingReceiverState : Type 0 where
  stopped waiting_for_pairing listening authenticating streaming reconnecting failed :
      PairingReceiverState

-- The enumerators' values, and the cast back of one that is in range.
abbrev pub state_value : PairingReceiverState → ℕ
state_value PairingReceiverState.stopped = 0
state_value PairingReceiverState.waiting_for_pairing = 1
state_value PairingReceiverState.listening = 2
state_value PairingReceiverState.authenticating = 3
state_value PairingReceiverState.streaming = 4
state_value PairingReceiverState.reconnecting = 5
state_value PairingReceiverState.failed = 6

abbrev pub state_of : ℕ → PairingReceiverState
state_of raw =
    if raw == 0
    then PairingReceiverState.stopped
    else if raw == 1
    then PairingReceiverState.waiting_for_pairing
    else if raw == 2
    then PairingReceiverState.listening
    else if raw == 3
    then PairingReceiverState.authenticating
    else if raw == 4
    then PairingReceiverState.streaming
    else if raw == 5
    then PairingReceiverState.reconnecting
    else PairingReceiverState.failed

unfoldable pub receiver_status_command : PairingReceiverState → List ℕ
receiver_status_command state = control_prefix ++ codes "STA" ++ state_value state ∷ []

unfoldable pub is_show_qr_command : List ℕ → Bool
is_show_qr_command bytes = length bytes == length show_qr_command && list_eqb bytes show_qr_command

unfoldable pub parse_receiver_status_command : List ℕ → Option PairingReceiverState
parse_receiver_status_command bytes =
    if not (length bytes == 12)
      || not (starts_with bytes control_prefix)
      || not (get_or bytes 8 0 == b'S')
      || not (get_or bytes 9 0 == b'T')
      || not (get_or bytes 10 0 == b'A')
    then none
    else if ltb (state_value PairingReceiverState.failed) (get_or bytes 11 0)
    then none
    else some (state_of (get_or bytes 11 0))

pub data PairingLaunchAction : Type 0 where
  no_action background show_qr : PairingLaunchAction

abbrev pub ascii_lower : ℕ → ℕ
ascii_lower value = if between b'A' b'Z' value then value + (b'a' - b'A') else value

abbrev pub ascii_iequals : List ℕ → List ℕ → Bool
ascii_iequals left right =
    if not (length left == length right)
    then false
    else list_eqb (map ascii_lower left) (map ascii_lower right)

unfoldable pub pairing_launch_action : List ℕ → PairingLaunchAction
pairing_launch_action argument =
    if ascii_iequals argument (codes "/background")
    then PairingLaunchAction.background
    else if ascii_iequals argument (codes "/show-qr")
    then PairingLaunchAction.show_qr
    else PairingLaunchAction.no_action
