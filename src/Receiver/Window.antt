-- ===== src/Receiver/Window.antt =====
-- pc/src/pairing_app.cpp: the pairing window, by the messages that it handles. The texts of its controls, the
-- clocks, the tray, the random generator and the file system are parameters, and so are the conversion to
-- UTF-8 and the QR encoder, of which only the text that it encodes is kept.
pub mod Messages
pub mod Told
pub mod Material
pub mod Secrets
pub mod Typed
pub mod Offer
pub mod Late
pub mod Controls
pub mod Restored
use android2pc_stream.Prelude.{
  ℕ, ◌+◌, ◌-◌, ◌*◌, ◌^◌, ◌%◌, Bool, true, false, not, ◌&&◌, ◌||◌, Option, none, some, List, [], ◌∷◌,
  ◌++◌, length, is_empty, ltb, leb, ◌==◌, if◌then◌else◌, codes, between, list_eqb,
}
use android2pc_stream.Platform.{Platform}
use android2pc_stream.Receiver.Config.{
  ReceiverConfig, minimum_latency_ms, maximum_latency_ms, is_no_error, validate_config,
}
use android2pc_stream.Receiver.Store.{
  Disk, Dpapi, WriteOutcome, save_config_dpapi, load_config_dpapi,
}
use android2pc_stream.Receiver.Link.{generate_config, build_pairing_payload, to_string}
use android2pc_stream.Receiver.Network.{NetworkAddress, saved_network_index}
use android2pc_stream.Receiver.Control.{
  PairingReceiverState, state_of, is_show_qr_command, parse_receiver_status_command,
}

abbrev pub receiver_port : ℕ
receiver_port = 9000

abbrev pub credential_lifetime_seconds : ℕ
credential_lifetime_seconds = 365 * 24 * 60 * 60

abbrev pub qr_lifetime_seconds : ℕ
qr_lifetime_seconds = 10 * 60

-- `AppState`, with what the controls hold: the selected network and three texts of UTF-16 units. `qr` is the
-- text that the code shows.
pub record Window : Type 0 where
  pub addresses : List NetworkAddress
  pub qr : Option (List ℕ)
  pub pairing_payload : List ℕ
  pub qr_expires : ℕ
  pub status : List ℕ
  pub network : Option ℕ
  pub label : List ℕ
  pub port : List ℕ
  pub latency : List ℕ
  pub shown : Bool
  pub tray_added : Bool
  pub allow_exit : Bool
  pub destroyed : Bool

abbrev pub clear_pairing_material : Window → Window
clear_pairing_material w = record w { qr = none; pairing_payload = []; qr_expires = 0 }

abbrev pub set_status : Window → List ℕ → Window
set_status w message = record w { status = message }

abbrev pub window_text : List ℕ → List ℕ
window_text text = if is_empty text || ltb 512 (length text) then [] else text

abbrev pub or_empty : Option (List ℕ) → List ℕ
or_empty none = []
or_empty (some text) = text

abbrev pub int_max : ℕ
int_max = 2 ^ 31 - 1

-- The longest prefix of digits, as a number behind `n`, and the rest.
unfoldable pub read_digits : ℕ → List ℕ → ℕ × List ℕ
read_digits n [] = (n, [])
read_digits n (c ∷ text) =
    let more = read_digits (n * 10 + (c - b'0')) text in
    if between b'0' b'9' c then more else (n, c ∷ text)

-- `std::from_chars` into an unsigned int, with the tests behind it.
unfoldable pub parse_digits : List ℕ → Option ℕ
unfolding read_digits
parse_digits [] = none
parse_digits (c ∷ text) =
    let (parsed, rest) = read_digits 0 (c ∷ text) in
    if not (between b'0' b'9' c)
      || ltb (2 ^ 32 - 1) parsed
      || not (is_empty rest)
      || ltb 65535 parsed
    then none
    else some parsed

unfoldable pub live_status_text : PairingReceiverState → List ℕ
live_status_text PairingReceiverState.stopped =
    codes "Receiver stopped. Enable the Local Camera Receiver source in OBS."
live_status_text PairingReceiverState.waiting_for_pairing =
    codes "Receiver is waiting for a paired phone."
live_status_text PairingReceiverState.listening =
    codes "Receiver ready. Waiting for your phone to start streaming."
live_status_text PairingReceiverState.authenticating =
    codes "Phone found. Securing and authenticating the connection…"
live_status_text PairingReceiverState.streaming = codes "Connected. Your phone is streaming to OBS."
live_status_text PairingReceiverState.reconnecting =
    codes "Connection interrupted. Waiting for the phone to reconnect…"
live_status_text PairingReceiverState.failed =
    codes "Receiver failed. Check the OBS source and local-network settings."

-- The address of the selected network, where the selection is in range.
abbrev pub address_at : List NetworkAddress → Option ℕ → Option (List ℕ)
address_at [] selected = none
address_at (a ∷ others) none = none
address_at (a ∷ others) (some index) =
    let rest = address_at others (some (index - 1)) in if index == 0 then some a.address else rest

-- What the calls of one `load_or_create_config` and one `create_pairing_qr` answer: three clocks, whether the
-- file can be read, the random bytes, and how the write goes. `path_known` is that of the file's path.
pub record Attempt : Type 0 where
  pub now : ℕ
  pub readable : Bool
  pub uuid_bytes : Option (List ℕ)
  pub secret : Option (List ℕ)
  pub path_known : Bool
  pub save_now : ℕ
  pub outcome : WriteOutcome
  pub qr_now : ℕ

-- What `load_or_create_config` leaves: the window, the disk, and the configuration if there is one.
abbrev pub Loaded : Type 0
Loaded = Window × Disk × Option ReceiverConfig

abbrev pub refuse : Window → Disk → List ℕ → Loaded
refuse w disk message = (set_status w message, disk, none)

abbrev pub same_settings : ReceiverConfig → List ℕ → List ℕ → ℕ → ℕ → Bool
same_settings config label host port latency =
    list_eqb config.label label
    && list_eqb config.host host
    && config.port == port
    && config.latency_ms == latency

abbrev pub extend_expiry : ReceiverConfig → ℕ → ReceiverConfig
extend_expiry config now = record config {
  credential_expires_epoch_seconds = (now + credential_lifetime_seconds) % 2 ^ 64;
}

-- `wide_to_utf8` is WideCharToMultiByte.
module _ (wide_to_utf8 : List ℕ → Option (List ℕ)) where
  unfoldable pub utf8 : List ℕ → List ℕ
  utf8 input =
      if is_empty input || ltb int_max (length input) then [] else or_empty (wide_to_utf8 input)

  unfoldable pub parse_u16 : List ℕ → Option ℕ
  unfolding utf8
  parse_u16 control =
      let text = window_text control in if is_empty text then none else parse_digits (utf8 text)

abbrev pub right_port : Option ℕ → Option ℕ
right_port none = none
right_port (some port) = if not (port == receiver_port) then none else some port

abbrev pub right_latency : Option ℕ → Option ℕ
right_latency none = none
right_latency (some latency) =
    if ltb latency minimum_latency_ms || ltb maximum_latency_ms latency then none else some latency

module _ (platform : Platform) (dpapi : Dpapi) where
  abbrev pub stored_of : Window → ReceiverConfig → Disk × Bool → Loaded
  stored_of w config (disk, ok) =
      if not ok
      then refuse w disk
          (codes "Windows could not securely save this pairing. Try again from this user account.")
      else (w, disk, some config)

  -- The end of `load_or_create_config`, on a new configuration.
  unfoldable pub store_config : Window → Disk → Attempt → ReceiverConfig → Loaded
  store_config w disk a config =
      if not (is_no_error (validate_config platform config a.now))
      then refuse w disk (codes "Those receiver settings could not be saved safely.")
      else stored_of w config
          (save_config_dpapi platform dpapi a.path_known a.save_now a.outcome disk config)

  unfoldable pub create_config : Window → Disk → Attempt → List ℕ → List ℕ → ℕ → ℕ → Loaded
  unfolding store_config
  create_config w disk a label host port latency =
      elim (generate_config platform label host port latency a.now a.uuid_bytes a.secret) [
        | none ↦
            refuse w disk (codes "Check the receiver name and network settings, then try again.")
        | some config ↦ store_config w disk a (extend_expiry config a.now)
      ]

  unfoldable pub reuse_or_create : Window → Disk → Attempt → List ℕ → List ℕ → ℕ → ℕ → Loaded
  unfolding create_config
  reuse_or_create w disk a label host port latency =
      let created = create_config w disk a label host port latency in
      elim (load_config_dpapi platform dpapi a.readable disk a.now).0 [
        | none ↦ created
        | some config ↦
            if same_settings config label host port latency then (w, disk, some config) else created
      ]

  unfoldable pub load_or_create_config :
      (List ℕ → Option (List ℕ)) → Window → Disk → Attempt → Loaded
  unfolding parse_u16 reuse_or_create
  load_or_create_config wide_to_utf8 w disk a = elim (address_at w.addresses w.network) [
    | none ↦ refuse w disk (codes "Connect this PC to a private Wi-Fi or Ethernet network first.")
    | some host ↦ elim (right_port (parse_u16 wide_to_utf8 w.port)) [
      | none ↦ refuse w disk (codes "This version securely listens on port 9000.")
      | some port ↦ elim (right_latency (parse_u16 wide_to_utf8 w.latency)) [
        | none ↦ refuse w disk (codes "Choose latency from 60 to 2000 milliseconds.")
        | some latency ↦
            reuse_or_create w disk a (utf8 wide_to_utf8 (window_text w.label)) host port latency
      ]
    ]
  ]

abbrev pub qr_expiry : ℕ → ℕ
qr_expiry now = (now + qr_lifetime_seconds) % 2 ^ 64

-- `encodes` says that QrCode::encodeText takes a text.
module _ (platform : Platform) (encodes : List ℕ → Bool) where
  -- The end of `create_pairing_qr`, on a payload.
  unfoldable pub show_payload : Window → List ℕ → ℕ → Window
  show_payload w payload expires =
      if is_empty payload
      then set_status (clear_pairing_material w)
          (codes "Could not create the pairing QR. Check the settings and try again.")
      else if not (encodes payload)
      then set_status (clear_pairing_material w) (codes "The pairing QR was too large to create.")
      else record w {
        qr = some payload;
        pairing_payload = payload;
        qr_expires = expires;
        status = codes "Ready. Scan this QR in Local Camera Sender within 10 minutes.";
      }

  abbrev pub offer_of : Loaded → ℕ → Window × Disk
  offer_of (w, disk, none) now = (w, disk)
  offer_of (w, disk, some config) now = (
    show_payload w (build_pairing_payload platform config (qr_expiry now) now) (qr_expiry now),
    disk,
  )

-- `hide_to_tray` and `add_tray_icon`; `added` is what Shell_NotifyIcon answers.
unfoldable pub hide_to_tray : Window → Bool → Window
hide_to_tray w added = record (clear_pairing_material w) {
  tray_added = if w.tray_added then true else added;
  shown = false;
}

abbrev pub finish_of : Loaded → Bool → Window × Disk
finish_of (w, disk, none) added = (w, disk)
finish_of (w, disk, some config) added = (
  hide_to_tray
      (set_status w (codes "Setup saved. The helper is still available from the system tray."))
      added,
  disk,
)

module _ (platform : Platform) (dpapi : Dpapi) (wide_to_utf8 : List ℕ → Option (List ℕ))
    (encodes : List ℕ → Bool) where
  unfoldable pub create_pairing_qr : Window → Disk → Attempt → Window × Disk
  unfolding load_or_create_config show_payload
  create_pairing_qr w disk a =
      offer_of platform encodes (load_or_create_config platform dpapi wide_to_utf8 w disk a)
        a.qr_now
