-- ===== src/Receiver/Window/Messages.antt =====
-- window_proc of pc/src/pairing_app.cpp, with the making of the window and the pipe that posts to it.
use android2pc_stream.Prelude.{
  ℕ, Bool, true, false, not, ◌||◌, Option, none, some, List, [], ◌∷◌, is_empty, length, ltb, leb,
  if◌then◌else◌, codes,
}
use android2pc_stream.Platform.{Platform}
use android2pc_stream.Receiver.Config.{ReceiverConfig}
use android2pc_stream.Receiver.Store.{Disk, Dpapi, load_config_dpapi}
use android2pc_stream.Receiver.Link.{to_string}
use android2pc_stream.Receiver.Network.{NetworkAddress, saved_network_index}
use android2pc_stream.Receiver.Control.{
  state_of, state_value, PairingReceiverState, is_show_qr_command, parse_receiver_status_command,
}
use android2pc_stream.Receiver.Window.{
  Window, Attempt, clear_pairing_material, set_status, live_status_text, load_or_create_config,
  create_pairing_qr, hide_to_tray, finish_of, or_empty, int_max,
}

-- What reaches window_proc and changes the state. `close` and `finish` carry the answer of Shell_NotifyIcon;
-- the last three are what the user does to the controls.
pub data Message : Type 0 where
  rotate : Attempt → Message
  finish : Attempt → Bool → Message
  tray_open tray_exit activate : Message
  timer : ℕ → Message
  show_qr : Attempt → Message
  receiver_status : ℕ → Message
  close : Bool → Message
  end_session : Bool → Message
  select : Option ℕ → Message
  edit_label edit_latency : List ℕ → Message

abbrev pub show_main_window : Window → Window
show_main_window w = record w { shown = true }

-- DestroyWindow, with WM_DESTROY.
abbrev pub destroy_window : Window → Window
destroy_window w = record w { shown = false; tray_added = false; destroyed = true }

unfoldable pub on_timer : Window → ℕ → Window
on_timer w now = elim w.qr [
  | none ↦ w
  | some text ↦
      if leb w.qr_expires now
      then set_status (clear_pairing_material w)
          (codes "QR expired. Your saved receiver settings are still ready.")
      else w
]

abbrev pub is_streaming : PairingReceiverState → Bool
is_streaming PairingReceiverState.streaming = true
is_streaming _ = false

unfoldable pub on_receiver_status : Window → ℕ → Window
on_receiver_status w raw =
    if not (leb raw (state_value PairingReceiverState.failed))
    then w
    else set_status (if is_streaming (state_of raw) then clear_pairing_material w else w)
        (live_status_text (state_of raw))

unfoldable pub on_close : Window → Bool → Window
on_close w added = if not w.allow_exit then hide_to_tray w added else destroy_window w

-- What the pipe's server posts for the bytes that ReadFile gave it.
unfoldable pub posted : List ℕ → Attempt → Option Message
posted bytes a =
    if is_show_qr_command bytes
    then some (Message.show_qr a)
    else elim (parse_receiver_status_command bytes) [
      | none ↦ none
      | some state ↦ some (Message.receiver_status (state_value state))
    ]

abbrev pub first_message : List ℕ
first_message = codes "Choose this computer's local network, then show the pairing QR."

-- `populate_networks` on the new controls.
abbrev pub new_window : List NetworkAddress → Window
new_window addresses = record {
  addresses = addresses;
  qr = none;
  pairing_payload = [];
  qr_expires = 0;
  status = first_message;
  network = if is_empty addresses then none else some 0;
  label = codes "My PC";
  port = codes "9000";
  latency = codes "120";
  shown = false;
  tray_added = false;
  allow_exit = false;
  destroyed = false;
}

abbrev pub or_selected : Option ℕ → Option ℕ → Option ℕ
or_selected none selected = selected
or_selected (some index) selected = some index

abbrev pub restored_text : Option ℕ → List ℕ
restored_text none =
    codes "A better local network was found. Show a new QR once to update your phone."
restored_text (some index) =
    codes "Saved pairing restored. Show a QR only when pairing another phone."

module _ (platform : Platform) where
  unfoldable pub wide : List ℕ → List ℕ
  wide input =
      if is_empty input || ltb int_max (length input)
      then []
      else or_empty (platform.utf8_to_wide input)

  -- `load_saved_settings`, with the status that WM_CREATE sets for its answer.
  unfoldable pub restore : Window → ReceiverConfig → Window
  unfolding wide
  restore w config =
      let index = saved_network_index w.addresses config.host in
      record w {
        label = wide config.label;
        port = to_string config.port;
        latency = to_string config.latency_ms;
        network = or_selected index w.network;
        status = restored_text index;
      }

module _ (platform : Platform) (dpapi : Dpapi) where
  unfoldable pub load_saved_settings : Window → Disk → Bool → ℕ → Window
  unfolding restore
  load_saved_settings w disk readable now =
      elim (load_config_dpapi platform dpapi readable disk now).0 [
        | none ↦ w
        | some config ↦ restore platform w config
      ]

  -- WM_CREATE; `added` is what Shell_NotifyIcon answers, and the pipe's server always starts.
  unfoldable pub create_window : List NetworkAddress → Disk → Bool → ℕ → Bool → Window
  unfolding load_saved_settings
  create_window addresses disk readable now added =
      let w = new_window addresses in
      let made =
        if is_empty addresses
        then set_status w (codes "Connect this PC to a private Wi-Fi or Ethernet network first.")
        else load_saved_settings w disk readable now in
      record made { tray_added = added }

module _ (platform : Platform) (dpapi : Dpapi) (wide_to_utf8 : List ℕ → Option (List ℕ))
    (encodes : List ℕ → Bool) where
  unfoldable pub handle : Window → Disk → Message → Window × Disk
  unfolding on_timer on_receiver_status on_close
  handle w disk (Message.rotate a) = create_pairing_qr platform dpapi wide_to_utf8 encodes w disk a
  handle w disk (Message.finish a added) =
      finish_of (load_or_create_config platform dpapi wide_to_utf8 w disk a) added
  handle w disk Message.tray_open = (show_main_window w, disk)
  handle w disk Message.tray_exit = (destroy_window (record w { allow_exit = true }), disk)
  handle w disk Message.activate = (show_main_window w, disk)
  handle w disk (Message.timer now) = (on_timer w now, disk)
  handle w disk (Message.show_qr a) =
      create_pairing_qr platform dpapi wide_to_utf8 encodes (show_main_window w) disk a
  handle w disk (Message.receiver_status raw) = (on_receiver_status w raw, disk)
  handle w disk (Message.close added) = (on_close w added, disk)
  handle w disk (Message.end_session ending) =
      (if ending then destroy_window (record w { allow_exit = true }) else w, disk)
  handle w disk (Message.select index) = (record w { network = index }, disk)
  handle w disk (Message.edit_label text) = (record w { label = text }, disk)
  handle w disk (Message.edit_latency text) = (record w { latency = text }, disk)

  -- A window that is destroyed gets no message.
  unfoldable pub dispatch : Window → Disk → Message → Window × Disk
  unfolding handle
  dispatch w disk message = if w.destroyed then (w, disk) else handle w disk message

  unfoldable pub run_window : Window → Disk → List Message → Window × Disk
  unfolding dispatch
  run_window w disk [] = (w, disk)
  run_window w disk (message ∷ messages) =
      let (after, stored) = dispatch w disk message in run_window after stored messages
