-- ===== src/Receiver/Source/Watch.antt =====
-- ReceiverSource::watch_config round by round, with the end of the source.
use android2pc_stream.Prelude.{
  ℕ, Bool, true, false, not, ◌&&◌, ◌||◌, Option, none, some, [], ◌∷◌, ◌++◌, if◌then◌else◌, ◌==◌,
}
use android2pc_stream.Platform.{Platform}
use android2pc_stream.Receiver.Config.{ReceiverConfig, validate_config, is_no_error}
use android2pc_stream.Receiver.Store.{Disk, Dpapi, load_config_dpapi}
use android2pc_stream.Receiver.Control.{PairingReceiverState, receiver_status_command}
use android2pc_stream.Receiver.Status.{ReceiverState}
use android2pc_stream.Receiver.Sink
use android2pc_stream.Receiver.Listener.State.{Listener, Setup, Accept, Receive, Event}
use android2pc_stream.Receiver.Listener.Steps
use android2pc_stream.Receiver.Source.{Source}

unfoldable pub pairing_state : ReceiverState → PairingReceiverState
pairing_state ReceiverState.stopped = PairingReceiverState.stopped
pairing_state ReceiverState.waiting_for_pairing = PairingReceiverState.waiting_for_pairing
pairing_state ReceiverState.listening = PairingReceiverState.listening
pairing_state ReceiverState.authenticating = PairingReceiverState.authenticating
pairing_state ReceiverState.streaming = PairingReceiverState.streaming
pairing_state ReceiverState.reconnecting = PairingReceiverState.reconnecting
pairing_state ReceiverState.failed = PairingReceiverState.failed

abbrev pub is_down : ReceiverState → Bool
is_down ReceiverState.failed = true
is_down ReceiverState.stopped = true
is_down _ = false

-- The rounds that the listener's thread still makes before it is joined: at most one of each of its loops.
pub record Ending : Type 0 where
  pub receive : Receive
  pub setup : Setup
  pub accept : Accept

-- What the calls of one round answer. `pipe_ready` says that the helper's pipe can be opened; `write_time`
-- is none where it cannot be read; `start_now` is the clock in SrtListener::start.
pub record Round : Type 0 where
  pub pipe_ready : Bool
  pub write_time : Option ℕ
  pub readable : Bool
  pub disk : Disk
  pub now : ℕ
  pub start_now : ℕ
  pub ending : Ending

-- `!error && current_write != last_write`.
abbrev pub changed : Option ℕ → Option ℕ → Bool
changed none last = false
changed (some t) none = true
changed (some t) (some last) = not (t == last)

abbrev pub should_listen : Source → Bool
should_listen s = s.active || s.listen_when_hidden

-- `publish_pairing_helper_status`.
abbrev pub heartbeat : Source → Bool → Source
heartbeat s pipe_ready = if not pipe_ready then s else record s {
  commands = s.commands ++ receiver_status_command (pairing_state s.listener.status.state) ∷ [];
}

-- The destructor, up to the join of the thread.
abbrev pub request_end : Source → Source
request_end s = record s { stopping = true }

-- The answer of SrtListener::start; a listener that already runs is left alone.
abbrev pub start_answer : Listener → Bool → Bool
start_answer l valid = valid && not l.running

module _ (platform : Platform) where
  -- SrtListener::stop, its join included.
  unfoldable pub stop_listener : ℕ → Listener → Ending → Listener
  stop_listener expires l e =
      Steps.run platform expires (Steps.step platform expires l Event.request_stop)
        (Event.receive e.receive ∷ Event.setup e.setup ∷ Event.accept e.accept ∷ Event.joined ∷ [])

  abbrev pub stopped : Source → Ending → Source
  stopped s e = record s {
    listener = stop_listener s.expires s.listener e;
    listener_started = false;
  }

  abbrev pub started : Source → ReceiverConfig → Bool → Option ℕ → Source
  started s config valid write_time = record s {
    listener = Steps.step platform s.expires s.listener (Event.start valid);
    listener_started = start_answer s.listener valid;
    expires =
        if start_answer s.listener valid
        then config.credential_expires_epoch_seconds
        else s.expires;
    last_write = write_time;
  }

  -- The destructor behind the join of the thread.
  unfoldable pub end_source : Source → Ending → Source
  end_source s e = record (stopped s e) {
    child_active = false;
    has_child = false;
    sink = Sink.stop s.sink;
  }

  -- What follows the load.
  unfoldable pub start_loaded : Source → Round → Option ReceiverConfig → Source
  start_loaded s r none = record s { listener_started = false }
  start_loaded s r (some config) =
      started s config (is_no_error (validate_config platform config r.start_now)) r.write_time

module _ (platform : Platform) (dpapi : Dpapi) where
  unfoldable pub reload : Source → Round → Source
  unfolding start_loaded
  reload s r =
      let quiet = if s.listener_started then stopped platform s r.ending else s in
      start_loaded platform quiet r (load_config_dpapi platform dpapi r.readable r.disk r.now).0

  -- The first part of a round, which only a started listener needs.
  unfoldable pub look : Source → Round → Source
  look s r =
      let told = heartbeat s r.pipe_ready in
      if not s.listener_started
      then s
      else if is_down s.listener.status.state
      then stopped platform told r.ending
      else told

  unfoldable pub settle : Source → Round → Source
  unfolding reload
  settle s r =
      if not (should_listen s) && s.listener_started
      then stopped platform s r.ending
      else if should_listen s && (changed r.write_time s.last_write || not s.listener_started)
      then reload s r
      else s

  -- The end of the thread.
  unfoldable pub finish_watch : Source → Round → Source
  finish_watch s r = record (if s.listener_started then stopped platform s r.ending else s) {
    watching = false;
  }

  unfoldable pub watch_round : Source → Round → Source
  unfolding look settle finish_watch
  watch_round s r =
      if not s.watching then s else if s.stopping then finish_watch s r else settle (look s r) r
