-- ===== src/Checks/SourceChecks.antt =====
-- The theorems on the OBS source at concrete inputs.
use android2pc_stream.Prelude.{
  ◌≡◌, refl, ap, true, false, ◌&&◌, Option, none, some, List, [], ◌∷◌, codes, arith, inl,
}
use android2pc_stream.Receiver.Config.{ReceiverConfig, ConfigError, is_canonical_uuid}
use android2pc_stream.Receiver.Credential.{serialize_config}
use android2pc_stream.Receiver.Store.{Disk, save_config_dpapi, load_config_dpapi}
use android2pc_stream.Receiver.Status.{ReceiverState}
use android2pc_stream.Receiver.Queue.{new_queue}
use android2pc_stream.Receiver.Sink.{Sink, Stage, is_pipe_name}
use android2pc_stream.Receiver.Listener.State.{Listener, Received, Phase, new_listener}
use android2pc_stream.Receiver.Source.{
  Settings, Creation, Mix, ChildAudio, new_source, pipe_name, choose_pipe_id, source_create,
}
use android2pc_stream.Receiver.Source.Watch.{
  Round, Ending, watch_round, look, settle, reload, start_loaded, should_listen, is_down,
  stop_listener,
}
use android2pc_stream.Receiver.Source.Stopping.{Quiet, stop_listener-Quiet}
use android2pc_stream.Receiver.Source.Watching.{Event, Work, step, run_source}
use android2pc_stream.Receiver.Source.Listening.{Closed, run_source-Closed}
use android2pc_stream.Receiver.Source.Recovery.{works, run_source-listens}
use android2pc_stream.Receiver.Source.Created.{source_create-settings}
use android2pc_stream.Receiver.Store.Reload.{load_config_dpapi-save_config_dpapi}
use android2pc_stream.Checks.ReceiverChecks.{desk_size, desk_protected, desk_outcome}
use android2pc_stream.Checks.Data.{
  desk, desk-NtopFits, desk_config, desk_config-WellTyped, desk_config_valid, plain_dpapi,
  plain_dpapi-Recovers, no_file, all_well-Succeeds,
}

-- The last rounds of a listener's thread, which finds nothing.
abbrev last_rounds : Ending
last_rounds = record {
  receive = record {
    now = 1000;
    received = Received.no_data;
    enqueued = false;
    connected_at_ready = false;
    connected_at_test = false;
    decoder_ready = false;
  };
  setup = record { runtime = false; configured = false; bound = false; listens = false };
  accept = record {
    peer = false;
    options = false;
    peer_host = none;
    now = 1000;
    stream_id = none;
    encrypted = false;
  };
}

-- A listener in its loop over peers.
abbrev waiting : Listener
waiting = record new_listener { running = true; phase = Phase.accepting; listener_open = true }

stop_example :
    Quiet (stop_listener desk 2000 waiting last_rounds)
    × ((stop_listener desk 2000 waiting last_rounds).status.state ≡ ReceiverState.stopped)
stop_example = stop_listener-Quiet desk 2000 waiting last_rounds

abbrev saved : Disk
saved = (save_config_dpapi desk plain_dpapi true 1000 desk_outcome no_file desk_config).0

saved-loads : (load_config_dpapi desk plain_dpapi true saved 1000).0 ≡ some desk_config
saved-loads =
    ap (λ (made : Option ReceiverConfig × ConfigError). made.0)
      (load_config_dpapi-save_config_dpapi desk plain_dpapi desk_config
        (serialize_config desk_config) 1000 1000 desk_outcome no_file desk-NtopFits
        plain_dpapi-Recovers desk_config-WellTyped desk_config_valid desk_config_valid
        desk_protected (omega (arith, desk_size)) (omega (arith, desk_size))
        (all_well-Succeeds _)).1

abbrev one_round : Round
one_round = record {
  pipe_ready = true;
  write_time = some 7;
  readable = true;
  disk = saved;
  now = 1000;
  start_now = 1000;
  ending = last_rounds;
}

abbrev idle_sink : Sink
idle_sink = record {
  running = false;
  restart_transport = false;
  client_connected = false;
  queue = new_queue;
  pipe_open = false;
  stage = Stage.stopped;
  create_error = 0;
  create_backoff = 0;
  sent = [];
}

abbrev settings : Settings
settings = record {
  pipe_id = codes "0f8fad5b-d9cb-469f-a165-70867728950e";
  listen_when_hidden = false;
  hardware_decode = true;
  software_decoder_migration = false;
}

shown :
    (let s = run_source desk plain_dpapi (new_source idle_sink settings) (Event.show ∷ []) in
      (s.watching ≡ true) × (s.stopping ≡ false) × (should_listen s ≡ true))
unfolding run_source step
shown = (refl, refl, refl)

listens_example :
    (let after =
        step desk plain_dpapi
          (step desk plain_dpapi
            (run_source desk plain_dpapi (new_source idle_sink settings) (Event.show ∷ []))
            (Event.watch one_round))
          (Event.work (Work.setup works)) in
      (after.listener_started ≡ true) × (is_down after.listener.status.state ≡ false))
listens_example =
    run_source-listens desk plain_dpapi desk_config one_round saved-loads desk_config_valid
      idle_sink settings (Event.show ∷ []) shown.0 shown.1 shown.2

abbrev shown_and_hidden : List Event
shown_and_hidden = Event.show ∷ Event.watch one_round ∷ Event.hide ∷ []

hidden :
    (let s = run_source desk plain_dpapi (new_source idle_sink settings) shown_and_hidden in
      (s.watching ≡ true) × (should_listen s ≡ false))
unfolding run_source step watch_round look settle reload start_loaded
hidden = rw saved-loads (refl, refl)

closed_example : Closed (
    watch_round desk plain_dpapi
      (run_source desk plain_dpapi (new_source idle_sink settings) shown_and_hidden)
      one_round)
closed_example =
    run_source-Closed desk plain_dpapi idle_sink settings shown_and_hidden one_round hidden.0
      (inl hidden.1)

abbrev creation : Creation
creation = record { uuid_bytes = none; settings_made = true; child_made = true; child_added = true }

kept_id : is_canonical_uuid (choose_pipe_id settings.pipe_id none) ≡ true
unfolding is_canonical_uuid choose_pipe_id
kept_id = refl

settings_example :
    (let made = (source_create idle_sink settings creation).0 in
      (is_canonical_uuid made.pipe_id ≡ true)
      × (is_pipe_name (pipe_name made.pipe_id) ≡ true)
      × (made.software_decoder_migration ≡ true)
      × (made.hardware_decode ≡ (settings.software_decoder_migration && settings.hardware_decode))
      × ((idle : Sink) (c : Creation) → (source_create idle made c).0 ≡ made))
settings_example = source_create-settings idle_sink settings creation kept_id

abbrev mono : ChildAudio
mono = record { pending = false; timestamp = 5; samples = λ mix channel. 9 ∷ [] }

abbrev silence : Mix
silence = λ mix channel. []
