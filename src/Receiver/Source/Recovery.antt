-- ===== src/Receiver/Source/Recovery.antt =====
-- A source that is to listen: one round of watch_config and one setup of the listener's thread.
use android2pc_stream.Prelude.{
  ◌≡◌, refl, ap, ◌∙◌, inl, inr, ◌⊎◌, true, false, not, ◌&&◌, ◌||◌, some, List, if◌then◌else◌, arith,
  if_ind, Bool-cases,
}
use android2pc_stream.Platform.{Platform}
use android2pc_stream.Receiver.Config.{ReceiverConfig, validate_config, ConfigError}
use android2pc_stream.Receiver.Store.{Dpapi, load_config_dpapi}
use android2pc_stream.Receiver.Status.{publish}
use android2pc_stream.Receiver.Sink.{Sink}
use android2pc_stream.Receiver.Listener.State.{Listener, Phase, Setup, is_starting}
use android2pc_stream.Receiver.Listener.Steps
use android2pc_stream.Receiver.Listener.Steps.{run_setup}
use android2pc_stream.Receiver.Source.{Source, Settings, new_source}
use android2pc_stream.Receiver.Source.Watch.{
  Round, watch_round, look, settle, reload, start_loaded, finish_watch, stopped, should_listen,
  changed, is_down,
}
use android2pc_stream.Receiver.Source.Stopping.{Quiet}
use android2pc_stream.Receiver.Source.Watching.{
  Event, Work, IsValid, step, run_source, look-IsValid, stopped_before-Quiet, start_valid,
  run_source-new_source-IsValid,
}
use android2pc_stream.Receiver.Source.Listening.{look-Looked}

-- The setup of SRT in the listener's thread works.
abbrev pub works : Setup
works = record { runtime = true; configured = true; bound = true; listens = true }

module _ (platform : Platform) (dpapi : Dpapi) where
  -- Started for the given configuration, its thread at its first round.
  record Started (config : ReceiverConfig) (s : Source) : Type 0 where
    pub answered : s.listener_started ≡ true
    pub starting : s.listener.phase ≡ Phase.starting
    pub runs : s.listener.running ≡ true
    pub expiry : s.expires ≡ config.credential_expires_epoch_seconds

  start_loaded-Started :
      (s : Source) (r : Round) (config : ReceiverConfig)
      → Quiet s.listener
      → validate_config platform config r.start_now ≡ ConfigError.no_error
      → Started config (start_loaded platform s r (some config))
  unfolding start_loaded
  start_loaded-Started s r config q valid = rw valid (record {
    answered = rw q.not_running refl;
    starting = ap (λ (l : Listener). l.phase) (start_valid platform dpapi s.expires s.listener q);
    runs = ap (λ (l : Listener). l.running) (start_valid platform dpapi s.expires s.listener q);
    expiry = rw q.not_running refl;
  })

  -- A started listener that is not down, or one that was just started.
  Live : ReceiverConfig → Source → Type 0
  Live config s =
      Started config s ⊎ ((s.listener_started ≡ true) × (is_down s.listener.status.state ≡ false))

  module _ (config : ReceiverConfig) (r : Round)
      (loaded : (load_config_dpapi platform dpapi r.readable r.disk r.now).0 ≡ some config)
      (valid : validate_config platform config r.start_now ≡ ConfigError.no_error) where
    reload-Live : (s : Source) → IsValid s → Live config (reload platform dpapi s r)
    unfolding reload Live
    reload-Live s v = rw loaded (
        inl (
          start_loaded-Started (if s.listener_started then stopped platform s r.ending else s) r
            config (stopped_before-Quiet platform dpapi s r.ending v) valid))

    settle-Live :
        (s : Source)
        → IsValid s
        → should_listen s ≡ true
        → (s.listener_started ≡ true → is_down s.listener.status.state ≡ false)
        → Live config (settle platform dpapi s r)
    unfolding settle Live
    settle-Live s v wanted up =
        let quiet = stopped platform s r.ending in
        let next = reload platform dpapi s r in
        let test =
          should_listen s && (changed r.write_time s.last_write || not s.listener_started) in
        if_ind (Live config) (not (should_listen s) && s.listener_started) quiet
          (if test then next else s) (λ e. absurd (ground arith))
          (λ e.
            if_ind (Live config) test next s (λ f. reload-Live s v)
              (λ f. let on : s.listener_started ≡ true = ground arith in inr (on, up on)))

    watch_round-Live :
        (s : Source)
        → IsValid s
        → s.watching ≡ true
        → s.stopping ≡ false
        → should_listen s ≡ true
        → Live config (watch_round platform dpapi s r)
    unfolding watch_round
    watch_round-Live s v on going wanted =
        let seen = look platform dpapi s r in
        let (same, live) = look-Looked platform dpapi s r in
        let done = finish_watch platform dpapi s r in
        let next = settle platform dpapi seen r in
        if_ind (Live config) (not s.watching) s (if s.stopping then done else next) (λ e. cc)
          (λ e.
            if_ind (Live config) s.stopping done next (λ f. cc)
              (λ f.
                settle-Live seen (look-IsValid platform dpapi s r v) (same ∙ wanted)
                  (λ h. let (l, up) = live h in rw l up)))

    setup-up :
        (s : Source)
        → Live config s
        → (let after = step platform dpapi s (Event.work (Work.setup works)) in
            (after.listener_started ≡ true) × (is_down after.listener.status.state ≡ false))
    unfolding Live step Steps.step run_setup publish
    setup-up s (inl t) = rw t.starting (t.answered, refl)
    setup-up s (inr (on, up)) = elim (Bool-cases (is_starting s.listener.phase)) [
      | inl e ↦ rw e (on, refl)
      | inr e ↦ rw e (on, up)
    ]

    -- Whatever happened to a source before: where it is visible or to listen when hidden, and not being
    -- destroyed, and where the credential file then loads with a configuration that is valid when the listener
    -- starts, one round of the watching thread and a setup of SRT that works leave the listener started and
    -- neither failed nor stopped.
    pub run_source-listens :
        (sink : Sink) (settings : Settings) (events : List Event)
        → (let s = run_source platform dpapi (new_source sink settings) events in
            s.watching ≡ true
            → s.stopping ≡ false
            → should_listen s ≡ true
            → (let after =
                  step platform dpapi
                    (step platform dpapi s (Event.watch r))
                    (Event.work (Work.setup works)) in
                (after.listener_started ≡ true) × (is_down after.listener.status.state ≡ false)))
    unfolding step
    run_source-listens sink settings events on going wanted = setup-up _ (
        watch_round-Live (run_source platform dpapi (new_source sink settings) events)
          (run_source-new_source-IsValid platform dpapi sink settings events) on going wanted)
