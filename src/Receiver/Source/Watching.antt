-- ===== src/Receiver/Source/Watching.antt =====
-- When the watched listener runs, and when nothing is open.
use android2pc_stream.Prelude.{
  ℕ, ◌≡◌, refl, inl, inr, Bool, true, false, not, ◌&&◌, ◌||◌, Option, none, some, List, [], ◌∷◌,
  if◌then◌else◌, arith, if_ind, Bool-cases, bool_eqb,
}
use android2pc_stream.Platform.{Platform}
use android2pc_stream.Receiver.Config.{ReceiverConfig, validate_config, is_no_error}
use android2pc_stream.Receiver.Store.{Dpapi, load_config_dpapi}
use android2pc_stream.Receiver.Listener.State.{
  Listener, Phase, Setup, Accept, Receive, is_over, is_starting, is_accepting, is_receiving,
  new_listener,
}
use android2pc_stream.Receiver.Listener.State
use android2pc_stream.Receiver.Listener.Steps
use android2pc_stream.Receiver.Listener.Steps.{start_listener, run_setup}
use android2pc_stream.Receiver.Sink.{Sink}
use android2pc_stream.Receiver.Source.{
  Source, Settings, new_source, activate, deactivate, tick, update,
}
use android2pc_stream.Receiver.Source.Watch.{
  Round, Ending, watch_round, look, settle, reload, start_loaded, finish_watch, stopped,
  should_listen, changed, heartbeat, is_down, request_end,
}
use android2pc_stream.Receiver.Source.Stopping.{Quiet, stop_listener-Quiet}

-- One round of the listener's thread.
pub data Work : Type 0 where
  setup : Setup → Work
  accept : Accept → Work
  receive : Receive → Work

abbrev pub event_of : Work → State.Event
event_of (Work.setup s) = State.Event.setup s
event_of (Work.accept a) = State.Event.accept a
event_of (Work.receive r) = State.Event.receive r

-- What reaches the source before its thread is joined.
pub data Event : Type 0 where
  show hide ending : Event
  frame : ℕ → ℕ → Event
  change : Settings → Bool → Event
  work : Work → Event
  watch : Round → Event

-- The listener is started, or its thread is over and nothing is open.
abbrev pub IsValid : Source → Type 0
IsValid s = s.listener_started ≡ false → Quiet s.listener

module _ (platform : Platform) (dpapi : Dpapi) where
  unfoldable pub step : Source → Event → Source
  unfolding activate deactivate tick update watch_round
  step s Event.show = activate s
  step s Event.hide = deactivate s
  step s Event.ending = request_end s
  step s (Event.frame width height) = tick s width height
  step s (Event.change new found) = update s new found
  step s (Event.work w) = record s {
    listener = Steps.step platform s.expires s.listener (event_of w);
  }
  step s (Event.watch r) = watch_round platform dpapi s r

  unfoldable pub run_source : Source → List Event → Source
  unfolding step
  run_source s [] = s
  run_source s (event ∷ events) = run_source (step s event) events

  pub stopped-Quiet : (s : Source) (e : Ending) → Quiet (stopped platform s e).listener
  stopped-Quiet s e = (stop_listener-Quiet platform s.expires s.listener e).0

  over_places :
      (p : Phase)
      → is_over p ≡ true
      → (is_starting p ≡ false) × (is_accepting p ≡ false) × (is_receiving p ≡ false)
  over_places Phase.idle h = (refl, refl, refl)
  over_places Phase.ended h = (refl, refl, refl)
  over_places _ h = cc

  -- A thread that is over makes no round.
  work-Quiet :
      (expires : ℕ) (l : Listener) (w : Work)
      → Quiet l
      → Steps.step platform expires l (event_of w) ≡ l
  unfolding Steps.step
  work-Quiet expires l (Work.setup s) q = rw (over_places l.phase q.over).0 refl
  work-Quiet expires l (Work.accept a) q = rw (over_places l.phase q.over).1 refl
  work-Quiet expires l (Work.receive r) q = rw (over_places l.phase q.over).2 refl

  -- A start of a quiet listener.
  pub start_valid :
      (expires : ℕ) (l : Listener)
      → Quiet l
      → Steps.step platform expires l (State.Event.start true)
        ≡ record l { running = true; phase = Phase.starting }
  unfolding Steps.step start_listener
  start_valid expires l q = simp (q.over, q.none_waits, q.not_running) refl

  start_refused :
      (expires : ℕ) (l : Listener)
      → Quiet l
      → Quiet (Steps.step platform expires l (State.Event.start false))
  unfolding Steps.step start_listener
  start_refused expires l q =
      ground (arith, q.over, q.none_waits, q.not_running, q.listener_closed, q.peer_closed)

  start_loaded-IsValid :
      (s : Source) (r : Round) (loaded : Option ReceiverConfig)
      → Quiet s.listener
      → IsValid (start_loaded platform s r loaded)
  unfolding start_loaded
  start_loaded-IsValid s r none q = λ h. q
  start_loaded-IsValid s r (some config) q =
      elim (Bool-cases (is_no_error (validate_config platform config r.start_now))) [
        | inl e ↦ rw e (λ h. cc (h, q.not_running))
        | inr e ↦ rw e (λ h. start_refused s.expires s.listener q)
      ]

  pub stopped_before-Quiet :
      (s : Source) (e : Ending)
      → IsValid s
      → Quiet (if s.listener_started then stopped platform s e else s).listener
  stopped_before-Quiet s e v = elim (Bool-cases s.listener_started) [
    | inl on ↦ rw on (stopped-Quiet s e)
    | inr off ↦ rw off (v off)
  ]

  pub reload-IsValid : (s : Source) (r : Round) → IsValid s → IsValid (reload platform dpapi s r)
  unfolding reload
  reload-IsValid s r v =
      start_loaded-IsValid (if s.listener_started then stopped platform s r.ending else s) r
        (load_config_dpapi platform dpapi r.readable r.disk r.now).0
        (stopped_before-Quiet s r.ending v)

  pub look-IsValid : (s : Source) (r : Round) → IsValid s → IsValid (look platform dpapi s r)
  unfolding look
  look-IsValid s r v =
      let told = heartbeat s r.pipe_ready in
      let down = stopped platform told r.ending in
      if_ind IsValid (not s.listener_started) s
        (if is_down s.listener.status.state then down else told) (λ off. v)
        (λ on.
          if_ind IsValid (is_down s.listener.status.state) down told
            (λ e h. stopped-Quiet told r.ending)
            (λ e. if_ind IsValid (not r.pipe_ready) s _ (λ f. v) (λ f. v)))

  pub settle-IsValid : (s : Source) (r : Round) → IsValid s → IsValid (settle platform dpapi s r)
  unfolding settle
  settle-IsValid s r v =
      let quiet = stopped platform s r.ending in
      let next = reload platform dpapi s r in
      let test = should_listen s && (changed r.write_time s.last_write || not s.listener_started) in
      if_ind IsValid (not (should_listen s) && s.listener_started) quiet (if test then next else s)
        (λ e h. stopped-Quiet s r.ending)
        (λ e. if_ind IsValid test next s (λ f. reload-IsValid s r v) (λ f. v))

  pub finish_watch-Quiet :
      (s : Source) (r : Round) → IsValid s → Quiet (finish_watch platform dpapi s r).listener
  unfolding finish_watch
  finish_watch-Quiet s r v = stopped_before-Quiet s r.ending v

  pub watch_round-IsValid :
      (s : Source) (r : Round) → IsValid s → IsValid (watch_round platform dpapi s r)
  unfolding watch_round
  watch_round-IsValid s r v =
      let done = finish_watch platform dpapi s r in
      let next = settle platform dpapi (look platform dpapi s r) r in
      if_ind IsValid (not s.watching) s (if s.stopping then done else next) (λ e. v)
        (λ e.
          if_ind IsValid s.stopping done next (λ f h. finish_watch-Quiet s r v)
            (λ f. settle-IsValid (look platform dpapi s r) r (look-IsValid s r v)))

  work-IsValid :
      (s : Source) (w : Work)
      → IsValid s
      → IsValid (record s { listener = Steps.step platform s.expires s.listener (event_of w) })
  work-IsValid s w v = λ h. rw (work-Quiet s.expires s.listener w (v h)) (v h)

  step-IsValid : (s : Source) (event : Event) → IsValid s → IsValid (step s event)
  unfolding step
  step-IsValid s Event.show v = v
  step-IsValid s Event.hide v = v
  step-IsValid s Event.ending v = v
  step-IsValid s (Event.frame width height) v = v
  step-IsValid s (Event.change new found) v =
      if_ind IsValid (bool_eqb new.hardware_decode s.hardware_decode || not s.has_child) _ _
        (λ e. v) (λ e. if_ind IsValid (not found) _ _ (λ f. v) (λ f. v))
  step-IsValid s (Event.work w) v = work-IsValid s w v
  step-IsValid s (Event.watch r) v = watch_round-IsValid s r v

  pub run_source-IsValid :
      (s : Source) (events : List Event) → IsValid s → IsValid (run_source s events)
  unfolding run_source
  run_source-IsValid s [] v = v
  run_source-IsValid s (event ∷ events) v =
      run_source-IsValid (step s event) events (step-IsValid s event v)

  pub run_source-new_source-IsValid :
      (sink : Sink) (settings : Settings) (events : List Event)
      → IsValid (run_source (new_source sink settings) events)
  unfolding new_listener
  run_source-new_source-IsValid sink settings events =
      run_source-IsValid (new_source sink settings) events (λ h. record {
        not_running = refl;
        none_waits = refl;
        over = refl;
        listener_closed = refl;
        peer_closed = refl;
      })
