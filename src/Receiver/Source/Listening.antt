-- ===== src/Receiver/Source/Listening.antt =====
-- What one round of watch_config leaves: nothing open for a hidden source, a listener for one that listens.
use android2pc_stream.Prelude.{
  ◌≡◌, refl, ◌∙◌, inl, inr, ◌⊎◌, true, false, not, ◌&&◌, ◌||◌, List, if◌then◌else◌, arith, if_ind,
}
use android2pc_stream.Platform.{Platform}
use android2pc_stream.Receiver.Store.{Dpapi}
use android2pc_stream.Receiver.Sink.{Sink}
use android2pc_stream.Receiver.Source.{Source, Settings, new_source}
use android2pc_stream.Receiver.Source.Watch.{
  Round, watch_round, look, settle, reload, finish_watch, stopped, should_listen, changed,
  heartbeat, is_down,
}
use android2pc_stream.Receiver.Source.Stopping.{Quiet}
use android2pc_stream.Receiver.Source.Watching.{
  Event, IsValid, run_source, stopped-Quiet, look-IsValid, finish_watch-Quiet,
  run_source-new_source-IsValid,
}

-- The listener is not started, its thread is over, and nothing is open.
abbrev pub Closed : Source → Type 0
Closed s = (s.listener_started ≡ false) × Quiet s.listener

module _ (platform : Platform) (dpapi : Dpapi) where
  -- What the first part of a round keeps.
  abbrev pub Looked : Source → Source → Type 0
  Looked s t =
      (should_listen t ≡ should_listen s)
      × ((t.listener_started ≡ true)
          → (t.listener ≡ s.listener) × (is_down s.listener.status.state ≡ false))

  pub look-Looked : (s : Source) (r : Round) → Looked s (look platform dpapi s r)
  unfolding look
  look-Looked s r =
      let told = heartbeat s r.pipe_ready in
      let down = stopped platform told r.ending in
      if_ind (Looked s) (not s.listener_started) s
        (if is_down s.listener.status.state then down else told) (λ off. (refl, λ on. cc))
        (λ on.
          if_ind (Looked s) (is_down s.listener.status.state) down told
            (λ e.
              if_ind (λ (t : Source). Looked s (stopped platform t r.ending)) (not r.pipe_ready) s _
                (λ f. (refl, λ h. cc)) (λ f. (refl, λ h. cc)))
            (λ e.
              if_ind (Looked s) (not r.pipe_ready) s _ (λ f. (refl, λ h. (refl, e)))
                (λ f. (refl, λ h. (refl, e)))))

  settle-Closed :
      (s : Source) (r : Round)
      → IsValid s
      → should_listen s ≡ false
      → Closed (settle platform dpapi s r)
  unfolding settle
  settle-Closed s r v hidden =
      let quiet = stopped platform s r.ending in
      let next = reload platform dpapi s r in
      let test = should_listen s && (changed r.write_time s.last_write || not s.listener_started) in
      if_ind Closed (not (should_listen s) && s.listener_started) quiet (if test then next else s)
        (λ e. (refl, stopped-Quiet platform dpapi s r.ending))
        (λ e.
          let off : s.listener_started ≡ false = ground arith in
          if_ind Closed test next s (λ f. absurd (ground arith)) (λ f. (off, v off)))

  finish_watch-Closed :
      (s : Source) (r : Round) → IsValid s → Closed (finish_watch platform dpapi s r)
  unfolding finish_watch
  finish_watch-Closed s r v = (
    if_ind (λ (t : Source). t.listener_started ≡ false) s.listener_started
        (stopped platform s r.ending) s (λ e. refl) (λ e. e),
    finish_watch-Quiet platform dpapi s r v,
  )

  watch_round-Closed :
      (s : Source) (r : Round)
      → IsValid s
      → s.watching ≡ true
      → (should_listen s ≡ false) ⊎ (s.stopping ≡ true)
      → Closed (watch_round platform dpapi s r)
  unfolding watch_round
  watch_round-Closed s r v on quiet =
      let done = finish_watch platform dpapi s r in
      let seen = look platform dpapi s r in
      let next = settle platform dpapi seen r in
      if_ind Closed (not s.watching) s (if s.stopping then done else next) (λ e. cc)
        (λ e.
          if_ind Closed s.stopping done next (λ f. finish_watch-Closed s r v)
            (λ f.
              settle-Closed seen r (look-IsValid platform dpapi s r v)
                ((look-Looked s r).0 ∙ hidden quiet f)))
    where
      hidden :
          (should_listen s ≡ false) ⊎ (s.stopping ≡ true)
          → s.stopping ≡ false
          → should_listen s ≡ false
      hidden (inl h) f = h
      hidden (inr h) f = cc

  -- After any events of a new source, if it is then hidden and not to listen when hidden, or is being destroyed,
  -- the next round of the watching thread leaves the listener not started, its thread over, and its sockets
  -- closed.
  pub run_source-Closed :
      (sink : Sink) (settings : Settings) (events : List Event) (r : Round)
      → (let s = run_source platform dpapi (new_source sink settings) events in
          s.watching ≡ true
          → (should_listen s ≡ false) ⊎ (s.stopping ≡ true)
          → Closed (watch_round platform dpapi s r))
  run_source-Closed sink settings events r =
      watch_round-Closed (run_source platform dpapi (new_source sink settings) events) r
        (run_source-new_source-IsValid platform dpapi sink settings events)
