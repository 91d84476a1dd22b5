-- ===== src/Receiver/Source/Stopping.antt =====
-- SrtListener::stop ends the listener's thread, wherever it is.
use android2pc_stream.Prelude.{ℕ, ◌≡◌, refl, inl, inr, true, false, arith, Bool-cases}
use android2pc_stream.Platform.{Platform}
use android2pc_stream.Receiver.Status.{ReceiverState, publish}
use android2pc_stream.Receiver.Listener.State.{
  Listener, Phase, Setup, Accept, Receive, Event, is_over, is_starting, is_accepting, is_receiving,
}
use android2pc_stream.Receiver.Listener.Steps.{
  step, run, run_setup, accept_peer, receive_round, leave_peer,
}
use android2pc_stream.Receiver.Source.Watch.{Ending, stop_listener}

-- The thread is over and nothing is open.
pub record Quiet (l : Listener) : Type 0 where
  pub not_running : l.running ≡ false
  pub none_waits : l.stopping ≡ false
  pub over : is_over l.phase ≡ true
  pub listener_closed : l.listener_open ≡ false
  pub peer_closed : l.peer_open ≡ false

-- The state that a stop asks for, at each place of the thread.
pub record Asked (l : Listener) : Type 0 where
  pub not_running : l.running ≡ false
  pub over_closed : is_over l.phase ≡ true → l.listener_open ≡ false
  pub peer_closed : l.peer_open ≡ false

Phase-over :
    (p : Phase)
    → is_receiving p ≡ false
    → is_starting p ≡ false
    → is_accepting p ≡ false
    → is_over p ≡ true
Phase-over Phase.idle h k m = refl
Phase-over Phase.ended h k m = refl
Phase-over _ h k m = cc

module _ (platform : Platform) (expires : ℕ) where
  after_receive :
      (l : Listener) (r : Receive)
      → Asked l
      → Asked (step platform expires l (Event.receive r))
        × (is_receiving (step platform expires l (Event.receive r)).phase ≡ false)
  unfolding step receive_round leave_peer
  after_receive l r a = elim (Bool-cases (is_receiving l.phase)) [
    | inl e ↦
        rw (e, a.not_running)
          (record { not_running = refl; over_closed = λ h. cc; peer_closed = refl }, refl)
    | inr e ↦ rw e (a, e)
  ]

  run_setup-Asked :
      (l : Listener) (s : Setup)
      → Asked l
      → Asked (run_setup l s)
        × (is_receiving (run_setup l s).phase ≡ false)
        × (is_starting (run_setup l s).phase ≡ false)
  unfolding run_setup
  run_setup-Asked l s a = ground (arith, a.not_running, a.peer_closed)

  after_setup :
      (l : Listener) (s : Setup)
      → Asked l
      → is_receiving l.phase ≡ false
      → (let after = step platform expires l (Event.setup s) in
          Asked after × (is_receiving after.phase ≡ false) × (is_starting after.phase ≡ false))
  unfolding step
  after_setup l s a h = elim (Bool-cases (is_starting l.phase)) [
    | inl e ↦ rw e (run_setup-Asked l s a)
    | inr e ↦ rw e (a, h, e)
  ]

  after_accept :
      (l : Listener) (c : Accept)
      → Asked l
      → is_receiving l.phase ≡ false
      → is_starting l.phase ≡ false
      → (let after = step platform expires l (Event.accept c) in
          Asked after × (is_over after.phase ≡ true))
  unfolding step accept_peer
  after_accept l c a h k = elim (Bool-cases (is_accepting l.phase)) [
    | inl e ↦
        rw (e, a.not_running)
          (record { not_running = refl; over_closed = λ o. refl; peer_closed = refl }, refl)
    | inr e ↦ rw e (a, Phase-over l.phase h k e)
  ]

  after_joined :
      (l : Listener)
      → Asked l
      → is_over l.phase ≡ true
      → Quiet (step platform expires l Event.joined)
        × ((step platform expires l Event.joined).status.state ≡ ReceiverState.stopped)
  unfolding step publish
  after_joined l a o = rw o (
    record {
      not_running = a.not_running;
      none_waits = refl;
      over = refl;
      listener_closed = a.over_closed o;
      peer_closed = a.peer_closed;
    },
    refl,
  )

  after_request : (l : Listener) → Asked (step platform expires l Event.request_stop)
  unfolding step
  after_request l = record { not_running = refl; over_closed = λ h. refl; peer_closed = refl }

  -- Wherever the listener's thread is, once a stop is asked for, one more round of each of its loops ends it:
  -- the join returns, both sockets are closed, and the state is `stopped`.
  pub stop_listener-Quiet :
      (l : Listener) (e : Ending)
      → Quiet (stop_listener platform expires l e)
        × ((stop_listener platform expires l e).status.state ≡ ReceiverState.stopped)
  unfolding stop_listener run
  stop_listener-Quiet l e =
      let asked = step platform expires l Event.request_stop in
      let (a, h) = after_receive asked e.receive (after_request l) in
      let received = step platform expires asked (Event.receive e.receive) in
      let (b, i, j) = after_setup received e.setup a h in
      let set_up = step platform expires received (Event.setup e.setup) in
      let (c, o) = after_accept set_up e.accept b i j in
      after_joined (step platform expires set_up (Event.accept e.accept)) c o
