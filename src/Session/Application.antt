-- ===== src/Session/Application.antt =====
-- The senders of jni_bridge.cpp's registry, under any calls of the application.
use android2pc_stream.Prelude.{◌≡◌, some, List, [], ◌∷◌, All}
use android2pc_stream.Prelude.Int.{ℤ}
use android2pc_stream.Platform.{Platform}
use android2pc_stream.Sender.Muxer.Psi.{Counters}
use android2pc_stream.Sender.Native.State.{Sender, request_stop}
use android2pc_stream.Sender.Native.Worker.{Round, run_worker, worker_step}
use android2pc_stream.Sender.Bridge.{Call, find_sender, run_calls, stop, empty_registry}
use android2pc_stream.Sender.Bridge.Invariant.{
  Kept, run_calls-IsValid, empty_registry-IsValid, each-find,
}
use android2pc_stream.Delivery.{Passes}
use android2pc_stream.Session.{Sound, Event, step}
use android2pc_stream.Session.Runs.{start-Sound, step-Sound, new_sender-Sound}
use android2pc_stream.Session.Rounds.{Kept-Sound, worker_step-Kept}

run_worker-Sound : (s : Sender) (rounds : List Round) → Sound s → Sound (run_worker s rounds)
unfolding run_worker
run_worker-Sound s [] v = v
run_worker-Sound s (round ∷ rounds) v =
    run_worker-Sound (worker_step s s.stage round) rounds
      (Kept-Sound s _ (worker_step-Kept s s.stage round) v)

stop-Sound : (s : Sender) (rounds : List Round) → Sound s → Sound (stop s rounds)
unfolding stop step
stop-Sound s rounds v =
    step-Sound (run_worker (request_stop s) rounds) Event.joined
      (run_worker-Sound (request_stop s) rounds (step-Sound s Event.stop v))

Sound-Kept : (platform : Platform) → Kept platform Sound
unfolding step
Sound-Kept platform = record {
  created = λ c valid. new_sender-Sound c;
  started = λ s v. start-Sound s platform v;
  stopped = stop-Sound;
  worked = run_worker-Sound;
  wrote_video = λ s unit time key_frame v. step-Sound s (Event.video unit time key_frame) v;
  wrote_audio = λ s unit time v. step-Sound s (Event.audio unit time) v;
}

-- From the load of the library on, whatever calls the application makes, on whatever handles, with any rounds
-- of the workers in between: for every sender that a handle finds, the continuity counters are below 16,
-- and each packet that is queued passes the receiver's `valid_ts_group` and the queue's test of a packet's
-- size.
pub run_calls-Sound :
    (platform : Platform) (calls : List Call) (handle : ℤ) (s : Sender)
    → find_sender (run_calls platform empty_registry calls) handle ≡ some s
    → Counters s.muxer × All Passes s.queue.packets
unfolding find_sender
run_calls-Sound platform calls handle s found =
    let v =
      run_calls-IsValid Sound platform (Sound-Kept platform) empty_registry calls
        (empty_registry-IsValid Sound) in
    let sound = each-find Sound handle s _ v.each found in (sound.counters, sound.passing)
