-- ===== src/Session/Runs.antt =====
-- What the queue of native_sender.cpp holds after any sequence of events.
use android2pc_stream.Prelude.{inl, inr, not, List, [], ◌∷◌, All, Bool-cases, arith}
use android2pc_stream.Sender.Queue
use android2pc_stream.Sender.Queue.{PacketQueue, new_queue}
use android2pc_stream.Sender.Muxer.State.{new_muxer}
use android2pc_stream.Sender.Muxer.Psi.{Counters}
use android2pc_stream.Sender.Native.Config.{SenderConfig, validate_config}
use android2pc_stream.Platform.{Platform}
use android2pc_stream.Sender.Native.State
use android2pc_stream.Sender.Native.State.{
  Sender, SenderStatus, Stage, request_stop, finish_stop, new_sender,
}
use android2pc_stream.Sender.Native.Staging.{video_muxer, write_video-Staged, write_audio-Staged}
use android2pc_stream.Delivery.{Passes}
use android2pc_stream.Session.{Sound, Event, step, run_session}
use android2pc_stream.Session.Units.{Staged-Sound, video_Good, audio_Good, video_muxer-Counters}
use android2pc_stream.Session.Rounds.{Kept-Sound, worker_step-Kept}

pub start-Sound : (s : Sender) (platform : Platform) → Sound s → Sound (State.start platform s).0
unfolding State.start Queue.reset
start-Sound s platform v = elim (Bool-cases (State.is_joinable s.stage)) [
  | inl joinable ↦ rw joinable v
  | inr idle ↦ elim (Bool-cases (not (validate_config platform s.config))) [
    | inl bad ↦ rw (idle, bad) (record { counters = v.counters; passing = v.passing })
    | inr good ↦ rw (idle, good) (record { counters = v.counters; passing = tt })
  ]
]

pub step-Sound : (s : Sender) (event : Event) → Sound s → Sound (step s event)
unfolding step request_stop finish_stop Queue.cancel
step-Sound s (Event.video access_unit time key_frame) v =
    let c = video_muxer-Counters s time v.counters in
    Staged-Sound s (video_muxer s time) _ _ (write_video-Staged s access_unit time key_frame) c
      (video_Good (video_muxer s time) access_unit time key_frame c) v
step-Sound s (Event.audio access_unit time) v =
    Staged-Sound s s.muxer _ _ (write_audio-Staged s access_unit time) v.counters
      (audio_Good s.muxer access_unit time v.counters) v
step-Sound s (Event.round r) v = Kept-Sound s _ (worker_step-Kept s s.stage r) v
step-Sound s (Event.start platform) v = start-Sound s platform v
step-Sound s Event.joined v = record { counters = v.counters; passing = v.passing }
step-Sound s Event.stop v = record { counters = v.counters; passing = tt }

run_session-Sound : (s : Sender) (events : List Event) → Sound s → Sound (run_session s events)
unfolding run_session
run_session-Sound s [] v = v
run_session-Sound s (event ∷ events) v =
    run_session-Sound (step s event) events (step-Sound s event v)

pub new_sender-Sound : (config : SenderConfig) → Sound (new_sender config)
unfolding new_sender new_muxer new_queue
new_sender-Sound config = record { counters = λ pid. ground arith; passing = tt }

-- A new sender's muxer counts from zero, and its queue is empty; so whatever starts, calls of the encoders,
-- rounds of the worker and stops follow, in any order and with any answers of SRT, the continuity counters stay
-- below 16, and each packet that is queued passes the receiver's `valid_ts_group` and the queue's test of
-- a packet's size.
pub run_session-new_sender :
    (config : SenderConfig) (events : List Event)
    → Counters (run_session (new_sender config) events).muxer
      × All Passes (run_session (new_sender config) events).queue.packets
run_session-new_sender config events =
    let v = run_session-Sound (new_sender config) events (new_sender-Sound config) in
    (v.counters, v.passing)
