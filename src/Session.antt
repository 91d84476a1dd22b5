-- ===== src/Session.antt =====
-- The sender of native_sender.cpp with its producers: the encoders' calls, the worker's rounds, starts and
-- stops as one sequence of events, and what is to hold of the sender between two of them.
pub mod Units
pub mod Rounds
pub mod Runs
pub mod Application
use android2pc_stream.Prelude.{
  ℕ, ◌+◌, ◌≤◌, ◌<◌, ◌≡◌, refl, ap, ◌∙◌, ◌⊎◌, inl, inr, Bool, true, false, not, ◌||◌, Option, none,
  some, List, [], ◌∷◌, ◌++◌, length, is_empty, ltb, leb, if◌then◌else◌, All, All-append, Bool-cases,
  Option-cases, arith,
}
use android2pc_stream.Prelude.Int.{ℤ, pos, is_negative, ltb_ℤ}
use android2pc_stream.Packets.{Packet, PacketBatch}
use android2pc_stream.Sender.Queue
use android2pc_stream.Sender.Queue.{PacketQueue, new_queue}
use android2pc_stream.Sender.Muxer.State.{Muxer, reset, new_muxer, maximum_audio_access_unit_bytes}
use android2pc_stream.Sender.Muxer.Adts.{build_adts}
use android2pc_stream.Sender.Muxer.Psi.{Counters}
use android2pc_stream.Sender.Muxer.Write
use android2pc_stream.Sender.Native.Config.{SenderConfig, validate_config}
use android2pc_stream.Platform.{Platform}
use android2pc_stream.Sender.Native.State
use android2pc_stream.Sender.Native.State.{
  Sender, SenderStatus, Stage, request_stop, finish_stop, new_sender,
}
use android2pc_stream.Sender.Native.Media
use android2pc_stream.Sender.Native.Staging.{
  Staged, video_muxer, write_video-Staged, write_audio-Staged,
}
use android2pc_stream.Sender.Native.Worker.{
  Attempt, Round, worker_step, connect_round, send_round, after_attempt, after_pop, disconnect,
  retry, retry_or_give_up, reset_mux_after_disconnect, erred, closed, now_connected,
}
use android2pc_stream.Delivery.{Delivered, Delivered-Passes, Passes}
use android2pc_stream.Delivery.Video.{write_video-Delivered, write_video_accepts}
use android2pc_stream.Delivery.Audio.{AcceptsAudio, write_audio-Delivered}

-- Every queued payload passes the sender's and the receiver's test, and the counters fit.
pub record Sound (s : Sender) : Type 0 where
  pub counters : Counters s.muxer
  pub passing : All Passes s.queue.packets

-- What reaches a sender: the calls, the worker's rounds, and the part of `stop` behind the join. Any order is
-- allowed, also those that the join rules out.
pub data Event : Type 0 where
  video : List ℕ → ℤ → Bool → Event
  audio : List ℕ → ℤ → Event
  round : Round → Event
  start : Platform → Event
  stop joined : Event

unfoldable pub step : Sender → Event → Sender
step s (Event.video access_unit time key_frame) = (Media.write_video s access_unit time key_frame).0
step s (Event.audio access_unit time) = (Media.write_audio s access_unit time).0
step s (Event.round r) = worker_step s s.stage r
step s (Event.start platform) = (State.start platform s).0
step s Event.stop = request_stop s
step s Event.joined = finish_stop s

pub run_session : Sender → List Event → Sender
unfolding step
run_session s [] = s
run_session s (event ∷ events) = run_session (step s event) events
