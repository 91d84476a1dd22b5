-- ===== src/Sender/Native/State.antt =====
-- NativeSender's fields, its status and error numbers, start and stop.
use android2pc_stream.Prelude.{
  ℕ, ◌*◌, ◌/◌, min, Bool, true, false, not, List, [], length, replicate, if◌then◌else◌,
}
use android2pc_stream.Platform.{Platform}
use android2pc_stream.Sender.Queue
use android2pc_stream.Sender.Queue.{PacketQueue, new_queue}
use android2pc_stream.Sender.Muxer.State.{Muxer, new_muxer}
use android2pc_stream.Sender.Native.Config.{SenderConfig, validate_config}

pub data SenderStatus : Type 0 where
  stopped connecting connected reconnecting authentication_failed failed needs_key_frame :
      SenderStatus

pub data SenderError : Type 0 where
  no_error invalid_configuration socket_configuration connection encryption_rejected send
        reconnect_exhausted mux backpressure :
      SenderError

abbrev pub maximum_queue_packets : ℕ
maximum_queue_packets = 16384

abbrev pub maximum_queue_bytes : ℕ
maximum_queue_bytes = 16 * 1024 * 1024

-- The worker's place: none, before an attempt to connect, in its inner loop, or past its end.
pub data Stage : Type 0 where
  no_worker attempting sending finished : Stage

-- The sender, with the local variables of `worker_main`. `waits` are the indices that
-- `wait_for_reconnect` was called with.
pub record Sender : Type 0 where
  pub config : SenderConfig
  pub queue : PacketQueue
  pub muxer : Muxer
  pub video_started : Bool
  pub status : SenderStatus
  pub error : SenderError
  pub stopping : Bool
  pub socket_open : Bool
  pub stage : Stage
  pub consecutive_failures : ℕ
  pub has_streamed : Bool
  pub sent_media : Bool
  pub waits : List ℕ

unfoldable pub new_sender : SenderConfig → Sender
unfolding new_muxer new_queue
new_sender config = record {
  config = config;
  queue = new_queue maximum_queue_packets maximum_queue_bytes;
  muxer =
      new_muxer config.video_codec config.audio_enabled config.audio_sample_rate
        config.audio_channels;
  video_started = false;
  status = SenderStatus.stopped;
  error = SenderError.no_error;
  stopping = false;
  socket_open = false;
  stage = Stage.no_worker;
  consecutive_failures = 0;
  has_streamed = false;
  sent_media = false;
  waits = [];
}

-- `worker_.joinable()`: a thread that has ended is joinable until it is joined.
abbrev pub is_joinable : Stage → Bool
is_joinable Stage.no_worker = false
is_joinable _ = true

unfoldable pub start : Platform → Sender → Sender × Bool
start platform s =
    if is_joinable s.stage
    then (s, not s.stopping)
    else if not (validate_config platform s.config)
    then (
      record s { status = SenderStatus.failed; error = SenderError.invalid_configuration },
      false,
    )
    else (
      record s {
        stopping = false;
        error = SenderError.no_error;
        status = SenderStatus.connecting;
        queue = Queue.reset s.queue;
        stage = Stage.attempting;
        consecutive_failures = 0;
        has_streamed = false;
      },
      true,
    )

-- The first part of `stop`, up to the join.
unfoldable pub request_stop : Sender → Sender
request_stop s = record s { stopping = true; queue = Queue.cancel s.queue; socket_open = false }

-- What `stop` does behind the join.
unfoldable pub finish_stop : Sender → Sender
finish_stop s = record s {
  status = SenderStatus.stopped;
  error = SenderError.no_error;
  stage = Stage.no_worker;
  config = record s.config { secret = replicate (length s.config.secret) 0 };
}

unfoldable pub queue_percent : Sender → ℕ
queue_percent s = min 100 (Queue.size_bytes s.queue * 100 / maximum_queue_bytes)
