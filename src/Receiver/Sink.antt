-- ===== src/Receiver/Sink.antt =====
-- pc/src/named_pipe_sink.cpp: the queue's worker that writes the received payloads into a named pipe.
-- The pipe is a parameter: each event carries what its calls answer. The atomic fields are fields of one
-- state, and each event is one call of `start`, `stop` or `enqueue`, or one round of the worker.
pub mod Handshake
use android2pc_stream.Prelude.{
  ℕ, ◌+◌, ◌*◌, min, Bool, true, false, not, ◌&&◌, ◌||◌, Option, none, some, List, [], ◌∷◌, ◌++◌,
  length, take, drop, ltb, ◌==◌, if◌then◌else◌, codes, starts_with, is_empty,
}
use android2pc_stream.Packets.{Packet}
use android2pc_stream.Receiver.Queue
use android2pc_stream.Receiver.Queue.{PacketQueue}

-- Where the worker is: not running, at the head of its loop, at the head of the inner loop.
pub data Stage : Type 0 where
  stopped creating writing : Stage

pub record Sink : Type 0 where
  pub running : Bool
  pub restart_transport : Bool
  pub client_connected : Bool
  pub queue : PacketQueue
  pub pipe_open : Bool
  pub stage : Stage
  pub create_error : ℕ
  pub create_backoff : ℕ
  -- The bytes that the present client got.
  pub sent : List ℕ

-- "\\.\pipe\local-camera-receiver-".
abbrev pub pipe_prefix : List ℕ
pipe_prefix =
    b'\\' ∷ b'\\' ∷ b'.' ∷ b'\\' ∷ (codes "pipe" ++ b'\\' ∷ codes "local-camera-receiver-")

unfoldable pub is_pipe_name : List ℕ → Bool
is_pipe_name name =
    not (ltb (length name) 24 || ltb 180 (length name) || not (starts_with name pipe_prefix))

-- `start`, for a worker that has ended.
unfoldable pub start : Sink → List ℕ → Sink × Bool
start s name = if not (is_pipe_name name) then (s, false) else if s.running then (s, true) else (
  record s {
    running = true;
    restart_transport = false;
    client_connected = false;
    queue = Queue.reset s.queue;
    stage = Stage.creating;
    create_backoff = 75;
  },
  true,
)

-- `stop`, its join included.
unfoldable pub stop : Sink → Sink
stop s = record s {
  running = false;
  restart_transport = false;
  client_connected = false;
  queue = Queue.clear (Queue.cancel s.queue);
  pipe_open = false;
  stage = Stage.stopped;
}

unfoldable pub enqueue : Sink → Packet → Sink × Bool
enqueue s packet =
    if not s.running
    then (s, false)
    else if s.restart_transport
    then (record s { restart_transport = false; queue = Queue.clear s.queue }, false)
    else (let (queue, taken) = Queue.push s.queue packet in (record s { queue = queue }, taken))

-- The result of CreateNamedPipeW: a handle, or GetLastError.
pub data Created : Type 0 where
  handle : Created
  failed : ℕ → Created

-- One round of the outer loop, up to ConnectNamedPipe: `secured` is the answer of `current_user_only`.
unfoldable pub create_round : Sink → Bool → Created → Bool → Sink
create_round s secured (Created.failed error) connected =
    if not secured
    then record s { running = false; client_connected = false; stage = Stage.stopped }
    else record s { create_error = error; create_backoff = min (s.create_backoff * 2) 800 }
create_round s secured Created.handle connected =
    if not secured
    then record s { running = false; client_connected = false; stage = Stage.stopped }
    else if connected
    then record s {
      create_error = 0;
      create_backoff = 75;
      pipe_open = true;
      client_connected = true;
      stage = Stage.writing;
      sent = [];
    }
    else record s {
      create_error = 0;
      create_backoff = 75;
      pipe_open = false;
      client_connected = false;
    }

-- WriteFile, call by call: none where it fails, or the count. The list ends where `stop` was called.
-- The bytes that went out, and `pipe_broken`.
unfoldable pub write_loop : List (Option ℕ) → List ℕ → List ℕ × Bool
write_loop outcomes [] = ([], false)
write_loop [] (b ∷ bs) = ([], false)
write_loop (none ∷ outcomes) (b ∷ bs) = ([], true)
write_loop (some written ∷ outcomes) (b ∷ bs) =
    let (rest, broken) = write_loop outcomes (drop written (b ∷ bs)) in
    if written == 0 then ([], true) else (take written (b ∷ bs) ++ rest, broken)

-- The cleanup behind the inner loop.
unfoldable pub leave_client : Sink → Bool → Sink
leave_client s broken =
    let flushed =
      if broken then record s { queue = Queue.clear s.queue; restart_transport = true } else s in
    record flushed { client_connected = false; pipe_open = false; stage = Stage.creating }

-- What the round behind `wait_pop_for` does: a probe on an idle window, or the writes.
unfoldable pub after_pop : Sink → Option Packet → Bool → List (Option ℕ) → Sink
unfolding leave_client write_loop
after_pop s none alive outcomes = if alive then s else leave_client s true
after_pop s (some packet) alive outcomes =
    let (bytes, broken) = write_loop outcomes packet in
    let written = record s { sent = s.sent ++ bytes } in
    if broken then leave_client written true else written

-- One round of the inner loop. `alive` is the answer of the probe.
unfoldable pub write_round : Sink → Bool → List (Option ℕ) → Sink
unfolding after_pop
write_round s alive outcomes =
    let (queue, packet) = Queue.wait_pop_for s.queue in
    after_pop (record s { queue = queue }) packet alive outcomes
