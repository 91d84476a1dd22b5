-- ===== src/Sender/Native/Worker.antt =====
-- NativeSender::worker_main, round by round. A round is one attempt to connect, or one round of the inner
-- loop; it carries what the calls of SRT and of the waiting answer.
use android2pc_stream.Prelude.{
  ℕ, ◌+◌, Bool, true, false, not, ◌||◌, Option, none, some, List, [], ◌∷◌, ◌++◌, length, is_empty,
  ltb, leb, if◌then◌else◌,
}
use android2pc_stream.Packets.{Packet}
use android2pc_stream.Sender.Queue
use android2pc_stream.Sender.Native.State.{Sender, SenderStatus, SenderError, Stage}

abbrev pub reconnect_delay_seconds : List ℕ
reconnect_delay_seconds = 1 ∷ 2 ∷ 4 ∷ 8 ∷ 16 ∷ 30 ∷ 30 ∷ 30 ∷ 30 ∷ 30 ∷ []

abbrev pub payload_bytes : ℕ
payload_bytes = 1316

-- How `connect_socket` ends.
pub data Attempt : Type 0 where
  no_socket not_configured not_connected not_encrypted made : Attempt

unfoldable pub reset_mux_after_disconnect : Sender → Sender
reset_mux_after_disconnect s = record s { queue = Queue.clear s.queue; video_started = false }

abbrev pub fail : Sender → SenderStatus → SenderError → Sender
fail s status error = record s { status = status; error = error; stage = Stage.finished }

-- `if (!wait_for_reconnect(consecutive_failures)) break; ++consecutive_failures; continue;`, where
-- `elapsed` says that the whole delay went by.
unfoldable pub retry : Sender → Bool → Sender
retry s elapsed =
    let waited = record s { waits = s.waits ++ s.consecutive_failures ∷ [] } in
    if not elapsed then record waited { stage = Stage.finished } else record waited {
      consecutive_failures = s.consecutive_failures + 1;
      stage = Stage.attempting;
    }

-- The test of the number of failures in front of it.
unfoldable pub retry_or_give_up : Sender → Bool → Sender
unfolding retry
retry_or_give_up s elapsed =
    if leb (length reconnect_delay_seconds) s.consecutive_failures
    then fail s SenderStatus.failed SenderError.reconnect_exhausted
    else retry s elapsed

abbrev pub attempt_error : Attempt → SenderError
attempt_error Attempt.not_configured = SenderError.socket_configuration
attempt_error Attempt.not_encrypted = SenderError.encryption_rejected
attempt_error _ = SenderError.connection

-- What `connect_socket` leaves in `error_` where it fails, with the muxer's epoch ended.
abbrev pub erred : Sender → Attempt → Sender
erred s attempt = record (reset_mux_after_disconnect s) { error = attempt_error attempt }

-- What follows an attempt.
unfoldable pub after_attempt : Sender → Attempt → Bool → Sender
unfolding reset_mux_after_disconnect retry_or_give_up
after_attempt s Attempt.made elapsed =
    let clean = reset_mux_after_disconnect s in
    record clean {
      socket_open = true;
      error = SenderError.no_error;
      has_streamed = true;
      status = SenderStatus.needs_key_frame;
      sent_media = false;
      stage = Stage.sending;
    }
after_attempt s Attempt.not_encrypted elapsed =
    fail (reset_mux_after_disconnect s) SenderStatus.authentication_failed
      SenderError.encryption_rejected
after_attempt s attempt elapsed = retry_or_give_up (erred s attempt) elapsed

unfoldable pub connect_round : Sender → Attempt → Bool → Sender
unfolding after_attempt
connect_round s attempt elapsed =
    if s.stopping
    then record s { stage = Stage.finished }
    else after_attempt
        (record s {
          status = if s.has_streamed then SenderStatus.reconnecting else SenderStatus.connecting;
        })
        attempt elapsed

-- What follows the inner loop after a failed call; the loop ends in no other way but a stop.
abbrev pub closed : Sender → Sender
closed s = record (reset_mux_after_disconnect s) {
  socket_open = false;
  error = SenderError.send;
  consecutive_failures = if s.sent_media then 0 else s.consecutive_failures;
}

unfoldable pub disconnect : Sender → Bool → Sender
unfolding reset_mux_after_disconnect retry_or_give_up
disconnect s elapsed = retry_or_give_up (closed s) elapsed

abbrev pub now_connected : SenderStatus → SenderStatus
now_connected SenderStatus.needs_key_frame = SenderStatus.connected
now_connected status = status

-- What follows `wait_pop_for`: `lost` says that the idle socket is broken, closing or closed, `sent` that
-- `srt_sendmsg2` took the whole packet.
unfoldable pub after_pop : Sender → Option Packet → Bool → Bool → Bool → Sender
unfolding disconnect
after_pop s none lost sent elapsed = if lost then disconnect s elapsed else s
after_pop s (some packet) lost sent elapsed =
    if is_empty packet || ltb payload_bytes (length packet)
    then s
    else if not sent
    then disconnect s elapsed
    else record s { sent_media = true; status = now_connected s.status }

unfoldable pub send_round : Sender → Bool → Bool → Bool → Sender
unfolding after_pop
send_round s lost sent elapsed =
    if s.stopping
    then record s { socket_open = false; stage = Stage.finished }
    else (let (queue, packet) = Queue.wait_pop_for s.queue in
        after_pop (record s { queue = queue }) packet lost sent elapsed)

-- The worker's rounds, one by one. A round that does not belong to the stage changes nothing.
pub data Round : Type 0 where
  connect : Attempt → Bool → Round
  transmit : Bool → Bool → Bool → Round

unfoldable pub worker_step : Sender → Stage → Round → Sender
unfolding connect_round send_round
worker_step s Stage.attempting (Round.connect attempt elapsed) = connect_round s attempt elapsed
worker_step s Stage.sending (Round.transmit lost sent elapsed) = send_round s lost sent elapsed
worker_step s stage round = s

unfoldable pub run_worker : Sender → List Round → Sender
unfolding worker_step
run_worker s [] = s
run_worker s (round ∷ rounds) = run_worker (worker_step s s.stage round) rounds
