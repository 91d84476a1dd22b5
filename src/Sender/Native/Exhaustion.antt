-- ===== src/Sender/Native/Exhaustion.antt =====
-- The worker of native_sender.cpp when no attempt to connect succeeds.
use android2pc_stream.Prelude.{
  ◌+◌, ◌≤◌, ◌<◌, ◌≡◌, refl, ap, ◌∙◌, Bool, true, false, List, [], ◌∷◌, length, All, if◌then◌else◌,
  arith,
}
use android2pc_stream.Sender.Native.State.{Sender, SenderStatus, SenderError, Stage}
use android2pc_stream.Sender.Native.Worker.{
  Attempt, Round, erred, reset_mux_after_disconnect, retry, retry_or_give_up, after_attempt,
  connect_round, worker_step, run_worker,
}

-- An attempt that fails, but not by a rejected encryption.
abbrev pub fails : Attempt → Bool
fails Attempt.no_socket = true
fails Attempt.not_configured = true
fails Attempt.not_connected = true
fails _ = false

-- What one of them leads to while fewer than ten have failed in a row, and what the last one leads to.
pub record TriesAgain (s final : Sender) : Type 0 where
  pub attempts_next : final.stage ≡ Stage.attempting
  pub still_running : final.stopping ≡ false
  pub one_more : final.consecutive_failures ≡ s.consecutive_failures + 1

pub record GaveUp (final : Sender) : Type 0 where
  pub ended : final.stage ≡ Stage.finished
  pub failed_status : final.status ≡ SenderStatus.failed
  pub exhausted : final.error ≡ SenderError.reconnect_exhausted

retry-TriesAgain :
    (s : Sender)
    → s.stopping ≡ false
    → s.consecutive_failures < 10
    → TriesAgain s (retry_or_give_up s true)
unfolding retry_or_give_up retry
retry-TriesAgain s r h = ground arith

retry-GaveUp : (s : Sender) → s.consecutive_failures ≡ 10 → GaveUp (retry_or_give_up s true)
unfolding retry_or_give_up
retry-GaveUp s h = ground arith

after_attempt-retry :
    (s : Sender) (attempt : Attempt)
    → fails attempt ≡ true
    → after_attempt s attempt true ≡ retry_or_give_up (erred s attempt) true
unfolding after_attempt
after_attempt-retry s Attempt.no_socket f = refl
after_attempt-retry s Attempt.not_configured f = refl
after_attempt-retry s Attempt.not_connected f = refl
after_attempt-retry s Attempt.not_encrypted f = cc
after_attempt-retry s Attempt.made f = cc

abbrev trying : Sender → Sender
trying s = record s {
  status = if s.has_streamed then SenderStatus.reconnecting else SenderStatus.connecting;
}

failed_round :
    (s : Sender) (attempt : Attempt)
    → s.stage ≡ Stage.attempting
    → s.stopping ≡ false
    → fails attempt ≡ true
    → worker_step s s.stage (Round.connect attempt true)
      ≡ retry_or_give_up (erred (trying s) attempt) true
unfolding worker_step connect_round
failed_round s attempt e r f =
    ap (λ (stage : Stage). worker_step s stage (Round.connect attempt true)) e
    ∙ ground (arith, after_attempt-retry (trying s) attempt f)

abbrev pub failing : List Attempt → List Round
failing [] = []
failing (attempt ∷ attempts) = Round.connect attempt true ∷ failing attempts

-- A worker that is not stopped gives up if no attempt connects: where `n` attempts in a row, at
-- most ten, have failed, it ends after 11 - n more that fail other than by a rejected encryption,
-- each delay in between elapsing, with the status `failed` and the error of exhausted attempts.
pub run_worker-GaveUp :
    (attempts : List Attempt) (s : Sender)
    → s.stage ≡ Stage.attempting
    → s.stopping ≡ false
    → All (λ attempt. fails attempt ≡ true) attempts
    → s.consecutive_failures + length attempts ≡ 11
    → s.consecutive_failures ≤ 10
    → GaveUp (run_worker s (failing attempts))
unfolding run_worker reset_mux_after_disconnect
run_worker-GaveUp [] s e r f h k = absurd (omega arith)
run_worker-GaveUp (a ∷ []) s e r f h k =
    rw (failed_round s a e r f.0) (retry-GaveUp (erred (trying s) a) (omega arith))
run_worker-GaveUp (a ∷ b ∷ attempts) s e r f h k =
    let next = retry-TriesAgain (erred (trying s) a) r (omega arith) in
    rw (run_worker, failed_round s a e r f.0)
      (run_worker-GaveUp (b ∷ attempts) (retry_or_give_up (erred (trying s) a) true)
        next.attempts_next next.still_running f.1 (omega (arith, next.one_more))
        (omega (arith, next.one_more)))
