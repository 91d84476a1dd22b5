-- ===== src/Sender/Native/Retries.antt =====
-- How often the worker tries again, and how it ends.
use android2pc_stream.Prelude.{
  ◌≤◌, ◌<◌, ◌≡◌, refl, Bool, true, false, Option, none, some, List, [], ◌∷◌, ◌++◌, length, All,
  All-append, if◌then◌else◌, Bool-cases, inl, inr, arith, leb,
}
use android2pc_stream.Packets.{Packet}
use android2pc_stream.Sender.Queue
use android2pc_stream.Sender.Native.State.{Sender, SenderStatus, Stage}
use android2pc_stream.Sender.Native.Worker.{
  Attempt, Round, erred, closed, reset_mux_after_disconnect, retry, retry_or_give_up, after_attempt,
  connect_round, disconnect, after_pop, send_round, worker_step, run_worker,
  reconnect_delay_seconds,
}

abbrev pub is_working : Stage → Bool
is_working Stage.attempting = true
is_working Stage.sending = true
is_working _ = false

abbrev pub has_failed : SenderStatus → Bool
has_failed SenderStatus.failed = true
has_failed SenderStatus.authentication_failed = true
has_failed _ = false

-- The index of every delay that was read is one of the table, and a sender that has failed works no more.
pub record IsValid (s : Sender) : Type 0 where
  pub bounded : s.consecutive_failures ≤ length reconnect_delay_seconds
  pub waits_in_range : All (λ i. i < length reconnect_delay_seconds) s.waits
  pub over : has_failed s.status ≡ true → is_working s.stage ≡ false

-- Without the last condition, which the rounds break on their way.
abbrev pub Counted : Sender → Type 0
Counted s =
    (s.consecutive_failures ≤ length reconnect_delay_seconds)
    × All (λ i. i < length reconnect_delay_seconds) s.waits

retry_or_give_up-IsValid :
    (s : Sender) (elapsed : Bool)
    → Counted s
    → has_failed s.status ≡ false
    → IsValid (retry_or_give_up s elapsed)
unfolding retry_or_give_up retry
retry_or_give_up-IsValid s elapsed (h, w) fine =
    elim (Bool-cases (leb (length reconnect_delay_seconds) s.consecutive_failures)) [
      | inl many ↦ rw many (record { bounded = h; waits_in_range = w; over = λ e. refl })
      | inr few ↦
          let below : s.consecutive_failures < 10 = ground (arith, few) in
          let more =
            All-append (λ i. i < length reconnect_delay_seconds) s.waits
              (s.consecutive_failures ∷ []) w (below, tt) in
          retried elapsed few below more
    ]
  where
    retried :
        (elapsed : Bool)
        → leb (length reconnect_delay_seconds) s.consecutive_failures ≡ false
        → s.consecutive_failures < 10
        → All (λ i. i < length reconnect_delay_seconds) (s.waits ++ s.consecutive_failures ∷ [])
        → IsValid (retry_or_give_up s elapsed)
    retried true few below more = rw few (record {
      bounded = omega arith;
      waits_in_range = more;
      over = λ e. absurd (ground (arith, fine));
    })
    retried false few below more =
        rw few (record { bounded = h; waits_in_range = more; over = λ e. refl })

disconnect-IsValid :
    (s : Sender) (elapsed : Bool)
    → Counted s
    → has_failed s.status ≡ false
    → IsValid (disconnect s elapsed)
unfolding disconnect reset_mux_after_disconnect
disconnect-IsValid s elapsed (h, w) fine =
    retry_or_give_up-IsValid (closed s) elapsed (ground arith, w) fine

after_attempt-IsValid :
    (s : Sender) (attempt : Attempt) (elapsed : Bool)
    → Counted s
    → has_failed s.status ≡ false
    → IsValid (after_attempt s attempt elapsed)
unfolding after_attempt reset_mux_after_disconnect
after_attempt-IsValid s Attempt.made elapsed (h, w) fine = record {
  bounded = h;
  waits_in_range = w;
  over = λ e. absurd (ground arith);
}
after_attempt-IsValid s Attempt.not_encrypted elapsed (h, w) fine = record {
  bounded = h;
  waits_in_range = w;
  over = λ e. refl;
}
after_attempt-IsValid s Attempt.no_socket elapsed c fine =
    retry_or_give_up-IsValid (erred s Attempt.no_socket) elapsed c fine
after_attempt-IsValid s Attempt.not_configured elapsed c fine =
    retry_or_give_up-IsValid (erred s Attempt.not_configured) elapsed c fine
after_attempt-IsValid s Attempt.not_connected elapsed c fine =
    retry_or_give_up-IsValid (erred s Attempt.not_connected) elapsed c fine

connect_round-IsValid :
    (s : Sender) (attempt : Attempt) (elapsed : Bool)
    → IsValid s
    → IsValid (connect_round s attempt elapsed)
unfolding connect_round
connect_round-IsValid s attempt elapsed v = elim (Bool-cases s.stopping) [
  | inl stop ↦ ground (arith, v.waits_in_range)
  | inr running ↦
      let trying : Sender = record s {
        status = if s.has_streamed then SenderStatus.reconnecting else SenderStatus.connecting;
      } in
      ground (
        arith,
        after_attempt-IsValid trying attempt elapsed (v.bounded, v.waits_in_range) (ground arith),
      )
]

after_pop-IsValid :
    (s : Sender) (packet : Option Packet) (lost sent elapsed : Bool)
    → s.stage ≡ Stage.sending
    → IsValid s
    → IsValid (after_pop s packet lost sent elapsed)
unfolding after_pop
after_pop-IsValid s none lost sent elapsed e v =
    ground (arith, disconnect-IsValid s elapsed (v.bounded, v.waits_in_range), v.waits_in_range)
after_pop-IsValid s (some packet) lost sent elapsed e v =
    ground (arith, disconnect-IsValid s elapsed (v.bounded, v.waits_in_range), v.waits_in_range)

send_round-IsValid :
    (s : Sender) (lost sent elapsed : Bool)
    → s.stage ≡ Stage.sending
    → IsValid s
    → IsValid (send_round s lost sent elapsed)
unfolding send_round
send_round-IsValid s lost sent elapsed e v = elim (Bool-cases s.stopping) [
  | inl stop ↦ ground (arith, v.waits_in_range)
  | inr running ↦
      let popped : Sender = record s { queue = (Queue.wait_pop_for s.queue).0 } in
      ground (
        arith,
        after_pop-IsValid popped (Queue.wait_pop_for s.queue).1 lost sent elapsed e
            (record { bounded = v.bounded; waits_in_range = v.waits_in_range; over = v.over }),
      )
]

worker_step-IsValid :
    (s : Sender) (stage : Stage) (round : Round)
    → s.stage ≡ stage
    → IsValid s
    → IsValid (worker_step s stage round)
unfolding worker_step
worker_step-IsValid s Stage.attempting (Round.connect attempt elapsed) e v =
    connect_round-IsValid s attempt elapsed v
worker_step-IsValid s Stage.attempting (Round.transmit lost sent elapsed) e v = v
worker_step-IsValid s Stage.sending (Round.connect attempt elapsed) e v = v
worker_step-IsValid s Stage.sending (Round.transmit lost sent elapsed) e v =
    send_round-IsValid s lost sent elapsed e v
worker_step-IsValid s Stage.no_worker (Round.connect attempt elapsed) e v = v
worker_step-IsValid s Stage.no_worker (Round.transmit lost sent elapsed) e v = v
worker_step-IsValid s Stage.finished (Round.connect attempt elapsed) e v = v
worker_step-IsValid s Stage.finished (Round.transmit lost sent elapsed) e v = v

-- From a valid state on, over any rounds of the worker: it counts at most ten failures in a row, each
-- delay that it reads has an index of the table of ten, and once it has failed it works no more.
pub run_worker-IsValid :
    (s : Sender) (rounds : List Round) → IsValid s → IsValid (run_worker s rounds)
unfolding run_worker
run_worker-IsValid s [] v = v
run_worker-IsValid s (round ∷ rounds) v =
    run_worker-IsValid (worker_step s s.stage round) rounds
      (worker_step-IsValid s s.stage round refl v)
