-- ===== src/Session/Rounds.antt =====
-- What the rounds of native_sender.cpp's worker_main do to the muxer and the queue.
use android2pc_stream.Prelude.{
  ◌≡◌, refl, inl, inr, Bool, true, false, not, ◌||◌, Option, none, some, List, [], ◌∷◌, length,
  is_empty, ltb, leb, if◌then◌else◌, All, Bool-cases,
}
use android2pc_stream.Packets.{Packet}
use android2pc_stream.Sender.Queue
use android2pc_stream.Sender.Queue.{PacketQueue, new_queue}
use android2pc_stream.Sender.Native.State.{Sender, SenderStatus, Stage}
use android2pc_stream.Sender.Native.Worker.{
  Attempt, Round, worker_step, connect_round, send_round, after_attempt, after_pop, disconnect,
  retry, retry_or_give_up, reset_mux_after_disconnect, erred, closed, now_connected,
}
use android2pc_stream.Delivery.{Passes}
use android2pc_stream.Session.{Sound}

-- The muxer is kept, and the queued packets are kept, dropped, or taken from their front.
pub Kept : Sender → Sender → Type 0
Kept s t = (t.muxer ≡ s.muxer) × (All Passes s.queue.packets → All Passes t.queue.packets)

pub Kept-Sound : (s t : Sender) → Kept s t → Sound s → Sound t
unfolding Kept
Kept-Sound s t (m, p) v = record { counters = rw m v.counters; passing = p v.passing }

retry-Kept : (s : Sender) (elapsed : Bool) → Kept s (retry s elapsed)
unfolding Kept retry
retry-Kept s true = (refl, λ p. p)
retry-Kept s false = (refl, λ p. p)

retry_or_give_up-Kept : (s : Sender) (elapsed : Bool) → Kept s (retry_or_give_up s elapsed)
unfolding Kept retry_or_give_up
retry_or_give_up-Kept s elapsed = elim (Bool-cases (leb 10 s.consecutive_failures)) [
  | inl e ↦ rw e (refl, λ p. p)
  | inr e ↦ rw e (retry-Kept s elapsed)
]

disconnect-Kept : (s : Sender) (elapsed : Bool) → Kept s (disconnect s elapsed)
unfolding Kept disconnect reset_mux_after_disconnect Queue.clear
disconnect-Kept s elapsed = let k = retry_or_give_up-Kept (closed s) elapsed in (k.0, λ p. k.1 tt)

after_attempt-Kept :
    (s : Sender) (attempt : Attempt) (elapsed : Bool) → Kept s (after_attempt s attempt elapsed)
unfolding Kept after_attempt reset_mux_after_disconnect Queue.clear
after_attempt-Kept s Attempt.made elapsed = (refl, λ p. tt)
after_attempt-Kept s Attempt.not_encrypted elapsed = (refl, λ p. tt)
after_attempt-Kept s Attempt.no_socket elapsed =
    let k = retry_or_give_up-Kept (erred s Attempt.no_socket) elapsed in (k.0, λ p. k.1 tt)
after_attempt-Kept s Attempt.not_configured elapsed =
    let k = retry_or_give_up-Kept (erred s Attempt.not_configured) elapsed in (k.0, λ p. k.1 tt)
after_attempt-Kept s Attempt.not_connected elapsed =
    let k = retry_or_give_up-Kept (erred s Attempt.not_connected) elapsed in (k.0, λ p. k.1 tt)

if-Kept : (test : Bool) (s t u : Sender) → Kept s t → Kept s u → Kept s (if test then t else u)
if-Kept true s t u first second = first
if-Kept false s t u first second = second

connect_round-Kept :
    (s : Sender) (attempt : Attempt) (elapsed : Bool) → Kept s (connect_round s attempt elapsed)
unfolding Kept connect_round
connect_round-Kept s attempt elapsed =
    let trying = record s {
      status = if s.has_streamed then SenderStatus.reconnecting else SenderStatus.connecting;
    } in
    if-Kept s.stopping s (record s { stage = Stage.finished })
      (after_attempt trying attempt elapsed) (refl, λ p. p)
      (after_attempt-Kept trying attempt elapsed)

after_pop-Kept :
    (s : Sender) (popped : Option Packet) (lost sent elapsed : Bool)
    → Kept s (after_pop s popped lost sent elapsed)
unfolding Kept after_pop
after_pop-Kept s none lost sent elapsed =
    if-Kept lost s (disconnect s elapsed) s (disconnect-Kept s elapsed) (refl, λ p. p)
after_pop-Kept s (some packet) lost sent elapsed =
    let passed = record s { sent_media = true; status = now_connected s.status } in
    let lost_it = disconnect s elapsed in
    if-Kept (is_empty packet || ltb 1316 (length packet)) s s (if not sent then lost_it else passed)
      (refl, λ p. p)
      (if-Kept (not sent) s lost_it passed (disconnect-Kept s elapsed) (refl, λ p. p))

wait_pop_for-passing :
    (q : PacketQueue) → All Passes q.packets → All Passes (Queue.wait_pop_for q).0.packets
unfolding Queue.wait_pop_for Queue.pop_front
wait_pop_for-passing q p = elim (Bool-cases (Queue.ready q)) [
  | inl e ↦ rw e (popped q.packets p)
  | inr e ↦ rw e p
]
  where
    popped :
        (packets : List Packet)
        → All Passes packets
        → All Passes (Queue.pop_front (record q { packets = packets }) packets).0.packets
    popped [] all = all
    popped (packet ∷ rest) (one, others) = elim (Bool-cases q.cancelled) [
      | inl c ↦ rw c (one, others)
      | inr c ↦ rw c others
    ]

send_round-Kept : (s : Sender) (lost sent elapsed : Bool) → Kept s (send_round s lost sent elapsed)
unfolding Kept send_round
send_round-Kept s lost sent elapsed =
    let popped = record s { queue = (Queue.wait_pop_for s.queue).0 } in
    let packet = (Queue.wait_pop_for s.queue).1 in
    let k = after_pop-Kept popped packet lost sent elapsed in
    if-Kept s.stopping s (record s { socket_open = false; stage = Stage.finished })
      (after_pop popped packet lost sent elapsed) (refl, λ p. p)
      (k.0, λ p. k.1 (wait_pop_for-passing s.queue p))

pub worker_step-Kept :
    (s : Sender) (stage : Stage) (round : Round) → Kept s (worker_step s stage round)
unfolding Kept worker_step
worker_step-Kept s Stage.attempting (Round.connect attempt elapsed) =
    connect_round-Kept s attempt elapsed
worker_step-Kept s Stage.attempting (Round.transmit lost sent elapsed) = (refl, λ p. p)
worker_step-Kept s Stage.sending (Round.transmit lost sent elapsed) =
    send_round-Kept s lost sent elapsed
worker_step-Kept s Stage.sending (Round.connect attempt elapsed) = (refl, λ p. p)
worker_step-Kept s Stage.no_worker round = (refl, λ p. p)
worker_step-Kept s Stage.finished round = (refl, λ p. p)
