-- ===== src/Sender/Queue/Invariant.antt =====
-- The queue's counters, bounds and acceptance test.
use android2pc_stream.Prelude.{
  ℕ, ◌+◌, ◌^◌, ◌≤◌, ◌<◌, ◌≡◌, refl, inl, inr, true, some, List, [], ◌∷◌, length, length-append, All,
  All-append, arith, Option-cases,
}
use android2pc_stream.Sender.Queue.{
  PacketQueue, new_queue, incoming_bytes, admit, push_batch, pop_front, wait_pop_for, clear, cancel,
  reset,
}
use android2pc_stream.Packets.{
  Packet, PacketBatch, add_size, sub_size, total, total-append, Sendable,
}

-- What every operation keeps.
pub record IsValid (q : PacketQueue) : Type 0 where
  pub counted : q.bytes ≡ total q.packets
  pub byte_bound : q.bytes ≤ q.maximum_bytes
  pub packet_bound : length q.packets ≤ q.maximum_packets
  pub marked : q.bytes ≤ q.high_water_bytes
  pub mark_bound : q.high_water_bytes ≤ q.maximum_bytes
  pub word : q.maximum_bytes < 2 ^ 64
  pub sendable : All Sendable q.packets
  pub drained : q.cancelled ≡ true → q.packets ≡ []

pub incoming_bytes-some :
    (n : ℕ) (batch : PacketBatch) (m : ℕ)
    → incoming_bytes n batch ≡ some m
    → n < 2 ^ 64
    → All Sendable batch × (m ≡ n + total batch) × (m < 2 ^ 64)
unfolding incoming_bytes
incoming_bytes-some n [] m e h = ground arith
incoming_bytes-some n ([] ∷ ps) m e h = ground arith
incoming_bytes-some n ((b ∷ bs) ∷ ps) m e h =
    ground (arith, incoming_bytes-some (add_size n (length (b ∷ bs))) ps m)

admit-IsValid :
    (q : PacketQueue) (batch : PacketBatch) (m : ℕ)
    → IsValid q
    → All Sendable batch
    → m ≡ total batch
    → m < 2 ^ 64
    → IsValid (admit q batch m).0
unfolding admit add_size
admit-IsValid q batch m v ok e h = ground (
  arith,
  total-append q.packets batch,
  length-append q.packets batch,
  All-append Sendable q.packets batch v.sendable ok,
)

pub push_batch-IsValid :
    (q : PacketQueue) (batch : PacketBatch) → IsValid q → IsValid (push_batch q batch).0
unfolding push_batch
push_batch-IsValid q batch v = elim (Option-cases (incoming_bytes 0 batch)) [
  | inl e ↦ rw (e, push_batch) v
  | inr (m, e) ↦
      rw (e, push_batch)
        (let (ok, sum, h) = incoming_bytes-some 0 batch m e (omega arith) in
          admit-IsValid q batch m v ok (omega arith) h)
]

pop_front-IsValid :
    (q : PacketQueue) (ps : List Packet) → q.packets ≡ ps → IsValid q → IsValid (pop_front q ps).0
unfolding pop_front sub_size
pop_front-IsValid q [] e v = v
pop_front-IsValid q (p ∷ ps) e v = ground (arith, v.sendable)

pub wait_pop_for-IsValid : (q : PacketQueue) → IsValid q → IsValid (wait_pop_for q).0
unfolding wait_pop_for
wait_pop_for-IsValid q v = ground (arith, pop_front-IsValid q q.packets refl v)

pub clear-IsValid : (q : PacketQueue) → IsValid q → IsValid (clear q)
unfolding clear
clear-IsValid q v = ground arith

pub cancel-IsValid : (q : PacketQueue) → IsValid q → IsValid (cancel q)
unfolding cancel
cancel-IsValid q v = ground arith

pub reset-IsValid : (q : PacketQueue) → IsValid q → IsValid (reset q)
unfolding reset
reset-IsValid q v = ground arith

pub data Op : Type 0 where
  pushes : PacketBatch → Op
  pops clears cancels resets : Op

-- The state after one call.
pub step : PacketQueue → Op → PacketQueue
step q (pushes batch) = (push_batch q batch).0
step q pops = (wait_pop_for q).0
step q clears = clear q
step q cancels = cancel q
step q resets = reset q

pub run : PacketQueue → List Op → PacketQueue
unfolding step
run q [] = q
run q (op ∷ ops) = run (step q op) ops

step-IsValid : (q : PacketQueue) (op : Op) → IsValid q → IsValid (step q op)
unfolding step
step-IsValid q (pushes batch) v = push_batch-IsValid q batch v
step-IsValid q pops v = wait_pop_for-IsValid q v
step-IsValid q clears v = clear-IsValid q v
step-IsValid q cancels v = cancel-IsValid q v
step-IsValid q resets v = reset-IsValid q v

run-IsValid : (q : PacketQueue) (ops : List Op) → IsValid q → IsValid (run q ops)
unfolding run
run-IsValid q [] v = v
run-IsValid q (op ∷ ops) v = run-IsValid (step q op) ops (step-IsValid q op v)

pub new_queue-IsValid :
    (maximum_packets maximum_bytes : ℕ)
    → maximum_bytes < 2 ^ 64
    → IsValid (new_queue maximum_packets maximum_bytes)
unfolding new_queue
new_queue-IsValid maximum_packets maximum_bytes h = ground arith

-- After any calls on a new queue whose byte limit is a size_t, the byte counter is the sum of the
-- queued sizes, both limits hold, the high-water mark lies between the counter and the limit, every
-- queued packet has 1 to 1316 bytes, and a cancelled queue is empty.
pub run-new_queue-IsValid :
    (maximum_packets maximum_bytes : ℕ) (ops : List Op)
    → maximum_bytes < 2 ^ 64
    → IsValid (run (new_queue maximum_packets maximum_bytes) ops)
run-new_queue-IsValid maximum_packets maximum_bytes ops h =
    run-IsValid _ ops (new_queue-IsValid maximum_packets maximum_bytes h)
