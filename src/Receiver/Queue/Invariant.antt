-- ===== src/Receiver/Queue/Invariant.antt =====
-- The receiver queue's counters, bounds and acceptance test.
use android2pc_stream.Prelude.{
  ◌+◌, ◌≤◌, ◌<◌, ◌≡◌, refl, ◌↔◌, true, false, List, [], ◌∷◌, ◌++◌, length, length-append, All,
  All-append, arith,
}
use android2pc_stream.Packets.{Packet, add_size, sub_size, total, total-append, Sendable}
use android2pc_stream.Receiver.Queue.{
  PacketQueue, new_queue, push, pop_front, wait_pop_for, clear, cancel, reset, maximum_packets,
  maximum_queued_bytes,
}

pub record IsValid (q : PacketQueue) : Type 0 where
  pub counted : q.bytes ≡ total q.packets
  pub byte_bound : q.bytes ≤ maximum_queued_bytes
  pub packet_bound : length q.packets ≤ maximum_packets
  pub sendable : All Sendable q.packets

pub push-IsValid : (q : PacketQueue) (packet : Packet) → IsValid q → IsValid (push q packet).0
unfolding push add_size
push-IsValid q [] v = v
push-IsValid q (b ∷ bs) v = ground (
  arith,
  total-append q.packets ((b ∷ bs) ∷ []),
  length-append q.packets ((b ∷ bs) ∷ []),
  All-append Sendable q.packets ((b ∷ bs) ∷ []) v.sendable,
)

pop_front-IsValid :
    (q : PacketQueue) (ps : List Packet) → q.packets ≡ ps → IsValid q → IsValid (pop_front q ps).0
unfolding pop_front sub_size
pop_front-IsValid q [] e v = v
pop_front-IsValid q (p ∷ ps) e v = ground (arith, v.sendable)

pub wait_pop_for-IsValid : (q : PacketQueue) → IsValid q → IsValid (wait_pop_for q).0
unfolding wait_pop_for
wait_pop_for-IsValid q v = ground (arith, pop_front-IsValid q q.packets refl v)

pub clear-IsValid : (q : PacketQueue) → IsValid q → IsValid (clear q)
unfolding clear
clear-IsValid q v = ground arith

pub data Op : Type 0 where
  pushes : Packet → Op
  pops clears cancels resets : Op

-- The state after one call.
pub step : PacketQueue → Op → PacketQueue
step q (pushes packet) = (push q packet).0
step q pops = (wait_pop_for q).0
step q clears = clear q
step q cancels = cancel q
step q resets = reset q

pub run : PacketQueue → List Op → PacketQueue
unfolding step
run q [] = q
run q (op ∷ ops) = run (step q op) ops

step-IsValid : (q : PacketQueue) (op : Op) → IsValid q → IsValid (step q op)
unfolding step cancel reset
step-IsValid q (pushes packet) v = push-IsValid q packet v
step-IsValid q pops v = wait_pop_for-IsValid q v
step-IsValid q clears v = clear-IsValid q v
step-IsValid q cancels v = ground arith
step-IsValid q resets v = ground arith

run-IsValid : (q : PacketQueue) (ops : List Op) → IsValid q → IsValid (run q ops)
unfolding run
run-IsValid q [] v = v
run-IsValid q (op ∷ ops) v = run-IsValid (step q op) ops (step-IsValid q op v)

pub new_queue-IsValid : IsValid new_queue
unfolding new_queue
new_queue-IsValid = ground arith

-- After any calls on a new queue, the byte counter is the sum of the queued sizes, at most 8 MiB in
-- at most 4096 packets are queued, and each has 1 to 1316 bytes.
pub run_received-IsValid : (ops : List Op) → IsValid (run new_queue ops)
run_received-IsValid ops = run-IsValid _ ops new_queue-IsValid

-- On a queue whose counter is right, `push` takes a packet exactly when it has 1 to 1316 bytes,
-- the queue is not cancelled and both limits leave room. The packet then stands last; otherwise
-- the queue is as it was.
pub push_accepts :
    (q : PacketQueue) (packet : Packet)
    → IsValid q
    → (((push q packet).1 ≡ true) ↔ (
        Sendable packet
        × (q.cancelled ≡ false)
        × (length q.packets < maximum_packets)
        × (q.bytes + length packet ≤ maximum_queued_bytes)))
      × (((push q packet).1 ≡ true) → (push q packet).0.packets ≡ q.packets ++ packet ∷ [])
      × (((push q packet).1 ≡ false) → (push q packet).0 ≡ q)
unfolding push add_size
push_accepts q [] v = ((λ h. cc, λ h. absurd (omega arith)), λ h. cc, λ h. refl)
push_accepts q (b ∷ bs) v =
    ((λ h. ground arith, λ h. ground arith), λ h. ground arith, λ h. ground arith)
