-- ===== src/Sender/Queue/Fifo.antt =====
-- What the queue promises its two users: when a batch enters, and the order in which packets leave.
use android2pc_stream.Prelude.{
  ℕ, ◌+◌, ◌^◌, ◌≤◌, ◌<◌, ◌≡◌, refl, sym, ap, ◌∙◌, ◌↔◌, ◌⊎◌, inl, inr, true, false, none, some, List,
  [], ◌∷◌, ◌++◌, length, All, append_assoc, append-nil, arith, Option-cases, if◌then◌else◌,
}
use android2pc_stream.Packets.{Packet, PacketBatch, add_size, total, Sendable, given_out}
use android2pc_stream.Sender.Queue.{
  PacketQueue, incoming_bytes, admit, push_batch, pop_front, ready, wait_pop, wait_pop_for,
}
use android2pc_stream.Sender.Queue.Invariant.{IsValid, incoming_bytes-some}

incoming_bytes-total :
    (n : ℕ) (batch : PacketBatch)
    → All Sendable batch
    → n + total batch < 2 ^ 64
    → incoming_bytes n batch ≡ some (n + total batch)
unfolding incoming_bytes add_size
incoming_bytes-total n [] ok h = ground arith
incoming_bytes-total n ([] ∷ ps) ok h = absurd (omega arith)
incoming_bytes-total n ((b ∷ bs) ∷ ps) ok h =
    ground (arith, incoming_bytes-total (n + length (b ∷ bs)) ps ok.1)

-- The batch may enter: it is well formed, the queue is open, and there is room for all of it.
pub record Fits (q : PacketQueue) (batch : PacketBatch) : Type 0 where
  pub sendable : All Sendable batch
  pub open_queue : q.cancelled ≡ false
  pub packets_fit : length q.packets + length batch ≤ q.maximum_packets
  pub bytes_fit : q.bytes + total batch ≤ q.maximum_bytes

admit_accepts :
    (q : PacketQueue) (batch : PacketBatch) (m : ℕ)
    → IsValid q
    → All Sendable batch
    → m ≡ total batch
    → ((admit q batch m).1 ≡ true) ↔ Fits q batch
unfolding admit
admit_accepts q batch m v ok e = (λ h. ground arith, λ h. ground arith)

-- On a queue whose counters are right, `push_batch` answers true exactly when every packet has 1
-- to 1316 bytes, the queue is not cancelled, and the whole batch fits both limits.
pub push_batch_accepts :
    (q : PacketQueue) (batch : PacketBatch)
    → IsValid q
    → ((push_batch q batch).1 ≡ true) ↔ Fits q batch
unfolding push_batch
push_batch_accepts q batch v = elim (Option-cases (incoming_bytes 0 batch)) [
  | inl e ↦
      rw (e, push_batch)
        ((λ h. cc), λ f. absurd (ground (arith, incoming_bytes-total 0 batch f.sendable)))
  | inr (m, e) ↦
      rw (e, push_batch)
        (let (ok, sum, h) = incoming_bytes-some 0 batch m e (omega arith) in
          admit_accepts q batch m v ok (omega arith))
]

-- A refused batch leaves the queue as it was; an accepted one stands behind what was queued.
pub push_batch-packets :
    (q : PacketQueue) (batch : PacketBatch)
    → ((push_batch q batch).1 ≡ true) × ((push_batch q batch).0.packets ≡ q.packets ++ batch)
      ⊎ ((push_batch q batch).1 ≡ false) × ((push_batch q batch).0 ≡ q)
unfolding push_batch admit
push_batch-packets q batch = ground arith

-- `wait_pop` blocks exactly where `wait_pop_for` would time out, and otherwise does the same.
wait_pop-wait_pop_for :
    (q : PacketQueue) → wait_pop q ≡ (if ready q then some (wait_pop_for q) else none)
unfolding wait_pop wait_pop_for
wait_pop-wait_pop_for q = ground arith

-- Traffic between two clearings.
pub data Call : Type 0 where
  push : PacketBatch → Call
  pop : Call

-- Which packets a call let in, and which it handed out.
pub accepted : PacketQueue → Call → List Packet
accepted q (push batch) = if (push_batch q batch).1 then batch else []
accepted q pop = []

pub delivered : PacketQueue → Call → List Packet
delivered q (push batch) = []
delivered q pop = given_out (wait_pop_for q).1

pub after : PacketQueue → Call → PacketQueue
after q (push batch) = (push_batch q batch).0
after q pop = (wait_pop_for q).0

pub all_accepted : PacketQueue → List Call → List Packet
unfolding accepted after
all_accepted q [] = []
all_accepted q (c ∷ cs) = accepted q c ++ all_accepted (after q c) cs

pub all_delivered : PacketQueue → List Call → List Packet
unfolding delivered after
all_delivered q [] = []
all_delivered q (c ∷ cs) = delivered q c ++ all_delivered (after q c) cs

pub final : PacketQueue → List Call → PacketQueue
unfolding after
final q [] = q
final q (c ∷ cs) = final (after q c) cs

pop_front-packets :
    (q : PacketQueue) (ps : List Packet)
    → q.packets ≡ ps
    → given_out (pop_front q ps).1 ++ (pop_front q ps).0.packets ≡ ps
unfolding pop_front given_out
pop_front-packets q [] e = e
pop_front-packets q (p ∷ ps) e = ground arith

after-packets :
    (q : PacketQueue) (c : Call) → delivered q c ++ (after q c).packets ≡ q.packets ++ accepted q c
unfolding delivered accepted after given_out wait_pop_for
after-packets q (push batch) = ground (arith, push_batch-packets q batch, append-nil q.packets)
after-packets q pop = ground (arith, pop_front-packets q q.packets refl, append-nil q.packets)

-- Over any pushes and waits, what was handed out, followed by what is still queued, is what was
-- queued at first followed by every accepted batch, in order: nothing is lost, reordered or doubled.
pub delivered-final :
    (q : PacketQueue) (cs : List Call)
    → all_delivered q cs ++ (final q cs).packets ≡ q.packets ++ all_accepted q cs
unfolding all_delivered all_accepted final
delivered-final q [] = ground (arith, append-nil q.packets)
delivered-final q (c ∷ cs) =
    append_assoc (delivered q c) (all_delivered (after q c) cs) _
    ∙ ap (◌++◌ (delivered q c)) (delivered-final (after q c) cs)
    ∙ sym (append_assoc (delivered q c) (after q c).packets _)
    ∙ ap (λ ps. ps ++ all_accepted (after q c) cs) (after-packets q c)
    ∙ append_assoc q.packets (accepted q c) _
