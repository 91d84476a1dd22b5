-- ===== src/Sender/Queue.antt =====
-- mobile/app/src/main/cpp/bounded_packet_queue.{h,cpp}: the queue between the muxer and the sending
-- thread. Each operation runs under the queue's mutex, so it is one function of the state.
pub mod Invariant
pub mod Fifo
use android2pc_stream.Prelude.{
  ℕ, ◌+◌, ◌-◌, ◌%◌, ◌^◌, min, max, Bool, true, false, not, ◌||◌, Option, none, some, List, [], ◌∷◌,
  ◌++◌, length, is_empty, ltb, ◌==◌, if◌then◌else◌,
}
use android2pc_stream.Packets.{Packet, PacketBatch, size_max, add_size, sub_size}

pub record PacketQueue : Type 0 where
  pub maximum_packets : ℕ
  pub maximum_bytes : ℕ
  pub packets : List Packet
  pub bytes : ℕ
  pub high_water_bytes : ℕ
  pub cancelled : Bool

unfoldable pub new_queue : ℕ → ℕ → PacketQueue
new_queue maximum_packets maximum_bytes = record {
  maximum_packets = maximum_packets;
  maximum_bytes = maximum_bytes;
  packets = [];
  bytes = 0;
  high_water_bytes = 0;
  cancelled = false;
}

-- The loop over the batch before the lock is taken. `none` is its `return false`.
pub incoming_bytes : ℕ → PacketBatch → Option ℕ
unfolding add_size
incoming_bytes incoming [] = some incoming
incoming_bytes incoming (packet ∷ batch) =
    let rest = incoming_bytes (add_size incoming (length packet)) batch in
    if is_empty packet || ltb 1316 (length packet) || ltb (size_max - length packet) incoming
    then none
    else rest

-- The part of `push_batch` under the lock.
pub admit : PacketQueue → PacketBatch → ℕ → PacketQueue × Bool
unfolding add_size
admit q batch incoming =
    if q.cancelled
      || ltb (q.maximum_packets - min q.maximum_packets (length q.packets)) (length batch)
      || ltb (q.maximum_bytes - min q.maximum_bytes q.bytes) incoming
    then (q, false)
    else (
      record q {
        packets = q.packets ++ batch;
        bytes = add_size q.bytes incoming;
        high_water_bytes = max q.high_water_bytes (add_size q.bytes incoming);
      },
      true,
    )

unfoldable pub push_batch : PacketQueue → PacketBatch → PacketQueue × Bool
unfolding incoming_bytes admit
push_batch q batch = elim (incoming_bytes 0 batch) [
  | none ↦ (q, false)
  | some incoming ↦ admit q batch incoming
]

-- What both waits wait for.
abbrev pub ready : PacketQueue → Bool
ready q = q.cancelled || not (is_empty q.packets)

-- The end of both waits: a packet, or `false` where the queue was cancelled.
unfoldable pub pop_front : PacketQueue → List Packet → PacketQueue × Option Packet
unfolding sub_size
pop_front q [] = (q, none)
pop_front q (packet ∷ rest) =
    if q.cancelled
    then (q, none)
    else (record q { packets = rest; bytes = sub_size q.bytes (length packet) }, some packet)

-- `none`: the caller still waits in the condition variable.
unfoldable pub wait_pop : PacketQueue → Option (PacketQueue × Option Packet)
unfolding pop_front
wait_pop q = if ready q then some (pop_front q q.packets) else none

-- The state is that at the wake-up, or at the time-out, which returns `false`.
unfoldable pub wait_pop_for : PacketQueue → PacketQueue × Option Packet
unfolding pop_front
wait_pop_for q = if ready q then pop_front q q.packets else (q, none)

unfoldable pub clear : PacketQueue → PacketQueue
clear q = record q { packets = []; bytes = 0 }

unfoldable pub cancel : PacketQueue → PacketQueue
cancel q = record q { packets = []; bytes = 0; cancelled = true }

unfoldable pub reset : PacketQueue → PacketQueue
reset q = record q { packets = []; bytes = 0; high_water_bytes = 0; cancelled = false }

abbrev pub size_bytes : PacketQueue → ℕ
size_bytes q = q.bytes
