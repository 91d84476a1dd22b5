-- ===== src/Receiver/Queue.antt =====
-- pc/src/bounded_packet_queue.cpp: the queue between the SRT listener and the pipe's worker thread.
-- Each operation runs under the queue's mutex, so it is one function of the state.
pub mod Invariant
pub mod Drain
use android2pc_stream.Prelude.{
  ℕ, ◌+◌, ◌*◌, Bool, true, false, not, ◌||◌, Option, none, some, List, [], ◌∷◌, ◌++◌, length,
  is_empty, ltb, leb, if◌then◌else◌,
}
use android2pc_stream.Packets.{Packet, add_size, sub_size}

abbrev pub maximum_packet_bytes : ℕ
maximum_packet_bytes = 1316

abbrev pub maximum_packets : ℕ
maximum_packets = 4096

abbrev pub maximum_queued_bytes : ℕ
maximum_queued_bytes = 8 * 1024 * 1024

pub record PacketQueue : Type 0 where
  pub packets : List Packet
  pub bytes : ℕ
  pub cancelled : Bool

unfoldable pub new_queue : PacketQueue
new_queue = record { packets = []; bytes = 0; cancelled = false }

unfoldable pub push : PacketQueue → Packet → PacketQueue × Bool
unfolding add_size
push q packet =
    if is_empty packet || ltb maximum_packet_bytes (length packet)
    then (q, false)
    else if q.cancelled
        || leb maximum_packets (length q.packets)
        || ltb maximum_queued_bytes (add_size q.bytes (length packet))
    then (q, false)
    else (
      record q { packets = q.packets ++ packet ∷ []; bytes = add_size q.bytes (length packet) },
      true,
    )

-- What both waits wait for.
abbrev pub ready : PacketQueue → Bool
ready q = q.cancelled || not (is_empty q.packets)

-- The end of both waits: std::nullopt on an empty queue, which can only be a cancelled one.
pub pop_front : PacketQueue → List Packet → PacketQueue × Option Packet
unfolding sub_size
pop_front q [] = (q, none)
pop_front q (packet ∷ rest) =
    (record q { packets = rest; bytes = sub_size q.bytes (length packet) }, some packet)

-- `none`: the caller still waits in the condition variable.
unfoldable pub wait_pop : PacketQueue → Option (PacketQueue × Option Packet)
unfolding pop_front
wait_pop q = if ready q then some (pop_front q q.packets) else none

-- The state is that at the wake-up, or at the time-out.
unfoldable pub wait_pop_for : PacketQueue → PacketQueue × Option Packet
unfolding pop_front
wait_pop_for q = if ready q then pop_front q q.packets else (q, none)

unfoldable pub clear : PacketQueue → PacketQueue
clear q = record q { packets = []; bytes = 0 }

unfoldable pub cancel : PacketQueue → PacketQueue
cancel q = record q { cancelled = true }

unfoldable pub reset : PacketQueue → PacketQueue
reset q = record q { cancelled = false }

abbrev pub size : PacketQueue → ℕ
size q = length q.packets

abbrev pub bytes : PacketQueue → ℕ
bytes q = q.bytes
