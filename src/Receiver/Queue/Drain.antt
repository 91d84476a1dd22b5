-- ===== src/Receiver/Queue/Drain.antt =====
-- How a cancelled receiver queue empties.
use android2pc_stream.Prelude.{
  ℕ, zero, suc, ◌<◌, ◌≡◌, refl, Bool, true, false, Option, none, some, List, [], ◌∷◌, length, arith,
}
use android2pc_stream.Packets.{Packet, sub_size}
use android2pc_stream.Receiver.Queue.{PacketQueue, wait_pop, pop_front, cancel}

-- A worker's loop over `wait_pop`, on fuel: the packets that it got, and whether it ended by
-- std::nullopt (`some true`), is blocked (`some false`), or ran out of fuel (`none`).
pub drain : ℕ → PacketQueue → List Packet × Option Bool
drain zero q = ([], none)
drain (suc fuel) q = elim (wait_pop q) [
  | none ↦ ([], some false)
  | some (q', none) ↦ ([], some true)
  | some (q', some packet) ↦ (packet ∷ (drain fuel q').0, (drain fuel q').1)
]

drain_cancelled :
    (q : PacketQueue) (ps : List Packet) (fuel : ℕ)
    → q.packets ≡ ps
    → q.cancelled ≡ true
    → length ps < fuel
    → drain fuel q ≡ (ps, some true)
unfolding drain wait_pop pop_front
drain_cancelled q ps zero e c h = absurd (omega arith)
drain_cancelled q [] (suc fuel) e c h = rw (c, e)
drain_cancelled q (p ∷ ps) (suc fuel) e c h = ground (
  arith,
  drain_cancelled (record { packets = ps; bytes = sub_size q.bytes (length p); cancelled = true })
      ps fuel refl refl (omega arith),
)

-- After `cancel` a reader still gets every queued packet, in order, and is then told to stop; it
-- never blocks.
pub drain-cancel :
    (q : PacketQueue) (fuel : ℕ)
    → length q.packets < fuel
    → drain fuel (cancel q) ≡ (q.packets, some true)
unfolding cancel
drain-cancel q fuel h = drain_cancelled (record q { cancelled = true }) q.packets fuel refl refl h
