-- ===== src/Receiver/Sink/Handshake.antt =====
-- How a lost client restarts the transport, and what the worker writes.
use android2pc_stream.Prelude.{
  ℕ, ◌≤◌, ◌<◌, ◌≡◌, refl, ap, ◌∙◌, inl, inr, Bool, true, false, Option, none, some, List, [], ◌∷◌,
  ◌++◌, length, take, drop, length-drop, take-append-drop, ◌==◌, append_assoc, arith, Bool-cases,
}
use android2pc_stream.Packets.{Packet, Sendable}
use android2pc_stream.Receiver.Queue
use android2pc_stream.Receiver.Queue.{PacketQueue}
use android2pc_stream.Receiver.Sink.{Sink, enqueue, write_loop, leave_client}

-- When a running sink whose queue is open loses its client, its queue is emptied, the next payload
-- is refused, and the one after it, if it has 1 to 1316 bytes, is taken and stands in the queue
-- alone.
pub enqueue-leave_client :
    (s : Sink) (first second : Packet)
    → s.running ≡ true
    → s.queue.cancelled ≡ false
    → Sendable second
    → ((leave_client s true).queue.packets ≡ [])
      × ((enqueue (leave_client s true) first).1 ≡ false)
      × ((enqueue (enqueue (leave_client s true) first).0 second).1 ≡ true)
      × ((enqueue (enqueue (leave_client s true) first).0 second).0.queue.packets ≡ second ∷ [])
unfolding leave_client enqueue Queue.clear Queue.push
enqueue-leave_client s first [] r c h = absurd (omega arith)
enqueue-leave_client s first (b ∷ bs) r c h = (refl, ground arith, ground arith, ground arith)

-- Bytes that a writer got out are a prefix of the packet, and all of it where no call failed and enough
-- calls were made.
pub record Wrote (packet : Packet) (outcomes : List (Option ℕ)) (result : List ℕ × Bool)
    : Type 0 where
  pub rest : List ℕ
  pub front : result.0 ++ rest ≡ packet
  pub whole : result.1 ≡ false → length packet ≤ length outcomes → rest ≡ []

-- One call that wrote some bytes in front of the others.
Wrote-cons :
    (packet : Packet) (outcomes : List (Option ℕ)) (n : ℕ) (result : List ℕ × Bool)
    → 0 < n
    → 0 < length packet
    → Wrote (drop n packet) outcomes result
    → Wrote packet (some n ∷ outcomes) (take n packet ++ result.0, result.1)
Wrote-cons packet outcomes n result h k w = record {
  rest = w.rest;
  front =
      append_assoc (take n packet) result.0 w.rest
      ∙ ap (λ (tail : List ℕ). take n packet ++ tail) w.front
      ∙ take-append-drop n packet;
  whole = λ fine enough. w.whole fine (omega (arith, enough, length-drop n packet));
}

-- Whatever WriteFile answers, the bytes that go out for a payload are a prefix of it, and all of it where
-- no call fails and there are as many calls as bytes.
pub write_loop-Wrote :
    (outcomes : List (Option ℕ)) (packet : Packet)
    → Wrote packet outcomes (write_loop outcomes packet)
unfolding write_loop
write_loop-Wrote [] [] = record { rest = []; front = refl; whole = λ fine enough. refl }
write_loop-Wrote (o ∷ outcomes) [] = record { rest = []; front = refl; whole = λ fine enough. refl }
write_loop-Wrote [] (b ∷ bs) = record {
  rest = b ∷ bs;
  front = refl;
  whole = λ fine enough. absurd (omega (arith, enough));
}
write_loop-Wrote (none ∷ outcomes) (b ∷ bs) = record {
  rest = b ∷ bs;
  front = refl;
  whole = λ fine enough. absurd (ground (arith, fine));
}
write_loop-Wrote (some n ∷ outcomes) (b ∷ bs) =
    let rest = write_loop-Wrote outcomes (drop n (b ∷ bs)) in
    elim (Bool-cases (n == 0)) [
      | inl zero_bytes ↦ rw zero_bytes (record {
        rest = b ∷ bs;
        front = refl;
        whole = λ fine enough. absurd (ground (arith, fine));
      })
      | inr some_bytes ↦ rw some_bytes (
          Wrote-cons (b ∷ bs) outcomes n (write_loop outcomes (drop n (b ∷ bs))) (ground arith)
            (omega arith) rest)
    ]
