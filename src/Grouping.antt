-- ===== src/Grouping.antt =====
-- MpegTsMuxer::group_packets of mpeg_ts_muxer.cpp, and valid_ts_group of srt_listener.cpp on its groups.
use android2pc_stream.Prelude.{
  ℕ, zero, suc, ◌+◌, ◌*◌, ◌≤◌, ◌≡◌, refl, sym, ap, ◌∙◌, true, false, List, [], ◌∷◌, ◌++◌, length,
  length-append, is_empty, All, All-append, arith, append-nil, append_assoc,
}
use android2pc_stream.Packets.{Sendable}
use android2pc_stream.Sender.Demux.{IsTs}
use android2pc_stream.Sender.Muxer.Write.{group_loop, group_packets}
use android2pc_stream.Receiver.TsGroup.{sync_from, valid_ts_group}

abbrev pub concat : List (List ℕ) → List ℕ
concat [] = []
concat (p ∷ ps) = p ++ concat ps

-- One to seven whole transport packets.
pub record Group (chunk : List ℕ) : Type 0 where
  pub packets : List (List ℕ)
  pub whole : All IsTs packets
  pub some_packet : 1 ≤ length packets
  pub at_most_seven : length packets ≤ 7
  pub joined : chunk ≡ concat packets

pub concat-append : (ps qs : List (List ℕ)) → concat (ps ++ qs) ≡ concat ps ++ concat qs
concat-append [] qs = refl
concat-append (p ∷ ps) qs =
    ap (◌++◌ p) (concat-append ps qs) ∙ sym (append_assoc p (concat ps) (concat qs))

pub IsTs-length : (p : List ℕ) → IsTs p → length p ≡ 188
IsTs-length [] h = elim h [ ]
IsTs-length (s ∷ p) h = omega arith

pub length-concat : (ps : List (List ℕ)) → All IsTs ps → length (concat ps) ≡ 188 * length ps
length-concat [] h = refl
length-concat (p ∷ ps) h =
    omega (arith, length-append p (concat ps), IsTs-length p h.0, length-concat ps h.1)

sync_from_skip : (xs rest : List ℕ) → sync_from (length xs) (xs ++ rest) ≡ sync_from 0 rest
unfolding sync_from
sync_from_skip [] rest = refl
sync_from_skip (x ∷ xs) rest = sync_from_skip xs rest

sync_from-packet : (p rest : List ℕ) → IsTs p → sync_from 0 (p ++ rest) ≡ sync_from 0 rest
unfolding sync_from
sync_from-packet [] rest h = elim h [ ]
sync_from-packet (s ∷ p) rest (sync, sized) = ground (arith, rw sized at (sync_from_skip p rest))

sync_from-concat : (ps : List (List ℕ)) → All IsTs ps → sync_from 0 (concat ps) ≡ true
sync_from-concat [] h = unfold sync_from in refl
sync_from-concat (p ∷ ps) h = sync_from-packet p (concat ps) h.0 ∙ sync_from-concat ps h.1

pub Group-Sendable : (chunk : List ℕ) → Group chunk → Sendable chunk
Group-Sendable chunk g = omega (arith, ap length g.joined, length-concat g.packets g.whole)

pub Group-valid_ts_group : (chunk : List ℕ) → Group chunk → valid_ts_group chunk ≡ true
unfolding valid_ts_group
Group-valid_ts_group chunk g = ground (
  arith,
  ap length g.joined,
  length-concat g.packets g.whole,
  ap (sync_from 0) g.joined,
  sync_from-concat g.packets g.whole,
)

-- One packet or more joined are not empty.
full : (p : List ℕ) (held : List (List ℕ)) → IsTs p → is_empty (p ++ concat held) ≡ false
full [] held h = elim h [ ]
full (s ∷ p) held h = refl

-- The group that is being filled holds `held`, and `room` more packets fit.
group_loop-groups :
    (room : ℕ) (held packets : List (List ℕ))
    → All IsTs held
    → All IsTs packets
    → length held + room ≡ 7
    → All Group (group_loop room (concat held) packets)
      × (concat (group_loop room (concat held) packets) ≡ concat held ++ concat packets)
unfolding group_loop
group_loop-groups room [] [] h k e = (tt, refl)
group_loop-groups room (p ∷ held) [] h k e = rw (full p held h.0) (
  (
    record {
      packets = p ∷ held;
      whole = h;
      some_packet = omega arith;
      at_most_seven = omega arith;
      joined = refl;
    },
    tt,
  ),
  refl,
)
group_loop-groups zero held (q ∷ packets) h k e =
    let one : concat (q ∷ []) ≡ q = append-nil q in
    let (groups, same) =
      rw one at (group_loop-groups 6 (q ∷ []) packets (k.0, tt) k.1 (omega arith)) in
    (
      (
        record {
          packets = held;
          whole = h;
          some_packet = omega arith;
          at_most_seven = omega arith;
          joined = refl;
        },
        groups,
      ),
      ap (λ (rest : List ℕ). concat held ++ rest) same,
    )
group_loop-groups (suc room) held (q ∷ packets) h k e =
    let one : concat (held ++ q ∷ []) ≡ concat held ++ q =
      concat-append held (q ∷ []) ∙ ap (λ (last : List ℕ). concat held ++ last) (append-nil q) in
    let (groups, same) = rw one at (
      group_loop-groups room (held ++ q ∷ []) packets (All-append IsTs held (q ∷ []) h (k.0, tt))
        k.1 (omega (arith, length-append held (q ∷ [])))) in
    (groups, same ∙ append_assoc (concat held) q (concat packets))

-- For whole transport packets, `group_packets` makes groups of one to seven of them, and the groups
-- carry the packets in their order, no byte lost, added or moved.
pub group_packets-groups :
    (packets : List (List ℕ))
    → All IsTs packets
    → All Group (group_packets packets) × (concat (group_packets packets) ≡ concat packets)
unfolding group_packets
group_packets-groups packets h = group_loop-groups 7 [] packets tt h (omega arith)
