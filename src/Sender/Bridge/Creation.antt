-- ===== src/Sender/Bridge/Creation.antt =====
-- nativeCreate: when a sender is made, and what its handle finds.
use android2pc_stream.Prelude.{
  ℕ, ◌<◌, ◌≡◌, ◌≢◌, refl, ap, ◌⊎◌, inl, inr, true, false, ◌==◌, some, List, [], ◌∷◌, All, arith,
  ==_iff, Bool-cases,
}
use android2pc_stream.Prelude.Int.{ℤ, pos, negsuc, pos_part}
use android2pc_stream.Platform.{Platform}
use android2pc_stream.Sender.Native.Config.{validate_config}
use android2pc_stream.Sender.Native.State.{Sender, new_sender}
use android2pc_stream.Sender.Bridge.{
  Registry, CreateArguments, find, find_sender, native_create, config_of, codec_known,
}
use android2pc_stream.Sender.Bridge.Invariant.{IsValid}

-- A handle that finds a sender is positive and was given out.
find-lt :
    (next : ℕ) (handle : ℤ) (s : Sender) (entries : List (ℕ × Sender))
    → All (λ e. (0 < e.0) × (e.0 < next)) entries
    → find handle entries ≡ some s
    → (k : ℕ) × (handle ≡ pos k) × (0 < k) × (k < next)
unfolding find
find-lt next handle s [] h e = cc
find-lt next (pos n) s ((key, t) ∷ rest) h e = elim (Bool-cases (n == key)) [
  | inl here ↦ (n, refl, ground (arith, h.0), ground (arith, h.0))
  | inr there ↦ find-lt next (pos n) s rest h.1 (ground arith)
]
find-lt next (negsuc n) s ((key, t) ∷ rest) h e = find-lt next (negsuc n) s rest h.1 (ground arith)

next_missing :
    (P : Sender → Type 0) (r : Registry) (s : Sender)
    → IsValid P r
    → find (pos r.next_handle) r.senders ≢ some s
next_missing P r s v e =
    let (k, same, positive, below) =
      find-lt r.next_handle (pos r.next_handle) s r.senders v.keys_given e in
    let equal : r.next_handle ≡ k = ap pos_part same in omega arith

find-head :
    (k : ℕ) (s : Sender) (entries : List (ℕ × Sender)) → find (pos k) ((k, s) ∷ entries) ≡ some s
unfolding find
find-head k s entries = ground arith

find-other :
    (k : ℕ) (s : Sender) (entries : List (ℕ × Sender)) (other : ℤ)
    → other ≢ pos k
    → find other ((k, s) ∷ entries) ≡ find other entries
unfolding find
find-other k s entries (pos n) h = elim (Bool-cases (n == k)) [
  | inl e ↦ absurd (h (ap pos ((==_iff n k).0 e)))
  | inr e ↦ rw e refl
]
find-other k s entries (negsuc n) h = refl

-- On a valid registry, a sender is made exactly where the codec's number is known and the configuration, with
-- what was copied of the texts and the secret, passes `validate_config`. Then the handle is not 0, no sender
-- had it, it finds the new sender, and every other handle finds what it found; otherwise the answer is 0 and
-- nothing changes.
pub native_create_cases :
    (platform : Platform) (P : Sender → Type 0) (r : Registry) (a : CreateArguments)
    → IsValid P r
    → (let (after, handle) = native_create platform r a in
        ((codec_known a.video_codec ≡ true)
          × (validate_config platform (config_of a) ≡ true)
          × (0 < handle)
          × ((s : Sender) → find_sender r (pos handle) ≢ some s)
          × (find_sender after (pos handle) ≡ some (new_sender (config_of a)))
          × ((other : ℤ) → other ≢ pos handle → find_sender after other ≡ find_sender r other))
        ⊎ (((codec_known a.video_codec ≡ false) ⊎ (validate_config platform (config_of a) ≡ false))
            × (handle ≡ 0)
            × (after ≡ r)))
unfolding native_create find_sender
native_create_cases platform P r a v = elim (Bool-cases (codec_known a.video_codec)) [
  | inl known ↦ elim (Bool-cases (validate_config platform (config_of a))) [
    | inl valid ↦
        rw (known, valid)
          (inl (
            refl,
            refl,
            v.next_positive,
            λ s. next_missing P r s v,
            find-head r.next_handle _ r.senders,
            λ other h. find-other r.next_handle _ r.senders other h,
          ))
    | inr bad ↦ rw (known, bad) (inr (inr refl, refl, refl))
  ]
  | inr unknown ↦ rw unknown (inr (inl refl, refl, refl))
]
