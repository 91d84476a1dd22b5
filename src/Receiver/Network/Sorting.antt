-- ===== src/Receiver/Network/Sorting.antt =====
-- sort_network_addresses: a sorted permutation, with a preferred address in front.
use mathlib.Core.List.{Perm}
use mathlib.Core.List.Perm
use android2pc_stream.Prelude.{
  ◌≡◌, refl, ◌∙◌, inl, inr, Bool, true, false, ◌||◌, List, [], ◌∷◌, any, All, arith, Bool-cases,
}
use android2pc_stream.Receiver.Network.{
  NetworkAddress, network_before, insert_network, sort_network_addresses, is_preferred,
}
use android2pc_stream.Receiver.Network.Order.{network_before-connected, network_before-asymm}

-- `b` does not come before `a`.
abbrev pub NotAfter : NetworkAddress → NetworkAddress → Type 0
NotAfter a b = network_before b a ≡ false

-- No address comes before one that stands to its left.
abbrev pub IsSorted : List NetworkAddress → Type 0
IsSorted [] = Unit {0}
IsSorted (a ∷ rest) = All (NotAfter a) rest × IsSorted rest

All-NotAfter :
    (a b : NetworkAddress) (rest : List NetworkAddress)
    → NotAfter a b
    → All (NotAfter b) rest
    → All (NotAfter a) rest
All-NotAfter a b [] h all = tt
All-NotAfter a b (c ∷ rest) h all =
    (network_before-connected a b c h all.0, All-NotAfter a b rest h all.1)

All-insert_network :
    (P : NetworkAddress → Type 0) (a : NetworkAddress) (rest : List NetworkAddress)
    → P a
    → All P rest
    → All P (insert_network a rest)
unfolding insert_network
All-insert_network P a [] h all = (h, tt)
All-insert_network P a (b ∷ rest) h all = elim (Bool-cases (network_before b a)) [
  | inl e ↦ rw e (all.0, All-insert_network P a rest h all.1)
  | inr e ↦ rw e (h, all)
]

insert_network-IsSorted :
    (a : NetworkAddress) (rest : List NetworkAddress)
    → IsSorted rest
    → IsSorted (insert_network a rest)
unfolding insert_network
insert_network-IsSorted a [] s = (tt, tt)
insert_network-IsSorted a (b ∷ rest) (first, s) = elim (Bool-cases (network_before b a)) [
  | inl e ↦ rw e (
    All-insert_network (NotAfter b) a rest (network_before-asymm b a e) first,
    insert_network-IsSorted a rest s,
  )
  | inr e ↦ rw e ((e, All-NotAfter a b rest e first), (first, s))
]

insert_network-perm :
    (a : NetworkAddress) (rest : List NetworkAddress) → Perm (insert_network a rest) (a ∷ rest)
unfolding insert_network
insert_network-perm a [] = Perm.refl (a ∷ [])
insert_network-perm a (b ∷ rest) = elim (Bool-cases (network_before b a)) [
  | inl e ↦ rw e (Perm.trans (Perm.cons b (insert_network-perm a rest)) (Perm.swap a b rest))
  | inr e ↦ rw e (Perm.refl (a ∷ b ∷ rest))
]

-- The result has the same addresses, each as often, and none comes before one to its left.
pub sort_network_addresses-IsSorted :
    (addresses : List NetworkAddress)
    → IsSorted (sort_network_addresses addresses)
      × Perm (sort_network_addresses addresses) addresses
unfolding sort_network_addresses
sort_network_addresses-IsSorted [] = (tt, Perm.refl [])
sort_network_addresses-IsSorted (a ∷ rest) =
    let (sorted, same) = sort_network_addresses-IsSorted rest in
    (
      insert_network-IsSorted a (sort_network_addresses rest) sorted,
      Perm.trans (insert_network-perm a (sort_network_addresses rest)) (Perm.cons a same),
    )

pub any-insert_network :
    (p : NetworkAddress → Bool) (a : NetworkAddress) (rest : List NetworkAddress)
    → any p (insert_network a rest) ≡ (p a || any p rest)
unfolding insert_network
any-insert_network p a [] = refl
any-insert_network p a (b ∷ rest) = ground (arith, any-insert_network p a rest)

pub any-sort_network_addresses :
    (p : NetworkAddress → Bool) (addresses : List NetworkAddress)
    → any p (sort_network_addresses addresses) ≡ any p addresses
unfolding sort_network_addresses
any-sort_network_addresses p [] = refl
any-sort_network_addresses p (a ∷ rest) =
    rw (any-insert_network p a (sort_network_addresses rest), any-sort_network_addresses p rest)
      refl

before_preferred :
    (a b : NetworkAddress) → NotAfter a b → is_preferred b ≡ true → is_preferred a ≡ true
unfolding network_before
before_preferred a b h k = ground arith

sorted_preferred :
    (a : NetworkAddress) (rest : List NetworkAddress)
    → All (NotAfter a) rest
    → any is_preferred rest ≡ true
    → is_preferred a ≡ true
sorted_preferred a [] all h = cc
sorted_preferred a (b ∷ rest) (first, all) h = elim (Bool-cases (is_preferred b)) [
  | inl e ↦ before_preferred a b first e
  | inr e ↦ sorted_preferred a rest all (ground arith)
]

pub head_preferred :
    (sorted : List NetworkAddress)
    → IsSorted sorted
    → any is_preferred sorted ≡ true
    → (first : NetworkAddress) × (rest : List NetworkAddress) × (sorted ≡ first ∷ rest)
      × (is_preferred first ≡ true)
head_preferred [] s h = cc
head_preferred (a ∷ rest) (all, s) h = elim (Bool-cases (is_preferred a)) [
  | inl e ↦ (a, rest, refl, e)
  | inr e ↦ (a, rest, refl, sorted_preferred a rest all (ground arith))
]

-- Where one address is of a real adapter with a gateway, by Ethernet or Wi-Fi, so is the first of the sorted
-- list.
pub sort_network_addresses-preferred :
    (addresses : List NetworkAddress)
    → any is_preferred addresses ≡ true
    → (first : NetworkAddress) × (rest : List NetworkAddress) × (sort_network_addresses addresses
        ≡ first ∷ rest)
      × (is_preferred first ≡ true)
sort_network_addresses-preferred addresses h =
    head_preferred (sort_network_addresses addresses) (sort_network_addresses-IsSorted addresses).0
      (any-sort_network_addresses is_preferred addresses ∙ h)
