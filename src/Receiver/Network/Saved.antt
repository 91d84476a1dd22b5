-- ===== src/Receiver/Network/Saved.antt =====
-- saved_network_index: which entry of the list the saved host selects.
use native.Mathlib.Numerals.{add-one}
use android2pc_stream.Prelude.{
  ℕ, ◌+◌, ◌≡◌, ◌≢◌, refl, ap, ◌⊎◌, inl, inr, ◌&&◌, Option, none, some, List, [], ◌∷◌, get_elem?,
  take, any, All, list_eqb, ne_of_list_eqb, list_eqb→eq, Bool-cases, if◌then◌else◌,
}
use android2pc_stream.Receiver.Network.{
  NetworkAddress, find_host, one_further, is_preferred, saved_network_index,
}

-- The entry `found` at `index` is the first of the host.
pub record IsFirst (addresses : List NetworkAddress) (host : List ℕ) (index : ℕ)
    (found : NetworkAddress) : Type 0 where
  pub there : get_elem? addresses index ≡ some found
  pub hosts : found.address ≡ host
  pub none_before : All (λ a. a.address ≢ host) (take index addresses)

-- No entry is of the host, or one is the first of them.
abbrev Search : List NetworkAddress → List ℕ → Option (ℕ × NetworkAddress) → Type 0
Search addresses host answer =
    ((answer ≡ none) × All (λ a. a.address ≢ host) addresses)
    ⊎ ((index : ℕ) × (found : NetworkAddress) × (answer ≡ some (index, found))
        × IsFirst addresses host index found)

Search-cons :
    (a : NetworkAddress) (rest : List NetworkAddress) (host : List ℕ)
    (answer : Option (ℕ × NetworkAddress))
    → a.address ≢ host
    → Search rest host answer
    → Search (a ∷ rest) host (one_further answer)
Search-cons a rest host answer differs (inl (missing, all)) =
    inl (ap one_further missing, (differs, all))
Search-cons a rest host answer differs (inr (index, found, e, first)) = inr (
  index + 1,
  found,
  ap one_further e,
  record {
    there = simp (first.there, add-one);
    hosts = first.hosts;
    none_before = simp add-one (differs, first.none_before);
  },
)

find_host-Search :
    (addresses : List NetworkAddress) (host : List ℕ)
    → Search addresses host (find_host addresses host)
unfolding find_host
find_host-Search [] host = inl (refl, tt)
find_host-Search (a ∷ rest) host = elim (Bool-cases (list_eqb a.address host)) [
  | inl same ↦ rw same (
      inr (
        0,
        a,
        refl,
        record { there = refl; hosts = list_eqb→eq a.address host same; none_before = tt },
      ))
  | inr other ↦ rw other (
      Search-cons a rest host (find_host rest host) (ne_of_list_eqb a.address host other)
        (find_host-Search rest host))
]

-- No entry is of the saved host and the answer is none, or the answer is the place of the first entry that
-- is; but where that one is of an adapter that seems virtual, and the list has an address of a real adapter
-- with a gateway, by Ethernet or Wi-Fi, the answer is none too.
pub saved_network_index_cases :
    (addresses : List NetworkAddress) (host : List ℕ)
    → ((saved_network_index addresses host ≡ none) × All (λ a. a.address ≢ host) addresses)
      ⊎ ((index : ℕ) × (found : NetworkAddress) × IsFirst addresses host index found
          × (saved_network_index addresses host
              ≡ (if found.likely_virtual && any is_preferred addresses then none else some index)))
unfolding saved_network_index
saved_network_index_cases addresses host = elim (find_host-Search addresses host) [
  | inl (missing, all) ↦ inl (rw (missing, saved_network_index) refl, all)
  | inr (index, found, e, first) ↦ inr (index, found, first, rw (e, saved_network_index) refl)
]
