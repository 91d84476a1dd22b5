-- ===== src/Receiver/Network/Listing.antt =====
-- enumerate_private_ipv4_addresses: which addresses are listed, and in which order.
use android2pc_stream.Prelude.{
  ℕ, ◌≡◌, refl, sym, ap, ◌∙◌, ◌↔◌, inl, inr, Bool, true, false, ◌||◌, Option, none, some, List, [],
  ◌∷◌, any, Any, All, any-append, list_eqb, list_eqb_self, list_eqb→eq, arith, Bool-cases,
  Option-cases,
}
use android2pc_stream.Platform.{Platform}
use android2pc_stream.Receiver.Config.{is_canonical_private_ipv4}
use android2pc_stream.Receiver.Network.{
  NetworkAddress, Adapter, AdaptersAnswer, adapters_of, final_answer, is_skipped,
  sort_network_addresses, unique_from, unique_addresses, entry_text, adapter_entries, collect,
  enumerate_private_ipv4_addresses,
}
use android2pc_stream.Receiver.Network.Sorting.{
  IsSorted, NotAfter, any-sort_network_addresses, sort_network_addresses-IsSorted,
}

-- An address of the list is the host.
abbrev pub hosts : List ℕ → NetworkAddress → Bool
hosts host a = list_eqb a.address host

-- `std::unique` keeps every address, though not every entry.
unique_from-hosts :
    (host : List ℕ) (a : NetworkAddress) (rest : List NetworkAddress)
    → any (hosts host) (unique_from a rest) ≡ (hosts host a || any (hosts host) rest)
unfolding unique_from
unique_from-hosts host a [] = refl
unique_from-hosts host a (b ∷ rest) = elim (Bool-cases (list_eqb a.address b.address)) [
  | inl same ↦
      let e : a.address ≡ b.address = list_eqb→eq a.address b.address same in
      rw same (unique_from-hosts host a rest ∙ rw e (ground arith))
  | inr other ↦ rw other (ground (arith, unique_from-hosts host b rest))
]

unique_addresses-hosts :
    (host : List ℕ) (addresses : List NetworkAddress)
    → any (hosts host) (unique_addresses addresses) ≡ any (hosts host) addresses
unfolding unique_addresses
unique_addresses-hosts host [] = refl
unique_addresses-hosts host (a ∷ rest) = unique_from-hosts host a rest

-- What `std::unique` leaves of a sorted list is sorted.
unique_from-All :
    (P : NetworkAddress → Type 0) (a : NetworkAddress) (rest : List NetworkAddress)
    → P a
    → All P rest
    → All P (unique_from a rest)
unfolding unique_from
unique_from-All P a [] h all = (h, tt)
unique_from-All P a (b ∷ rest) h all = elim (Bool-cases (list_eqb a.address b.address)) [
  | inl same ↦ rw same (unique_from-All P a rest h all.1)
  | inr other ↦ rw other (h, unique_from-All P b rest all.0 all.1)
]

unique_from-IsSorted :
    (a : NetworkAddress) (rest : List NetworkAddress)
    → All (NotAfter a) rest
    → IsSorted rest
    → IsSorted (unique_from a rest)
unfolding unique_from
unique_from-IsSorted a [] all s = (tt, tt)
unique_from-IsSorted a (b ∷ rest) all (first, s) =
    elim (Bool-cases (list_eqb a.address b.address)) [
      | inl same ↦ rw same (unique_from-IsSorted a rest all.1 s)
      | inr other ↦
          rw other
            (unique_from-All (NotAfter a) b rest all.0 all.1, unique_from-IsSorted b rest first s)
    ]

unique_addresses-IsSorted :
    (addresses : List NetworkAddress) → IsSorted addresses → IsSorted (unique_addresses addresses)
unfolding unique_addresses
unique_addresses-IsSorted [] s = tt
unique_addresses-IsSorted (a ∷ rest) (first, s) = unique_from-IsSorted a rest first s

module _ (platform : Platform) (host : List ℕ) where
  -- A unicast entry that Windows prints as the host.
  abbrev pub Prints : Option ℕ → Type 0
  Prints none = ⊥
  Prints (some word) = platform.inet_ntop word ≡ some host

  -- An adapter that is up, no loopback and no tunnel, with such an entry.
  abbrev pub Offers : Adapter → Type 0
  Offers adapter = (is_skipped adapter ≡ false) × Any Prints adapter.unicast

  module _ (canonical : is_canonical_private_ipv4 platform host ≡ true) where
    entry_text-Prints : (entry : Option ℕ) → Prints entry → entry_text platform entry ≡ some host
    unfolding entry_text
    entry_text-Prints none h = absurd h
    entry_text-Prints (some word) h = rw (h, entry_text, canonical) refl

    adapter_entries-Prints :
        (adapter : Adapter) (entries : List (Option ℕ))
        → Any Prints entries
        → any (hosts host) (adapter_entries platform adapter entries) ≡ true
    unfolding adapter_entries
    adapter_entries-Prints adapter [] h = elim h [ ]
    adapter_entries-Prints adapter (entry ∷ entries) (inl h) =
        rw (entry_text-Prints entry h, adapter_entries) (ground (arith, list_eqb_self host))
    adapter_entries-Prints adapter (entry ∷ entries) (inr h) =
        elim (Option-cases (entry_text platform entry)) [
          | inl e ↦ rw (e, adapter_entries) (adapter_entries-Prints adapter entries h)
          | inr (text, e) ↦
              rw (e, adapter_entries) (ground (arith, adapter_entries-Prints adapter entries h))
        ]

    collect-Offers :
        (adapters : List Adapter)
        → Any Offers adapters
        → any (hosts host) (collect platform adapters) ≡ true
    unfolding collect
    collect-Offers [] h = elim h [ ]
    collect-Offers (adapter ∷ adapters) (inl (used, h)) =
        rw
          (
            used,
            any-append (hosts host) (adapter_entries platform adapter adapter.unicast)
                (collect platform adapters),
            adapter_entries-Prints adapter adapter.unicast h,
          )
          refl
    collect-Offers (adapter ∷ adapters) (inr h) = elim (Bool-cases (is_skipped adapter)) [
      | inl skipped ↦ rw skipped (collect-Offers adapters h)
      | inr used ↦
          rw
            (
              used,
              any-append (hosts host) (adapter_entries platform adapter adapter.unicast)
                  (collect platform adapters),
              collect-Offers adapters h,
            )
            (ground arith)
    ]

  abbrev Listed : Type 0
  Listed = is_canonical_private_ipv4 platform host ≡ true

  entry_text-some :
      (entry : Option ℕ) → entry_text platform entry ≡ some host → Listed × Prints entry
  unfolding entry_text
  entry_text-some none h = cc
  entry_text-some (some word) h = elim (Option-cases (platform.inet_ntop word)) [
    | inl e ↦ cc e
    | inr (text, e) ↦ elim (Bool-cases (is_canonical_private_ipv4 platform text)) [
      | inl c ↦ let same : text ≡ host = ground arith in (rw (← same) c, e ∙ ap some same)
      | inr c ↦ absurd (ground arith)
    ]
  ]

  adapter_entries-hosts :
      (adapter : Adapter) (entries : List (Option ℕ))
      → any (hosts host) (adapter_entries platform adapter entries) ≡ true
      → Listed × Any Prints entries
  unfolding adapter_entries
  adapter_entries-hosts adapter [] h = cc
  adapter_entries-hosts adapter (entry ∷ entries) h =
      elim (Option-cases (entry_text platform entry)) [
        | inl e ↦ let (c, o) = adapter_entries-hosts adapter entries (ground arith) in (c, inr o)
        | inr (text, e) ↦ elim (Bool-cases (list_eqb text host)) [
          | inl same ↦
              let e' : entry_text platform entry ≡ some host =
                e ∙ ap some (list_eqb→eq text host same) in
              let (c, p) = entry_text-some entry e' in (c, inl p)
          | inr other ↦
              let (c, o) = adapter_entries-hosts adapter entries (ground arith) in (c, inr o)
        ]
      ]

  collect-hosts :
      (adapters : List Adapter)
      → any (hosts host) (collect platform adapters) ≡ true
      → Listed × Any Offers adapters
  unfolding collect
  collect-hosts [] h = cc
  collect-hosts (adapter ∷ adapters) h = elim (Bool-cases (is_skipped adapter)) [
    | inl skipped ↦ let (c, o) = collect-hosts adapters (ground arith) in (c, inr o)
    | inr used ↦
        elim (Bool-cases (any (hosts host) (adapter_entries platform adapter adapter.unicast))) [
          | inl here ↦
              let (c, o) = adapter_entries-hosts adapter adapter.unicast here in (c, inl (used, o))
          | inr not_here ↦
              let (c, o) = collect-hosts adapters (
                ground (
                  arith,
                  any-append (hosts host) (adapter_entries platform adapter adapter.unicast)
                      (collect platform adapters),
                )) in
              (c, inr o)
        ]
  ]

  -- A host is listed exactly when it is a canonical private address that an adapter in use, neither a
  -- loopback nor a tunnel, has as an IPv4 address; and no entry of the list comes before one to its left.
  pub enumerate_private_ipv4_addresses_iff :
      (first second : AdaptersAnswer)
      → ((any (hosts host) (enumerate_private_ipv4_addresses platform first second) ≡ true) ↔ (
          (is_canonical_private_ipv4 platform host ≡ true)
          × Any Offers (adapters_of (final_answer first second))))
        × IsSorted (enumerate_private_ipv4_addresses platform first second)
  unfolding enumerate_private_ipv4_addresses
  enumerate_private_ipv4_addresses_iff first second =
      let found = collect platform (adapters_of (final_answer first second)) in
      let same : any (hosts host) (unique_addresses (sort_network_addresses found))
          ≡ any (hosts host) found =
        unique_addresses-hosts host (sort_network_addresses found)
        ∙ any-sort_network_addresses (hosts host) found in
      (
        (
          λ h. collect-hosts (adapters_of (final_answer first second)) (sym same ∙ h),
          λ (c, o). same ∙ collect-Offers c (adapters_of (final_answer first second)) o,
        ),
        unique_addresses-IsSorted (sort_network_addresses found)
            (sort_network_addresses-IsSorted found).0,
      )
