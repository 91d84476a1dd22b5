-- ===== src/Receiver/Network.antt =====
-- pc/src/network_addresses.cpp and network_addresses.hpp: the PC's private addresses in the order in which
-- the pairing window offers them. The adapters of Windows and its text conversion are parameters.
pub mod Order
pub mod Sorting
pub mod Saved
pub mod Listing
use android2pc_stream.Prelude.{
  ℕ, ◌+◌, ◌*◌, ◌≤◌, Bool, true, false, not, ◌&&◌, ◌||◌, Option, none, some, List, [], ◌∷◌, ◌++◌,
  map, is_empty, ltb, leb, ◌==◌, if◌then◌else◌, codes, starts_with, list_eqb, any, bool_eqb,
}
use android2pc_stream.Platform.{Platform}
use android2pc_stream.Receiver.Config.{is_canonical_private_ipv4}
use android2pc_stream.Receiver.Control.{ascii_lower}

pub record NetworkAddress : Type 0 where
  pub address : List ℕ
  pub display_name : List ℕ
  pub ethernet : Bool
  pub wifi : Bool
  pub has_default_gateway : Bool
  pub likely_virtual : Bool
  pub metric : ℕ

-- `text.find(marker) != npos`.
unfoldable pub contains : List ℕ → List ℕ → Bool
contains [] marker = starts_with [] marker
contains (c ∷ text) marker = starts_with (c ∷ text) marker || contains text marker

abbrev pub virtual_markers : List (List ℕ)
virtual_markers =
    codes "vethernet"
    ∷ codes "virtual"
    ∷ codes "hyper-v"
    ∷ codes "vmware"
    ∷ codes "virtualbox"
    ∷ codes "default switch"
    ∷ codes "wsl"
    ∷ codes "tap"
    ∷ codes "tailscale"
    ∷ codes "zerotier"
    ∷ []

unfoldable pub is_likely_virtual_adapter_name : List ℕ → Bool
unfolding contains
is_likely_virtual_adapter_name name =
    any (λ marker. contains (map ascii_lower name) marker) virtual_markers

-- `left < right` on std::string, by bytes.
unfoldable pub string_lt : List ℕ → List ℕ → Bool
string_lt left [] = false
string_lt [] (y ∷ ys) = true
string_lt (x ∷ xs) (y ∷ ys) = ltb x y || x == y && string_lt xs ys

abbrev pub is_physical : NetworkAddress → Bool
is_physical a = a.ethernet || a.wifi

-- The comparator; `<` and `>` on bool are written out.
unfoldable pub network_before : NetworkAddress → NetworkAddress → Bool
unfolding string_lt
network_before left right =
    if not (bool_eqb left.likely_virtual right.likely_virtual)
    then not left.likely_virtual
    else if not (bool_eqb left.has_default_gateway right.has_default_gateway)
    then left.has_default_gateway
    else if not (bool_eqb (is_physical left) (is_physical right))
    then is_physical left
    else if not (left.metric == right.metric)
    then ltb left.metric right.metric
    else if not (bool_eqb left.ethernet right.ethernet)
    then left.ethernet
    else string_lt left.address right.address

-- `std::ranges::sort` with the comparator; elements that it cannot tell apart keep their order here.
unfoldable pub insert_network : NetworkAddress → List NetworkAddress → List NetworkAddress
insert_network a [] = a ∷ []
insert_network a (b ∷ bs) = if network_before b a then b ∷ insert_network a bs else a ∷ b ∷ bs

unfoldable pub sort_network_addresses : List NetworkAddress → List NetworkAddress
unfolding insert_network
sort_network_addresses [] = []
sort_network_addresses (a ∷ rest) = insert_network a (sort_network_addresses rest)

abbrev pub one_further : Option (ℕ × NetworkAddress) → Option (ℕ × NetworkAddress)
one_further none = none
one_further (some (index, found)) = some (index + 1, found)

-- `std::ranges::find_if` for the host, with the distance from the first element.
unfoldable pub find_host : List NetworkAddress → List ℕ → Option (ℕ × NetworkAddress)
find_host [] host = none
find_host (a ∷ others) host =
    let rest = one_further (find_host others host) in
    if list_eqb a.address host then some (0, a) else rest

abbrev pub is_preferred : NetworkAddress → Bool
is_preferred a = not a.likely_virtual && a.has_default_gateway && is_physical a

unfoldable pub saved_network_index : List NetworkAddress → List ℕ → Option ℕ
unfolding find_host
saved_network_index addresses saved_host = elim (find_host addresses saved_host) [
  | none ↦ none
  | some (index, saved) ↦
      if saved.likely_virtual && any is_preferred addresses then none else some index
]

pub data IfType : Type 0 where
  ethernet_csmacd ieee80211 software_loopback tunnel other : IfType

abbrev pub is_ethernet : IfType → Bool
is_ethernet IfType.ethernet_csmacd = true
is_ethernet _ = false

abbrev pub is_wifi : IfType → Bool
is_wifi IfType.ieee80211 = true
is_wifi _ = false

abbrev pub is_loopback_or_tunnel : IfType → Bool
is_loopback_or_tunnel IfType.software_loopback = true
is_loopback_or_tunnel IfType.tunnel = true
is_loopback_or_tunnel _ = false

-- IP_ADAPTER_ADDRESSES. A unicast entry is an IPv4 address in host order, or none for a null pointer or
-- another family. `friendly_name` is what WideCharToMultiByte makes of the name, empty where it fails.
pub record Adapter : Type 0 where
  pub up : Bool
  pub if_type : IfType
  pub unicast : List (Option ℕ)
  pub friendly_name : List ℕ
  pub has_gateway : Bool
  pub ipv4_metric : ℕ

-- What GetAdaptersAddresses answers; an overflow says the size that it wants.
pub data AdaptersAnswer : Type 0 where
  no_error : List Adapter → AdaptersAnswer
  buffer_overflow : ℕ → AdaptersAnswer
  failure : AdaptersAnswer

abbrev pub adapters_of : AdaptersAnswer → List Adapter
adapters_of (AdaptersAnswer.no_error adapters) = adapters
adapters_of _ = []

-- The answer that counts, where the second call is made only after an overflow of at most 1 MiB.
abbrev pub final_answer : AdaptersAnswer → AdaptersAnswer → AdaptersAnswer
final_answer (AdaptersAnswer.buffer_overflow size) second =
    if leb size (1024 * 1024) then second else AdaptersAnswer.failure
final_answer first second = first

abbrev pub is_skipped : Adapter → Bool
is_skipped adapter = not adapter.up || is_loopback_or_tunnel adapter.if_type

-- `std::unique` by address, with the `erase` behind it: of neighbours with one address the first is kept.
unfoldable pub unique_from : NetworkAddress → List NetworkAddress → List NetworkAddress
unique_from a [] = a ∷ []
unique_from a (b ∷ bs) =
    let next = unique_from b bs in
    let same = unique_from a bs in if list_eqb a.address b.address then same else a ∷ next

unfoldable pub unique_addresses : List NetworkAddress → List NetworkAddress
unfolding unique_from
unique_addresses [] = []
unique_addresses (a ∷ rest) = unique_from a rest

module _ (platform : Platform) where
  -- The text of one unicast entry that is listed.
  unfoldable pub entry_text : Option ℕ → Option (List ℕ)
  entry_text none = none
  entry_text (some word) = elim (platform.inet_ntop word) [
    | none ↦ none
    | some text ↦ if is_canonical_private_ipv4 platform text then some text else none
  ]

  abbrev pub address_of : Adapter → List ℕ → NetworkAddress
  address_of adapter text = record {
    address = text;
    display_name = if is_empty adapter.friendly_name then text else adapter.friendly_name;
    ethernet = is_ethernet adapter.if_type;
    wifi = is_wifi adapter.if_type;
    has_default_gateway = adapter.has_gateway;
    likely_virtual = is_likely_virtual_adapter_name adapter.friendly_name;
    metric = adapter.ipv4_metric;
  }

  -- The inner loop.
  unfoldable pub adapter_entries : Adapter → List (Option ℕ) → List NetworkAddress
  unfolding entry_text
  adapter_entries adapter [] = []
  adapter_entries adapter (entry ∷ entries) =
      let rest = adapter_entries adapter entries in
      elim (entry_text entry) [ none ↦ rest | some text ↦ address_of adapter text ∷ rest ]

  -- The outer loop.
  unfoldable pub collect : List Adapter → List NetworkAddress
  unfolding adapter_entries
  collect [] = []
  collect (adapter ∷ adapters) =
      let rest = collect adapters in
      if is_skipped adapter then rest else adapter_entries adapter adapter.unicast ++ rest

  unfoldable pub enumerate_private_ipv4_addresses :
      AdaptersAnswer → AdaptersAnswer → List NetworkAddress
  unfolding collect sort_network_addresses unique_addresses
  enumerate_private_ipv4_addresses first second =
      unique_addresses (sort_network_addresses (collect (adapters_of (final_answer first second))))
