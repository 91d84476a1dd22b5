-- ===== src/Checks/NetworkChecks.antt =====
-- The theorems on the PC's addresses at concrete inputs.
use android2pc_stream.Prelude.{◌≡◌, ◌↔◌, true, false, none, some, List, [], ◌∷◌, codes, any}
use android2pc_stream.Receiver.Config.{is_canonical_private_ipv4}
use android2pc_stream.Receiver.Network.{
  NetworkAddress, Adapter, IfType, AdaptersAnswer, adapters_of, final_answer,
  enumerate_private_ipv4_addresses,
}
use android2pc_stream.Prelude.{Any}
use android2pc_stream.Receiver.Network.Sorting.{IsSorted}
use android2pc_stream.Receiver.Network.Listing.{hosts, Offers, enumerate_private_ipv4_addresses_iff}
use android2pc_stream.Checks.Data.{desk, desk_address, desk_word}

abbrev virtual_switch : NetworkAddress
virtual_switch = record {
  address = codes "172.16.0.1";
  display_name = codes "vEthernet";
  ethernet = true;
  wifi = false;
  has_default_gateway = false;
  likely_virtual = true;
  metric = 5;
}

abbrev home_wifi : NetworkAddress
home_wifi = record {
  address = desk_address;
  display_name = codes "Wi-Fi";
  ethernet = false;
  wifi = true;
  has_default_gateway = true;
  likely_virtual = false;
  metric = 50;
}

abbrev two_addresses : List NetworkAddress
two_addresses = virtual_switch ∷ home_wifi ∷ []

abbrev wifi_adapter : Adapter
wifi_adapter = record {
  up = true;
  if_type = IfType.ieee80211;
  unicast = none ∷ some desk_word ∷ [];
  friendly_name = codes "Wi-Fi";
  has_gateway = true;
  ipv4_metric = 50;
}

abbrev one_adapter : AdaptersAnswer
one_adapter = AdaptersAnswer.no_error (wifi_adapter ∷ [])

listing_example :
    ((any
          (hosts desk_address)
          (enumerate_private_ipv4_addresses desk (AdaptersAnswer.buffer_overflow 20000) one_adapter)
        ≡ true)
      ↔ ((is_canonical_private_ipv4 desk desk_address ≡ true)
          × Any
              (Offers desk desk_address)
              (adapters_of (final_answer (AdaptersAnswer.buffer_overflow 20000) one_adapter))))
    × IsSorted
        (enumerate_private_ipv4_addresses desk (AdaptersAnswer.buffer_overflow 20000) one_adapter)
listing_example =
    enumerate_private_ipv4_addresses_iff desk desk_address (AdaptersAnswer.buffer_overflow 20000)
      one_adapter
