-- ===== src/Arp/Tests.antt =====
-- Runs of the ARP table and the witnesses of its theorems: a port with the address 10 in VLAN 7.
use warp.Prelude.{
  ℕ, ◌↔◌, length, ◌≡◌, ◌≢◌, refl, true, false, none, some, List, [], ◌∷◌, replicate, arith,
}
use warp.Prelude.Outcome.{ok}
use warp.Slots.{choose, find_entry, write, change_at, change_entry}
use warp.Slots.Laws.{tally}
use warp.Arp.{
  Entry, unused, empty_table, arp_update_entry, arp_delete_entry, arp_lookup, arp_lookup_mac,
  arp_add_local, arp_delete_local,
}
use warp.Arp.Laws.{lookup-update, entries, update-full}
use warp.Arp.Packets.{Port, Packet, Stats, reply, arp_receive_pkt, arp_process_request}
use warp.Arp.Packets.Laws.{receive-lookup}

abbrev one_local : List Entry
one_local =
    record { in_use = true; is_local = true; mac = 77; ae_ip_address = 10; ae_vlan_id = 7 }
    ∷ replicate 23 unused

-- The first slot is free again, and the next one has the address 20.
abbrev with_hole : List Entry
with_hole =
    unused
    ∷ record { in_use = true; is_local = false; mac = 88; ae_ip_address = 20; ae_vlan_id = 7 }
    ∷ replicate 22 unused

abbrev quiet : Stats
quiet = record {
  received_req = 0;
  received_rep = 0;
  received_other = 0;
  req_not_mine = 0;
  to_small_fragment = 0;
  invalid_hw_space = 0;
  invalid_proto_space = 0;
  invalid_hw_len = 0;
  invalid_proto_len = 0;
}

abbrev port : Port
port = record { table = one_local; stats = quiet; sent = [] }

-- A request of 20 for 10.
abbrev who_has : Packet
who_has = record {
  data_len = 46;
  arp_hardware = 1;
  arp_protocol = 2048;
  arp_hlen = 6;
  arp_plen = 4;
  arp_opcode = 1;
  arp_sha = 99;
  arp_sip = 20;
  arp_tip = 10;
}

-- The update of an address behind a hole makes a second entry, and a removal then finds the old one.
second_entry :
    arp_lookup_mac (arp_delete_entry (arp_update_entry with_hole 20 99 false 7).0 20).0 20 7
    ≡ some 88
unfolding arp_lookup_mac arp_lookup arp_delete_entry arp_update_entry find_entry write choose
    change_at change_entry
second_entry = refl

add_delete_local :
    arp_lookup (arp_delete_local (arp_add_local 77 empty_table 10 7).0 10 7).0 10 7 ≡ none
unfolding arp_lookup arp_delete_local arp_delete_entry arp_add_local arp_update_entry find_entry
    write choose change_at change_entry
add_delete_local = refl

one_local-update : (arp_update_entry one_local 20 99 false 7).1 ≡ true
unfolding arp_update_entry choose
one_local-update = refl

lookup-update_example : arp_lookup_mac (arp_update_entry one_local 20 99 false 7).0 20 7 ≡ some 99
lookup-update_example = lookup-update one_local 20 99 false 7 one_local-update

ten_ne_twenty : ◌≢◌ {A = ℕ} 10 20
ten_ne_twenty = omega arith

-- A table of one address, for each entry.
abbrev crowded : List Entry
crowded =
    replicate 24
      record { in_use = true; is_local = false; mac = 88; ae_ip_address = 20; ae_vlan_id = 7 }

update-full_example :
    ((arp_update_entry crowded 30 99 false 7).1 ≡ false)
    ↔ ((tally Entry.in_use crowded ≡ length crowded) × (entries 30 crowded ≡ 0))
update-full_example = update-full crowded 30 99 false 7

abbrev answered : Port
answered = record {
  table =
      record { in_use = true; is_local = true; mac = 77; ae_ip_address = 10; ae_vlan_id = 7 }
      ∷ record { in_use = true; is_local = false; mac = 99; ae_ip_address = 20; ae_vlan_id = 7 }
      ∷ replicate 22 unused;
  stats = record quiet { received_req = 1 };
  sent = reply 10 20 99 7 ∷ [];
}

receive-who_has : arp_receive_pkt true port who_has 7 ≡ ok answered
unfolding arp_receive_pkt arp_process_request arp_lookup arp_update_entry find_entry write choose
    change_at
receive-who_has = refl

receive-lookup_example : arp_lookup answered.table 10 7 ≡ arp_lookup port.table 10 7
receive-lookup_example = receive-lookup port who_has 7 7 ten_ne_twenty receive-who_has
