-- ===== src/Arp.antt =====
-- The ARP table of a port, of src/tpg_arp.c and inc/tpg_arp.h: its entries, their update, removal and
-- lookup, the addresses of the port itself, and the ARP packets that it receives. The flags of
-- `ae_mac_flags` that an entry can have are fields of their own; the address that DPDK gives for the
-- port is a parameter, and a packet that is sent goes to a log, the last one first.
pub mod Laws
pub mod Packets
mod Tests
use mathlib.Core.Option
use warp.Prelude.{
  ℕ, zero, suc, ◌%◌, ◌^◌, Bool, true, false, ◌&&◌, not, Option, none, some, List, [], ◌∷◌,
  replicate, ◌==◌, if◌then◌else◌,
}
use warp.Slots.{Slot, fresh, old, full, choose, find_entry, change_entry, write}

-- `arp_entry_t`.
pub record Entry : Type 0 where
  pub in_use : Bool
  pub is_local : Bool
  pub mac : ℕ
  pub ae_ip_address : ℕ
  pub ae_vlan_id : ℕ

abbrev pub unused : Entry
unused = record { in_use = false; is_local = false; mac = 0; ae_ip_address = 0; ae_vlan_id = 0 }

-- TPG_ARP_PORT_TABLE_SIZE entries, zeroed by `arp_init`.
abbrev pub empty_table : List Entry
empty_table = replicate 24 unused

abbrev pub has_ip : ℕ → Entry → Bool
has_ip ip e = e.ae_ip_address == ip

abbrev pub has_key : ℕ → ℕ → Entry → Bool
has_key ip vlan e = (e.ae_ip_address == ip) && (e.ae_vlan_id == vlan)

-- `arp_set_mac_in_entry_as_uint64` and the VLAN, on an entry in use.
abbrev pub refresh : ℕ → ℕ → Entry → Entry
refresh m vlan e = record e { mac = m % 2 ^ 48; ae_vlan_id = vlan }

abbrev pub fill : ℕ → ℕ → Bool → ℕ → Entry → Entry
fill ip m local vlan e = record {
  in_use = true;
  is_local = local;
  mac = m % 2 ^ 48;
  ae_ip_address = ip;
  ae_vlan_id = vlan;
}

abbrev has_room : Slot → Bool
has_room (fresh i) = true
has_room (old i) = true
has_room full = false

-- `arp_update_entry`.
unfoldable pub arp_update_entry : List Entry → ℕ → ℕ → Bool → ℕ → List Entry × Bool
arp_update_entry es ip m local vlan = (
  write Entry.in_use (has_ip ip) (fill ip m local vlan) (refresh m vlan) es,
  has_room (choose Entry.in_use (has_ip ip) es),
)

-- `arp_delete_entry`: the address alone is the key.
unfoldable pub arp_delete_entry : List Entry → ℕ → List Entry × Bool
arp_delete_entry es ip = elim (find_entry Entry.in_use (has_ip ip) es) [
  | some e ↦ (change_entry Entry.in_use (has_ip ip) (λ e. record e { in_use = false }) es, true)
  | none ↦ (es, false)
]

-- `arp_lookup`.
unfoldable pub arp_lookup : List Entry → ℕ → ℕ → Option Entry
arp_lookup es ip vlan = find_entry Entry.in_use (has_key ip vlan) es

-- `arp_lookup_mac`: `none` is TPG_ARP_MAC_NOT_FOUND, which no 48 bit address is.
unfoldable pub arp_lookup_mac : List Entry → ℕ → ℕ → Option ℕ
unfolding arp_lookup
arp_lookup_mac es ip vlan = Option.map Entry.mac (arp_lookup es ip vlan)

-- `arp_add_local`; the first argument is what `rte_eth_macaddr_get` returns.
unfoldable pub arp_add_local : ℕ → List Entry → ℕ → ℕ → List Entry × Bool
arp_add_local port_mac es ip vlan = arp_update_entry es ip port_mac true vlan

-- `arp_delete_local`: the flag of the entry of the address in the VLAN, then the first entry of the
-- address.
unfoldable pub arp_delete_local : List Entry → ℕ → ℕ → List Entry × Bool
arp_delete_local es ip vlan = elim (arp_lookup es ip vlan) [
  | some e ↦
      if e.is_local
      then arp_delete_entry
          (change_entry Entry.in_use (has_key ip vlan) (λ e. record e { is_local = false }) es) ip
      else (es, false)
  | none ↦ (es, false)
]
