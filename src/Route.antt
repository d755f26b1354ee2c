-- ===== src/Route.antt =====
-- The routing of a port, of src/tpg_route.c and inc/tpg_route.h: the table of its interfaces, the
-- default gateway, the gateways by VLAN, and the search of the next hop's link address. Addresses are
-- IPv4 numbers; the flags of an entry are fields of their own. The address that DPDK gives for the port is
-- a parameter. A callback is given a valid message of its kind.
pub mod Callbacks
pub mod NextHop
pub mod Networks
mod Tests
use Prim.Native.Nat.{bit_and}
use warp.Prelude.{
  ℕ, ◌+◌, Bool, true, false, ◌&&◌, ◌||◌, not, Option, none, some, List, [], ◌∷◌, replicate, ◌==◌,
  if◌then◌else◌,
}
use warp.Prelude.Outcome.{Outcome, ok, fault, assert_false}
use warp.Slots.{Slot, fresh, old, full, choose, find_entry, change_entry, write}
use warp.Arp
use warp.Arp.Packets.{Port, Sent, request, reply}

-- `route_entry_t`.
pub record Entry : Type 0 where
  pub in_use : Bool
  pub is_local : Bool
  pub re_net : ℕ
  pub re_mask : ℕ
  pub re_nh : ℕ

abbrev pub unused : Entry
unused = record { in_use = false; is_local = false; re_net = 0; re_mask = 0; re_nh = 0 }

-- TPG_ROUTE_PORT_TABLE_SIZE entries, zeroed by `route_init`.
abbrev pub empty_table : List Entry
empty_table = replicate 12 unused

-- `gw_per_vlan_t`.
pub record GwPerVlan : Type 0 where
  pub vlan_id : ℕ
  pub gw : ℕ

-- `tpg_route_statistics_t`.
pub record Stats : Type 0 where
  pub intf_add : ℕ
  pub intf_del : ℕ
  pub gw_add : ℕ
  pub gw_del : ℕ
  pub tbl_full : ℕ
  pub intf_nomem : ℕ
  pub intf_notfound : ℕ
  pub gw_nointf : ℕ
  pub nh_not_found : ℕ
  pub route_not_found : ℕ

-- What the module keeps for a port, with the ARP state of the port.
pub record Routing : Type 0 where
  pub arp : Port
  pub routes : List Entry
  pub default_gw : Entry
  pub gw_per_vlan : List GwPerVlan
  pub stats : Stats

-- The results of the callbacks: 0, -EINVAL, -ENOMEM, -ENOENT.
pub data Code : Type 0 where
  success einval enomem enoent : Code

-- `route_v4_find_gw_port_vlan`.
unfoldable pub route_v4_find_gw_port_vlan : List GwPerVlan → ℕ → Option ℕ
route_v4_find_gw_port_vlan [] vlan = none
route_v4_find_gw_port_vlan (g ∷ gs) vlan =
    if g.vlan_id == vlan then some g.gw else route_v4_find_gw_port_vlan gs vlan

abbrev pub has_net : ℕ → ℕ → Entry → Bool
has_net net mask e = (net == e.re_net) && (mask == e.re_mask)

-- `*update_entry = ROUTE_V4(...)`, with the flags that the entry has or is given.
abbrev pub fill : ℕ → ℕ → ℕ → Bool → Bool → Entry → Entry
fill net mask nh used local e = record {
  in_use = e.in_use || used;
  is_local = e.is_local || local;
  re_net = net;
  re_mask = mask;
  re_nh = nh;
}

abbrev has_room : Slot → Bool
has_room (fresh i) = true
has_room (old i) = true
has_room full = false

-- `route_update_entry`; the flags it is called with are ROUTE_FLAG_LOCAL or none.
unfoldable pub route_update_entry : Routing → ℕ → ℕ → ℕ → Bool → Routing × Bool
route_update_entry r net mask nh local =
    if has_room (choose Entry.in_use (has_net net mask) r.routes)
    then (
      record r {
        routes =
            write Entry.in_use (has_net net mask) (fill net mask nh true local)
              (fill net mask nh false local) r.routes;
      },
      true,
    )
    else (record r { stats = record r.stats { tbl_full = r.stats.tbl_full + 1 } }, false)

-- `route_rem_entry`.
unfoldable pub route_rem_entry : Routing → ℕ → ℕ → Routing × Bool
route_rem_entry r net mask = elim (find_entry Entry.in_use (has_net net mask) r.routes) [
  | some e ↦ (
    record r {
      routes =
          change_entry Entry.in_use (has_net net mask) (λ e. record e { in_use = false }) r.routes;
    },
    true,
  )
  | none ↦ (r, false)
]

abbrev pub covers : ℕ → Entry → Bool
covers dest e = e.is_local && (bit_and e.re_net e.re_mask == bit_and dest e.re_mask)

-- `route_v4_find_local`.
unfoldable pub route_v4_find_local : Routing → ℕ → Routing × Option Entry
route_v4_find_local r dest = elim (find_entry Entry.in_use (covers dest) r.routes) [
  | some e ↦ (r, some e)
  | none ↦
      (record r { stats = record r.stats { route_not_found = r.stats.route_not_found + 1 } }, none)
]

-- A call of `arp_send_arp_request` or `arp_send_arp_reply`, whose results are not looked at.
abbrev pub send : Sent → Routing → Routing
send s r = record r { arp = record r.arp { sent = s ∷ r.arp.sent } }
