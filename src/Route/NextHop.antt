-- ===== src/Route/NextHop.antt =====
-- The search of the next hop's link address: `route_v4_nh_lookup` of src/tpg_route.c.
use warp.Prelude.{
  ℕ, ◌+◌, ◌≡◌, Bool, true, Option, none, some, List, [], ◌∷◌, ◌++◌, ◌==◌, if◌then◌else◌, arith,
}
use warp.Prelude.Outcome.{ok}
use warp.Arp.{arp_lookup_mac}
use warp.Arp
use warp.Route.{Routing, success, route_v4_find_gw_port_vlan}
use warp.Route.Callbacks.{route_gw_del_cb}

-- The last search, at the default gateway.
abbrev from_default : Routing → ℕ → Routing × Option ℕ
from_default r vlan = elim (arp_lookup_mac r.arp.table r.default_gw.re_nh vlan) [
  | some m ↦ (r, some m)
  | none ↦ (record r { stats = record r.stats { nh_not_found = r.stats.nh_not_found + 1 } }, none)
]

-- The search at the gateway of the VLAN, unless the VLAN is 0.
abbrev from_vlan : Routing → ℕ → Option ℕ
from_vlan r vlan =
    if vlan == 0 then none else elim (route_v4_find_gw_port_vlan r.gw_per_vlan vlan) [
      | some g ↦ arp_lookup_mac r.arp.table g vlan
      | none ↦ none
    ]

-- `route_v4_nh_lookup`; no address is TPG_ARP_MAC_NOT_FOUND.
unfoldable pub route_v4_nh_lookup : Routing → ℕ → ℕ → Routing × Option ℕ
route_v4_nh_lookup r dest vlan = elim (arp_lookup_mac r.arp.table dest vlan) [
  | some m ↦ (r, some m)
  | none ↦ elim (from_vlan r vlan) [ some m ↦ (r, some m) | none ↦ from_default r vlan ]
]

-- The address of the first of some hosts that the ARP table knows in the VLAN.
unfoldable pub first_known : List warp.Arp.Entry → ℕ → List ℕ → Option ℕ
first_known es vlan [] = none
first_known es vlan (ip ∷ ips) = elim (arp_lookup_mac es ip vlan) [
  | some m ↦ some m
  | none ↦ first_known es vlan ips
]

-- The gateway of a VLAN other than 0, when there is one.
abbrev pub vlan_gateways : Routing → ℕ → List ℕ
vlan_gateways r vlan =
    if vlan == 0
    then []
    else elim (route_v4_find_gw_port_vlan r.gw_per_vlan vlan) [ some g ↦ g ∷ [] | none ↦ [] ]

-- The default gateway with the flag that its removal clears, or with it set.
abbrev pub with_gw_flag : Bool → Routing → Routing
with_gw_flag in_use r = record r { default_gw = record r.default_gw { in_use = in_use } }

-- The next hop is the first that ARP knows of the destination, the gateway of the VLAN (VLAN 0 has none)
-- and the address of the default gateway, whether this is in use or was removed.
pub nh_lookup-first_known :
    (r : Routing) (in_use : Bool) (dest vlan : ℕ)
    → (route_v4_nh_lookup (with_gw_flag in_use r) dest vlan).1
      ≡ first_known r.arp.table vlan (dest ∷ vlan_gateways r vlan ++ r.default_gw.re_nh ∷ [])
unfolding route_v4_nh_lookup first_known
nh_lookup-first_known r in_use dest vlan = ground arith

-- The removal of the default gateway leaves every next hop as it was.
nh_lookup-gw_del :
    (r : Routing) (gw_ip dest vlan : ℕ) {r' : Routing}
    → route_gw_del_cb true r gw_ip ≡ ok (r', success)
    → (route_v4_nh_lookup r' dest vlan).1 ≡ (route_v4_nh_lookup r dest vlan).1
unfolding route_v4_nh_lookup route_gw_del_cb
nh_lookup-gw_del r gw_ip dest vlan h = ground arith
