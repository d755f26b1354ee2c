-- ===== src/Route/Networks.antt =====
-- The networks of a port: what adding and removing an interface does to the searches.
use Prim.Native.Nat.{bit_and}
use warp.Prelude.{ℕ, ◌+◌, ◌%◌, ◌^◌, ◌≡◌, refl, true, false, ◌&&◌, some, List, arith}
use warp.Prelude.Outcome.{ok}
use warp.Slots.Laws.{found, found-write, tally, tally-change}
use warp.Arp.{arp_add_local}
use warp.Arp.Laws.{lookup-update, entries, entries-delete_local}
use warp.Route.{
  Entry, Routing, success, has_net, covers, fill, route_update_entry, route_rem_entry,
  route_v4_find_local,
}
use warp.Route.Callbacks.{Intf, route_intf_add_cb, route_intf_del_cb}
use warp.Route.NextHop.{route_v4_nh_lookup}

-- An interface that was added makes its network local.
find_local-intf_add :
    (port_mac : ℕ) (r : Routing) (m : Intf) (dest : ℕ) {r' : Routing}
    → route_intf_add_cb true port_mac r m ≡ ok (r', success)
    → bit_and m.rim_ip m.rim_mask ≡ bit_and dest m.rim_mask
    → found (route_v4_find_local r' dest).1 ≡ true
unfolding route_intf_add_cb route_update_entry route_v4_find_local
find_local-intf_add port_mac r m dest h e = ground (
  arith,
  found-write Entry.in_use (has_net m.rim_ip m.rim_mask) (covers dest)
      (fill m.rim_ip m.rim_mask 0 true true) (fill m.rim_ip m.rim_mask 0 false true) r.routes
      (λ x. ground arith) (λ x u k. ground arith),
)

-- The next hop to an address of the port, in its VLAN, is the port.
nh_lookup-intf_add :
    (port_mac : ℕ) (r : Routing) (m : Intf) {r' : Routing}
    → route_intf_add_cb true port_mac r m ≡ ok (r', success)
    → (route_v4_nh_lookup r' m.rim_ip m.rim_vlan_id).1 ≡ some (port_mac % 2 ^ 48)
unfolding route_intf_add_cb route_update_entry route_v4_nh_lookup arp_add_local
nh_lookup-intf_add port_mac r m h =
    ground (arith, lookup-update r.arp.table m.rim_ip port_mac true m.rim_vlan_id)

-- The entries in use for a network.
unfoldable pub networks : ℕ → ℕ → List Entry → ℕ
networks net mask es = tally (λ e. e.in_use && has_net net mask e) es

-- The removal of an interface takes away one entry of its address and one of its network.
networks-intf_del :
    (r : Routing) (m : Intf) {r' : Routing}
    → route_intf_del_cb true r m ≡ ok (r', success)
    → (entries m.rim_ip r'.arp.table + 1 ≡ entries m.rim_ip r.arp.table)
      × (networks m.rim_ip m.rim_mask r'.routes + 1 ≡ networks m.rim_ip m.rim_mask r.routes)
unfolding route_intf_del_cb route_rem_entry networks
networks-intf_del r m h = ground (
  arith,
  entries-delete_local r.arp.table m.rim_ip m.rim_vlan_id,
  tally-change Entry.in_use (has_net m.rim_ip m.rim_mask) (λ e. record e { in_use = false })
      r.routes (λ e. refl),
)
