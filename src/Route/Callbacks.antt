-- ===== src/Route/Callbacks.antt =====
-- The messages to a port's core that add and remove its interfaces and its default gateway: the
-- callbacks of src/tpg_route.c. The first argument tells whether the core is the default one of the port.
use warp.Prelude.{
  ℕ, ◌+◌, Bool, true, false, not, Option, none, some, List, set, ◌==◌, if◌then◌else◌,
}
use warp.Prelude.Outcome.{Outcome, ok, fault, assert_false}
use warp.Arp.{arp_add_local, arp_delete_local}
use warp.Arp.Packets.{request, reply}
use warp.Route.{
  Entry, GwPerVlan, Routing, Code, success, einval, enomem, enoent, route_update_entry,
  route_rem_entry, route_v4_find_local, send,
}

-- `route_intf_msg_t`, without the port.
pub record Intf : Type 0 where
  pub rim_ip : ℕ
  pub rim_mask : ℕ
  pub rim_vlan_id : ℕ
  pub rim_gw : ℕ

abbrev on_table : Routing → List warp.Arp.Entry → Routing
on_table r es = record r { arp = record r.arp { table = es } }

abbrev no_memory : Routing → Routing
no_memory r = record r { stats = record r.stats { intf_nomem = r.stats.intf_nomem + 1 } }

abbrev not_found : Routing → Routing
not_found r = record r { stats = record r.stats { intf_notfound = r.stats.intf_notfound + 1 } }

-- The gratuitous packets of a new interface, and the request for its gateway.
abbrev announce : Intf → Routing → Routing
announce m r =
    let s = send (reply m.rim_ip m.rim_ip 281474976710655 m.rim_vlan_id) (
      send (request m.rim_ip m.rim_ip m.rim_vlan_id)
        (record r { stats = record r.stats { intf_add = r.stats.intf_add + 1 } })) in
    if m.rim_gw == 0 then s else send (request m.rim_ip m.rim_gw m.rim_vlan_id) s

abbrev intf_add : ℕ → Routing → Intf → Routing × Code
intf_add port_mac r m =
    let added = arp_add_local port_mac r.arp.table m.rim_ip m.rim_vlan_id in
    let routed = route_update_entry (on_table r added.0) m.rim_ip m.rim_mask 0 true in
    if not added.1
    then (no_memory (on_table r added.0), enomem)
    else if not routed.1
    then (no_memory routed.0, enomem)
    else (announce m routed.0, success)

-- `route_intf_add_cb`.
unfoldable pub route_intf_add_cb : Bool → ℕ → Routing → Intf → Outcome (Routing × Code)
route_intf_add_cb default_core port_mac r m =
    if default_core then ok (intf_add port_mac r m) else fault assert_false

abbrev intf_del : Routing → Intf → Routing × Code
intf_del r m =
    let deleted = arp_delete_local r.arp.table m.rim_ip m.rim_vlan_id in
    let removed = route_rem_entry (on_table r deleted.0) m.rim_ip m.rim_mask in
    let s = removed.0 in
    if not deleted.1
    then (not_found (on_table r deleted.0), enoent)
    else if not removed.1
    then (not_found s, enoent)
    else (record s { stats = record s.stats { intf_del = s.stats.intf_del + 1 } }, success)

-- `route_intf_del_cb`.
unfoldable pub route_intf_del_cb : Bool → Routing → Intf → Outcome (Routing × Code)
route_intf_del_cb default_core r m = if default_core then ok (intf_del r m) else fault assert_false

abbrev ask_gw : ℕ → Routing × Option Entry → Routing × Code
ask_gw gw_ip (r, some e) = (send (request e.re_net gw_ip 0) r, success)
ask_gw gw_ip (r, none) =
    (record r { stats = record r.stats { gw_nointf = r.stats.gw_nointf + 1 } }, einval)

-- `route_gw_add_cb`.
unfoldable pub route_gw_add_cb : Bool → Routing → ℕ → Outcome (Routing × Code)
route_gw_add_cb default_core r gw_ip =
    let s = record r {
      default_gw = record {
        in_use = true;
        is_local = false;
        re_net = 0;
        re_mask = 0;
        re_nh = gw_ip;
      };
      stats = record r.stats { gw_add = r.stats.gw_add + 1 };
    } in
    if default_core then ok (ask_gw gw_ip (route_v4_find_local s gw_ip)) else fault assert_false

-- `route_gw_del_cb`.
unfoldable pub route_gw_del_cb : Bool → Routing → ℕ → Outcome (Routing × Code)
route_gw_del_cb default_core r gw_ip =
    if default_core
    then ok (
      record r {
        default_gw = record r.default_gw { in_use = false };
        stats = record r.stats { gw_del = r.stats.gw_del + 1 };
      },
      success,
    )
    else fault assert_false

-- `route_v4_intf_add`: the gateway of the VLAN, and then the message. What the callback answers does
-- not come back to the caller.
unfoldable pub route_v4_intf_add : Bool → ℕ → Routing → Intf → ℕ → Outcome Routing
unfolding route_intf_add_cb
route_v4_intf_add default_core port_mac r m index =
    let g : GwPerVlan = record { vlan_id = m.rim_vlan_id; gw = m.rim_gw } in
    let s = record r { gw_per_vlan = set r.gw_per_vlan index g } in
    elim (route_intf_add_cb default_core port_mac s m) [ ok a ↦ ok a.0 | fault e ↦ fault e ]
