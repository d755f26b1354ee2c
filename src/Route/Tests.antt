-- ===== src/Route/Tests.antt =====
-- Runs of the routing and the witnesses of its theorems: a port with an interface at 18, in the network
-- 16 to 31 of VLAN 7, whose gateway is 17.
use warp.Prelude.{◌≡◌, refl, true, false, [], ◌∷◌, ◌++◌, replicate}
use warp.Prelude.Outcome.{ok}
use warp.Slots.{choose, find_entry, write, change_at, change_entry}
use warp.Arp
use warp.Arp.{
  arp_add_local, arp_delete_local, arp_delete_entry, arp_lookup, arp_lookup_mac, arp_update_entry,
}
use warp.Arp.Packets.{Port, request, reply}
use warp.Route.{
  Entry, unused, Stats, Routing, success, empty_table, route_update_entry, route_rem_entry,
}
use warp.Route.Callbacks.{Intf, route_intf_add_cb, route_intf_del_cb, route_gw_del_cb}
use warp.Route.NextHop.{
  route_v4_nh_lookup, first_known, vlan_gateways, with_gw_flag, nh_lookup-first_known,
}

abbrev intf : Intf
intf = record { rim_ip = 18; rim_mask = 4294967280; rim_vlan_id = 7; rim_gw = 17 }

abbrev no_port : Port
no_port = record {
  table = warp.Arp.empty_table;
  stats = record {
    received_req = 0;
    received_rep = 0;
    received_other = 0;
    req_not_mine = 0;
    to_small_fragment = 0;
    invalid_hw_space = 0;
    invalid_proto_space = 0;
    invalid_hw_len = 0;
    invalid_proto_len = 0;
  };
  sent = [];
}

abbrev quiet : Stats
quiet = record {
  intf_add = 0;
  intf_del = 0;
  gw_add = 0;
  gw_del = 0;
  tbl_full = 0;
  intf_nomem = 0;
  intf_notfound = 0;
  gw_nointf = 0;
  nh_not_found = 0;
  route_not_found = 0;
}

abbrev bare : Routing
bare = record {
  arp = no_port;
  routes = empty_table;
  default_gw = unused;
  gw_per_vlan = [];
  stats = quiet;
}

abbrev own : warp.Arp.Entry
own = record { in_use = true; is_local = true; mac = 77; ae_ip_address = 18; ae_vlan_id = 7 }

abbrev network : Entry
network = record { in_use = true; is_local = true; re_net = 18; re_mask = 4294967280; re_nh = 0 }

-- After the interface was added.
abbrev ready : Routing
ready = record bare {
  arp = record no_port {
    table = own ∷ replicate 23 warp.Arp.unused;
    sent = request 18 17 7 ∷ reply 18 18 281474976710655 7 ∷ request 18 18 7 ∷ [];
  };
  routes = network ∷ replicate 11 unused;
  stats = record quiet { intf_add = 1 };
}

-- After it was removed again.
abbrev removed : Routing
removed = record ready {
  arp = record ready.arp {
    table = record own { in_use = false; is_local = false } ∷ replicate 23 warp.Arp.unused;
  };
  routes = record network { in_use = false } ∷ replicate 11 unused;
  stats = record quiet { intf_add = 1; intf_del = 1 };
}

-- A port that knows its default gateway 33 and the gateway 17 of VLAN 7.
abbrev routed : Routing
routed = record ready {
  arp = record ready.arp {
    table =
        own
        ∷ record { in_use = true; is_local = false; mac = 88; ae_ip_address = 33; ae_vlan_id = 7 }
        ∷ record { in_use = true; is_local = false; mac = 99; ae_ip_address = 17; ae_vlan_id = 7 }
        ∷ replicate 21 warp.Arp.unused;
  };
  default_gw = record { in_use = true; is_local = false; re_net = 0; re_mask = 0; re_nh = 33 };
  gw_per_vlan = record { vlan_id = 7; gw = 17 } ∷ [];
}

abbrev no_gw : Routing
no_gw = record routed {
  default_gw = record { in_use = false; is_local = false; re_net = 0; re_mask = 0; re_nh = 33 };
  stats = record ready.stats { gw_del = 1 };
}

add_intf : route_intf_add_cb true 77 bare intf ≡ ok (ready, success)
unfolding route_intf_add_cb route_update_entry arp_add_local arp_update_entry write choose change_at
add_intf = refl

del_intf : route_intf_del_cb true ready intf ≡ ok (removed, success)
unfolding route_intf_del_cb route_rem_entry arp_delete_local arp_delete_entry arp_lookup find_entry
    change_entry
del_intf = refl

del_gw : route_gw_del_cb true routed 33 ≡ ok (no_gw, success)
unfolding route_gw_del_cb
del_gw = refl

nh_lookup-first_known_example :
    (route_v4_nh_lookup (with_gw_flag false routed) 40 7).1
    ≡ first_known routed.arp.table 7 (40 ∷ vlan_gateways routed 7 ++ 33 ∷ [])
nh_lookup-first_known_example = nh_lookup-first_known routed false 40 7
