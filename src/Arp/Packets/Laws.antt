-- ===== src/Arp/Packets/Laws.antt =====
-- What a received ARP packet can change.
use warp.Prelude.{ℕ, ◌%◌, ◌^◌, ◌≡◌, ◌≢◌, true, false, none, some, ◌∷◌, if◌then◌else◌, arith}
use warp.Prelude.Outcome.{ok}
use warp.Arp.{arp_lookup}
use warp.Arp.Laws.{lookup-update_ne}
use warp.Arp.Packets.{Port, Packet, arp_receive_pkt, arp_process_request, arp_process_reply, reply}

-- A request for an address of the port itself, in its VLAN, is answered, and nothing else is sent.
pub receive-request :
    (p : Port) (k : Packet) (vlan : ℕ)
    → (arp_process_request p k vlan).sent ≡ elim (arp_lookup p.table k.arp_tip vlan) [
      | some e ↦ if e.is_local then reply k.arp_tip k.arp_sip k.arp_sha vlan ∷ p.sent else p.sent
      | none ↦ p.sent
    ]
unfolding arp_process_request
receive-request p k vlan = ground arith

-- A packet changes the table for the sender only: the lookup of any other address gives the same.
pub receive-lookup :
    (p : Port) (k : Packet) (tci : ℕ) {p' : Port} {ip : ℕ} (vlan : ℕ)
    → ip ≢ k.arp_sip
    → arp_receive_pkt true p k tci ≡ ok p'
    → arp_lookup p'.table ip vlan ≡ arp_lookup p.table ip vlan
unfolding arp_receive_pkt arp_process_request arp_process_reply
receive-lookup p k tci {p'} {ip} vlan ne h =
    ground (arith, lookup-update_ne p.table k.arp_sip k.arp_sha false (tci % 2 ^ 12) vlan ne)
