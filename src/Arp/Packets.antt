-- ===== src/Arp/Packets.antt =====
-- The ARP packets that a port receives, of src/tpg_arp.c: the checks of `arp_receive_pkt`, and what a
-- request and a reply do to the table of the port. A packet that is sent is kept in a log, the last
-- one first; making the packet (`arp_send_arp_reply`) is DPDK's buffers and is left out.
pub mod Laws
use warp.Prelude.{
  ℕ, ◌+◌, ◌%◌, ◌^◌, Bool, true, false, not, Option, none, some, List, ◌∷◌, ltb, ◌==◌, if◌then◌else◌,
}
use warp.Prelude.Outcome.{Outcome, ok, fault, assert_false}
use warp.Arp.{Entry, arp_update_entry, arp_lookup}

-- `tpg_arp_statistics_t`, without the counters of the packets sent.
pub record Stats : Type 0 where
  pub received_req : ℕ
  pub received_rep : ℕ
  pub received_other : ℕ
  pub req_not_mine : ℕ
  pub to_small_fragment : ℕ
  pub invalid_hw_space : ℕ
  pub invalid_proto_space : ℕ
  pub invalid_hw_len : ℕ
  pub invalid_proto_len : ℕ

-- A call of `arp_send_arp_request` or of `arp_send_arp_reply`.
pub data Sent : Type 0 where
  request : (local_ip remote_ip vlan : ℕ) → Sent
  reply : (sip dip mac vlan : ℕ) → Sent

pub record Port : Type 0 where
  pub table : List Entry
  pub stats : Stats
  pub sent : List Sent

-- `struct rte_arp_hdr`, in the byte order of the host, with the length of the buffer.
pub record Packet : Type 0 where
  pub data_len : ℕ
  pub arp_hardware : ℕ
  pub arp_protocol : ℕ
  pub arp_hlen : ℕ
  pub arp_plen : ℕ
  pub arp_opcode : ℕ
  pub arp_sha : ℕ
  pub arp_sip : ℕ
  pub arp_tip : ℕ

-- `arp_process_request`.
unfoldable pub arp_process_request : Port → Packet → ℕ → Port
arp_process_request p k vlan =
    let not_mine = record p {
      stats = record p.stats { req_not_mine = p.stats.req_not_mine + 1 };
    } in
    elim (arp_lookup p.table k.arp_tip vlan) [
      | some e ↦
          if e.is_local
          then record p {
            table = (arp_update_entry p.table k.arp_sip k.arp_sha false vlan).0;
            sent = reply k.arp_tip k.arp_sip k.arp_sha vlan ∷ p.sent;
          }
          else not_mine
      | none ↦ not_mine
    ]

-- `arp_process_reply`.
unfoldable pub arp_process_reply : Port → Packet → ℕ → Port
arp_process_reply p k vlan = record p {
  table = (arp_update_entry p.table k.arp_sip k.arp_sha false vlan).0;
}

-- The operations that are handled: RTE_ARP_OP_REQUEST and RTE_ARP_OP_REPLY.
pub data Op : Type 0 where
  op_request op_reply : Op

abbrev pub op_of : ℕ → Option Op
op_of n = if n == 1 then some op_request else if n == 2 then some op_reply else none

-- The `switch` on the operation.
abbrev pub count_op : Option Op → Stats → Stats
count_op (some op_request) s = record s { received_req = s.received_req + 1 }
count_op (some op_reply) s = record s { received_rep = s.received_rep + 1 }
count_op none s = record s { received_other = s.received_other + 1 }

-- The checks of the header, in order: the counter of the first one that fails.
abbrev pub count_invalid : Packet → Stats → Option Stats
count_invalid k s =
    if not (k.arp_hardware == 1)
    then some record s { invalid_hw_space = s.invalid_hw_space + 1 }
    else if not (k.arp_protocol == 2048)
    then some record s { invalid_proto_space = s.invalid_proto_space + 1 }
    else if not (k.arp_hlen == 6)
    then some record s { invalid_hw_len = s.invalid_hw_len + 1 }
    else if not (k.arp_plen == 4)
    then some record s { invalid_proto_len = s.invalid_proto_len + 1 }
    else none

abbrev pub process : Op → Port → Packet → ℕ → Port
process op_request = arp_process_request
process op_reply = arp_process_reply

-- `arp_receive_pkt`, which hands every buffer back. The first argument tells whether it runs on the
-- default core of the port; a header has 28 bytes and the VLAN is in the low 12 bits.
unfoldable pub arp_receive_pkt : Bool → Port → Packet → ℕ → Outcome Port
arp_receive_pkt default_core p k tci =
    let counted = count_op (op_of k.arp_opcode) p.stats in
    if ltb k.data_len 28
    then ok
        record p { stats = record p.stats { to_small_fragment = p.stats.to_small_fragment + 1 } }
    else if not default_core
    then fault assert_false
    else elim (op_of k.arp_opcode) [
      | some op ↦ elim (count_invalid k counted) [
        | some s ↦ ok record p { stats = s }
        | none ↦ ok (process op (record p { stats = counted }) k (tci % 2 ^ 12))
      ]
      | none ↦ ok record p { stats = counted }
    ]
