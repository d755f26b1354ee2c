-- ===== src/Lookup/Demux.antt =====
-- What the TCP receiver does with a packet before the state machine: its checks, and the search for the
-- connection or the listener (tcp_receive_pkt in src/tpg_tcp.c).
use warp.Prelude.{
  ℕ, Bool, true, false, Option, none, some, List, [], ◌∷◌, ◌*◌, ◌/◌, ◌%◌, ◌<◌, ◌≡◌, refl, ap, ◌∙◌,
  ◌||◌, not, ltb, ◌==◌, if◌then◌else◌, arith,
}
use warp.Prelude.Outcome.{Outcome, ok, fault, error_abort, if_true}
use warp.Lookup.{
  Cb, Table, Key, TraceFilter, ts_listen, find_first, tlkp_find_v4_cb, found_in, tlkp_find_v4_tcb,
  mark_found, set_cb,
}
use warp.Lookup.Refine.{IsTable, has_key, find-listed, same}

-- What the receiver reads of a packet, in host order: the length of the first segment, the byte with
-- the offset of the data, the bits of the flags, and the hash and the verdict on the checksum that
-- come from the hardware.
pub record Packet : Type 0 where
  pub port : ℕ
  pub l4_len : ℕ
  pub data_len : ℕ
  pub data_off : ℕ
  pub tcp_flags : ℕ
  pub src_addr : ℕ
  pub dst_addr : ℕ
  pub src_port : ℕ
  pub dst_port : ℕ
  pub cksum_bad : Bool
  pub rss : Option ℕ

pub data Counter : Type 0 where
  ts_to_small_fragment ts_received_pkts ts_hdr_to_small ts_reserved_bit_set ts_invalid_checksum
        ts_tcb_not_found :
      Counter
  ts_received_bytes : ℕ → Counter

-- What becomes of a packet: it is given back, or the state machine has it with a block, or with a block
-- that stands for a closed connection.
pub data Verdict : Type 0 where
  dropped for_closed : Verdict
  for_tcb : ℕ → Verdict

unfoldable pub tcp_hdr_len : Packet → ℕ
tcp_hdr_len p = p.data_off / 16 * 4

-- RTE_TCP_SYN_FLAG
unfoldable pub is_syn : Packet → Bool
is_syn p = p.tcp_flags / 2 % 2 == 1

state_kept : (f : TraceFilter) (cb : Cb) → (mark_found f cb).tcb_state ≡ cb.tcb_state
unfolding mark_found
state_kept f cb = ground arith

module _ (pkt_hash : ℕ → ℕ → ℕ → ℕ → ℕ) where
  -- `pcb_hash`: the hash of the hardware, or that of `tlkp_calc_pkt_hash`.
  unfoldable pub pcb_hash : Packet → ℕ
  pcb_hash p = elim p.rss [
    | some h ↦ h
    | none ↦ pkt_hash p.src_addr p.dst_addr p.src_port p.dst_port
  ]

  unfoldable pub session_key : Packet → Key
  session_key p = record {
    phys_port = p.port;
    l4_hash = pcb_hash p;
    local_addr = p.dst_addr;
    remote_addr = p.src_addr;
    local_port = p.dst_port;
    remote_port = p.src_port;
  }

  -- `tcp_listen_hash`, with the address and the port of the peer 0.
  unfoldable pub listen_key : Packet → Key
  listen_key p = record {
    phys_port = p.port;
    l4_hash = pkt_hash 0 p.dst_addr 0 p.dst_port;
    local_addr = p.dst_addr;
    remote_addr = 0;
    local_port = p.dst_port;
    remote_port = 0;
  }

  -- A listener that is found has to be in the state of one.
  unfoldable pub check_listener : Table × Option ℕ → Outcome (Table × Option ℕ)
  check_listener (t, none) = ok (t, none)
  check_listener (t, some c) =
      if (t.cbs c).tcb_state == ts_listen then ok (t, some c) else fault error_abort

  unfoldable pub search_listener :
      TraceFilter → Packet → Table × Option ℕ → Outcome (Table × Option ℕ)
  search_listener f p (t, some c) = ok (t, some c)
  search_listener f p (t, none) =
      if is_syn p then check_listener (tlkp_find_v4_tcb f (listen_key p) t) else ok (t, none)

  unfoldable pub search : TraceFilter → Packet → Table → Outcome (Table × Option ℕ)
  search f p t = search_listener f p (tlkp_find_v4_tcb f (session_key p) t)

  unfoldable pub verdict : List Counter → Table × Option ℕ → Table × Verdict × List Counter
  verdict counted (t, some c) = (t, for_tcb c, counted)
  verdict counted (t, none) = (t, for_closed, ts_tcb_not_found ∷ counted)

  unfoldable pub deliver :
      List Counter → Outcome (Table × Option ℕ) → Outcome (Table × Verdict × List Counter)
  deliver counted (ok found) = ok (verdict counted found)
  deliver counted (fault e) = fault e

  -- The counters of a packet that is looked at, the latest first.
  abbrev pub counted_packet : Packet → List Counter
  counted_packet p = ts_received_bytes p.l4_len ∷ ts_received_pkts ∷ []

  abbrev pub counted_bits : Packet → List Counter
  counted_bits p =
      if not (p.tcp_flags / 64 == 0) || not (p.data_off % 16 == 0)
      then ts_reserved_bit_set ∷ counted_packet p
      else counted_packet p

  -- `tcp_receive_pkt` of the build that leaves the checksum to the hardware; the counters come last.
  unfoldable pub tcp_receive_pkt :
      TraceFilter → Packet → Table → Outcome (Table × Verdict × List Counter)
  tcp_receive_pkt f p t =
      let counted = counted_bits p in
      let found = search f p t in
      if ltb p.data_len 20
      then ok (t, dropped, ts_to_small_fragment ∷ [])
      else if ltb p.data_len (tcp_hdr_len p)
      then ok (t, dropped, ts_to_small_fragment ∷ counted_packet p)
      else if ltb (tcp_hdr_len p) 20
      then ok (t, dropped, ts_hdr_to_small ∷ counted_packet p)
      else if p.cksum_bad
      then ok (t, dropped, ts_invalid_checksum ∷ counted)
      else deliver counted found

  -- The first block of a list with the key.
  abbrev pub first : (ℕ → Cb) → Key → List ℕ → Option ℕ
  first cbs k l = find_first (λ c. has_key k (cbs c)) l

  -- The connection of a packet, or else the listener of a SYN.
  unfoldable pub wanted : Packet → (ℕ → Cb) → List ℕ → Option ℕ
  wanted p cbs l =
      let listener = first cbs (listen_key p) l in
      elim (first cbs (session_key p) l) [
        | some c ↦ some c
        | none ↦ if is_syn p then listener else none
      ]

  -- The search went well, and left the buckets.
  pub record Found (t : Table) (o : Option ℕ) (r : Outcome (Table × Option ℕ)) : Type 0 where
    pub after : Table
    pub ends : r ≡ ok (after, o)
    pub kept : after.buckets ≡ t.buckets

  found-state :
      (f : TraceFilter) (t : Table) (c : ℕ)
      → ((found_in f t (some c)).0.cbs c).tcb_state ≡ (t.cbs c).tcb_state
  unfolding found_in set_cb mark_found
  found-state f t c = rw (same c) (state_kept f (t.cbs c))

  either :
      (t : Table) (b : Bool) (o q : Option ℕ) (x y : Outcome (Table × Option ℕ))
      → Found t o x
      → Found t q y
      → Found t (if b then o else q) (if b then x else y)
  either t true o q x y h g = h
  either t false o q x y h g = g

  check-Found :
      (f : TraceFilter) (t : Table) (o : Option ℕ)
      → ((c : ℕ) → o ≡ some c → (t.cbs c).tcb_state ≡ ts_listen)
      → Found t o (check_listener (found_in f t o))
  unfolding check_listener found_in set_cb
  check-Found f t none h = record { after = t; ends = refl; kept = refl }
  check-Found f t (some c) h = record {
    after = set_cb c (mark_found f (t.cbs c)) t;
    ends = if_true _ _ _ (ap (λ (n : ℕ). n == ts_listen) (found-state f t c ∙ h c refl));
    kept = refl;
  }

  subst-Found :
      (f : TraceFilter) (t : Table) (q : Option ℕ) {o : Option ℕ}
      → o ≡ q
      → Found t q (check_listener (found_in f t q))
      → Found t q (check_listener (found_in f t o))
  subst-Found f t q e h = rw e h

  search-Found :
      (f : TraceFilter) (p : Packet) (t : Table) (o q : Option ℕ)
      → tlkp_find_v4_cb (listen_key p) t ≡ q
      → ((c : ℕ) → q ≡ some c → (t.cbs c).tcb_state ≡ ts_listen)
      → Found t
          (elim o [ some c ↦ some c | none ↦ if is_syn p then q else none ])
          (search_listener f p (found_in f t o))
  unfolding search_listener found_in set_cb tlkp_find_v4_tcb
  search-Found f p t (some c) q e h = record { after = _; ends = refl; kept = refl }
  search-Found f p t none q e h =
      let listener : Found t q (check_listener (tlkp_find_v4_tcb f (listen_key p) t)) =
        subst-Found f t q e (check-Found f t q h) in
      either t (is_syn p) q none _ _ listener (record { after = t; ends = refl; kept = refl })

  -- In a table that holds a list of blocks of ports below 4096, the search ends without an abort with
  -- the first block of the list that has the key of the packet, or for a SYN without one with the first
  -- that has the key of the listener, if that one listens; no bucket changes.
  pub search-wanted :
      (f : TraceFilter) (p : Packet) (t : Table) (l : List ℕ)
      → IsTable t l
      → p.port < 4096
      → ((c : ℕ) → (t.cbs c).l4cb_interface < 4096)
      → ((c : ℕ) → first t.cbs (listen_key p) l ≡ some c → (t.cbs c).tcb_state ≡ ts_listen)
      → Found t (wanted p t.cbs l) (search f p t)
  unfolding search wanted tlkp_find_v4_tcb listen_key session_key
  search-wanted f p t l i h g w =
      let e = find-listed t l (session_key p) i h g in
      let q = find-listed t l (listen_key p) i h g in
      rw e (search-Found f p t (first t.cbs (session_key p) l) (first t.cbs (listen_key p) l) q w)
