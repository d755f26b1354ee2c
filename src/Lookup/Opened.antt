-- ===== src/Lookup/Opened.antt =====
-- The packets of a connection that was opened or accepted, with tlkp_init_tcb and tlkp_add_tcb
-- (src/tpg_tcp_lookup.c), as tcp_receive_pkt (src/tpg_tcp.c) finds their block.
use warp.Prelude.{
  ℕ, Bool, true, false, Option, some, List, ◌∷◌, ◌≡◌, inl, inr, refl, sym, ap, ◌∙◌, ◌&&◌, ltb, ◌==◌,
  if◌then◌else◌, Option-cases,
}
use warp.Prelude.Outcome.{ok, if_true, if_false}
use warp.Lookup.{
  Cb, Table, Key, TraceFilter, Flags, tlkp_get_hash_bucket, is_match, find_first, tlkp_find_v4_cb,
  found_in, tlkp_find_v4_tcb, mark_found, mark_added, set_cb, put_at, bucket_of, tlkp_add_cb,
  tlkp_add_tcb, tlkp_init_cb, tlkp_init_tcb, tcb_trace_filter_match,
}
use warp.Lookup.Refine.{same}
use warp.Lookup.Demux.{
  Packet, for_tcb, tcp_hdr_len, pcb_hash, session_key, search_listener, search, verdict, deliver,
  counted_bits, tcp_receive_pkt,
}

either_match :
    (b : Bool) (k : Key) (cb : Cb)
    → is_match k (if b then record cb { tcb_trace = true } else cb) ≡ is_match k cb
unfolding is_match
either_match true k cb = refl
either_match false k cb = refl

match_kept : (f : TraceFilter) (k : Key) (cb : Cb) → is_match k (mark_added f cb) ≡ is_match k cb
unfolding mark_added
match_kept f k cb = either_match (f.tf_enabled && tcb_trace_filter_match f cb) k cb

first_here :
    (test : ℕ → Bool) (c : ℕ) (l : List ℕ) → test c ≡ true → find_first test (c ∷ l) ≡ some c
unfolding find_first
first_here test c l h = if_true _ _ _ h

-- A block that was just added is the one that is found by its key.
add-found :
    (f : TraceFilter) (k : Key) (c : ℕ) (t : Table)
    → is_match k (t.cbs c) ≡ true
    → bucket_of (t.cbs c) ≡ tlkp_get_hash_bucket k.phys_port k.l4_hash
    → tlkp_find_v4_cb k (tlkp_add_tcb f (some c) t).0 ≡ some c
unfolding tlkp_find_v4_cb tlkp_add_tcb tlkp_add_cb set_cb put_at
add-found f k c t h e =
    let cb = t.cbs c in
    let b = tlkp_get_hash_bucket k.phys_port k.l4_hash in
    let here : (bucket_of cb == b) ≡ true = ap (λ (n : ℕ). n == b) e ∙ same b in
    let test = λ (d : ℕ). is_match k (if c == d then mark_added f cb else t.cbs d) in
    let passes : test c ≡ true =
      ap (is_match k) (if_true (c == c) (mark_added f cb) cb (same c)) ∙ match_kept f k cb ∙ h in
    ap (find_first test) (if_true (bucket_of cb == b) (c ∷ t.buckets b) (t.buckets b) here)
    ∙ first_here test c (t.buckets b) passes

-- The packets that pass the checks of the receiver.
pub record IsSound (p : Packet) : Type 0 where
  pub header : (ltb (tcp_hdr_len p) 20) ≡ false
  pub in_segment : (ltb p.data_len (tcp_hdr_len p)) ≡ false
  pub first_part : (ltb p.data_len 20) ≡ false
  pub cksum_good : p.cksum_bad ≡ false

module _ (pkt_hash conn_hash : ℕ → ℕ → ℕ → ℕ → ℕ) where
  -- A block that is set up for the packets of a peer.
  abbrev pub set_up : Key → Flags → Table → ℕ → Table
  set_up k flags t c = set_cb c (tlkp_init_tcb conn_hash k 0 0 flags (t.cbs c)) t

  init_match :
      (p : Packet) (flags : Flags) (h : ℕ) (cb : Cb)
      → (if flags.use_l4_hash then h else conn_hash p.src_addr p.dst_addr p.src_port p.dst_port)
        ≡ pcb_hash pkt_hash p
      → is_match
          (session_key pkt_hash p)
          (tlkp_init_tcb conn_hash (record (session_key pkt_hash p) { l4_hash = h }) 0 0 flags cb)
        ≡ true
  unfolding is_match tlkp_init_tcb tlkp_init_cb session_key
  init_match p flags h cb e =
      rw
        (
          e,
          same (pcb_hash pkt_hash p),
          same p.dst_port,
          same p.src_port,
          same p.dst_addr,
          same p.src_addr,
        )
        refl

  receive-added :
      (f : TraceFilter) (p : Packet) (flags : Flags) (h c : ℕ) (t : Table)
      → IsSound p
      → (if flags.use_l4_hash then h else conn_hash p.src_addr p.dst_addr p.src_port p.dst_port)
        ≡ pcb_hash pkt_hash p
      → (after : Table) × (tcp_receive_pkt pkt_hash f p
            (tlkp_add_tcb f
              (some c)
              (set_up (record (session_key pkt_hash p) { l4_hash = h }) flags t c)).0
          ≡ ok (after, for_tcb c, counted_bits pkt_hash p))
  unfolding tcp_receive_pkt search search_listener deliver verdict tlkp_find_v4_tcb found_in
      bucket_of tlkp_init_tcb tlkp_init_cb session_key set_cb
  receive-added f p flags h c t i e =
      let k = record (session_key pkt_hash p) { l4_hash = h } in
      let u = set_up k flags t c in
      let cb = tlkp_init_tcb conn_hash k 0 0 flags (t.cbs c) in
      let is_set : u.cbs c ≡ cb = if_true (c == c) cb (t.cbs c) (same c) in
      let found : tlkp_find_v4_cb (session_key pkt_hash p) (tlkp_add_tcb f (some c) u).0 ≡ some c =
        add-found f (session_key pkt_hash p) c u
          (ap (is_match (session_key pkt_hash p)) is_set ∙ init_match p flags h (t.cbs c) e)
          (ap bucket_of is_set ∙ ap (tlkp_get_hash_bucket p.port) e) in
      let a = (tlkp_add_tcb f (some c) u).0 in
      (
        set_cb c (mark_found f (a.cbs c)) a,
        if_false _ _ _ i.first_part
            ∙ if_false _ _ _ i.in_segment
            ∙ if_false _ _ _ i.header
            ∙ if_false _ _ _ i.cksum_good
            ∙ ap
                (λ (o : Option ℕ).
                  deliver pkt_hash (counted_bits pkt_hash p)
                    (search_listener pkt_hash f p (found_in f a o)))
                found,
      )

  -- The packets of the peer of a block that was just set up for it and added, with a hash that is computed,
  -- are handed to it, when they pass the checks and the hashes of packets and connections agree.
  pub receive-opened :
      (f : TraceFilter) (p : Packet) (flags : Flags) (c : ℕ) (t : Table)
      → ((a b m n : ℕ) → pkt_hash a b m n ≡ conn_hash a b m n)
      → ((h : ℕ) → p.rss ≡ some h → h ≡ conn_hash p.src_addr p.dst_addr p.src_port p.dst_port)
      → flags.use_l4_hash ≡ false
      → IsSound p
      → (after : Table) × (tcp_receive_pkt pkt_hash f p
            (tlkp_add_tcb f
              (some c)
              (set_up (record (session_key pkt_hash p) { l4_hash = 0 }) flags t c)).0
          ≡ ok (after, for_tcb c, counted_bits pkt_hash p))
  unfolding pcb_hash
  receive-opened f p flags c t agree rss_agrees computed i =
      let own = conn_hash p.src_addr p.dst_addr p.src_port p.dst_port in
      let e : own ≡ pcb_hash pkt_hash p = elim (Option-cases p.rss) [
        | inl n ↦ rw n (sym (agree p.src_addr p.dst_addr p.src_port p.dst_port))
        | inr (h, n) ↦ rw n (sym (rss_agrees h n))
      ] in
      receive-added f p flags 0 c t i (if_false flags.use_l4_hash 0 own computed ∙ e)

  -- A connection that was accepted with the hash of its first packet has the packets of its peer.
  receive-accepted :
      (f : TraceFilter) (p : Packet) (flags : Flags) (c : ℕ) (t : Table)
      → flags.use_l4_hash ≡ true
      → IsSound p
      → (after : Table) × (tcp_receive_pkt pkt_hash f p
            (tlkp_add_tcb f (some c) (set_up (session_key pkt_hash p) flags t c)).0
          ≡ ok (after, for_tcb c, counted_bits pkt_hash p))
  unfolding session_key
  receive-accepted f p flags c t given i =
      let own = conn_hash p.src_addr p.dst_addr p.src_port p.dst_port in
      receive-added f p flags (pcb_hash pkt_hash p) c t i
        (if_true flags.use_l4_hash (pcb_hash pkt_hash p) own given)
