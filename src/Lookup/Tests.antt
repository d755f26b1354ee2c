-- ===== src/Lookup/Tests.antt =====
-- Runs of the lookup, and the witnesses of its theorems: a server of one port that listens, with a
-- connection to it; the sum of the numbers stands for the Toeplitz hash.
use warp.Prelude.{
  ℕ, Bool, Bool-cases, true, false, Option, none, some, List, [], ◌∷◌, ◌+◌, ◌≡◌, ◌∙◌, ◌≤◌, ◌<◌,
  refl, sym, ap, inl, inr, ◌==◌, if◌then◌else◌, remove, occ, arith,
}
use warp.Prelude.Outcome.{ok, if_true, if_false}
use warp.Lookup.{
  Cb, Table, TraceFilter, Flags, einval, ts_listen, tlkp_get_hash_bucket, is_match, find_first,
  tlkp_find_v4_cb, put_at, bucket_of, tlkp_add_cb, tlkp_delete_cb, tlkp_add_tcb, hash_mod,
  tlkp_tcp_lcore_init,
}
use warp.Lookup.Refine.{
  IsTable, has_key, Op, add, delete, run, listed, AreProper, run-IsTable, find-run, in_bucket,
}
use warp.Lookup.Walk.{tlkp_walk_v4, note, walk-seen}
use warp.Lookup.Demux.{
  Packet, dropped, for_tcb, ts_to_small_fragment, tcp_hdr_len, pcb_hash, session_key, listen_key,
  search, counted_bits, tcp_receive_pkt, wanted, Found, search-wanted,
}
use warp.Lookup.Opened.{IsSound, set_up, receive-opened}

abbrev hash : ℕ → ℕ → ℕ → ℕ → ℕ
hash a b m n = a + b + m + n

abbrev blank : Cb
blank = record {
  l4cb_rx_hash = 0;
  l4cb_interface = 0;
  l4cb_test_case_id = 0;
  ad_type = 0;
  l4cb_domain = 0;
  l4cb_src_port = 0;
  l4cb_dst_port = 0;
  l4cb_src_addr = 0;
  l4cb_dst_addr = 0;
  tcb_state = 0;
  tcb_trace = false;
  tcb_consume_all_data = false;
  tcb_malloced = false;
}

-- Block 1 listens on port 80 of address 7, block 2 has a connection of it to port 9000 of address 8.
abbrev cbs : ℕ → Cb
cbs c =
    if c == 1
    then record blank {
      l4cb_rx_hash = 87;
      l4cb_src_port = 80;
      l4cb_src_addr = 7;
      tcb_state = ts_listen;
    }
    else if c == 2
    then record blank {
      l4cb_rx_hash = 9095;
      l4cb_src_port = 80;
      l4cb_src_addr = 7;
      l4cb_dst_port = 9000;
      l4cb_dst_addr = 8;
      tcb_state = 4;
    }
    else blank

abbrev packet : Packet
packet = record {
  port = 0;
  l4_len = 30;
  data_len = 50;
  data_off = 80;
  tcp_flags = 16;
  src_addr = 8;
  dst_addr = 7;
  src_port = 9000;
  dst_port = 80;
  cksum_bad = false;
  rss = none;
}

-- A SYN of another port of the peer.
abbrev new : Packet
new = record packet { tcp_flags = 2; src_port = 9001 }

abbrev no_filter : TraceFilter
no_filter = record {
  tf_tcb_state = 11;
  tf_interface = 4294967295;
  tf_domain = 0;
  tf_src_port = 0;
  tf_dst_port = 0;
  tf_src_addr = 0;
  tf_dst_addr = 0;
  tf_enabled = false;
}

abbrev ops : List Op
ops = add 1 ∷ add 3 ∷ add 2 ∷ delete 3 ∷ []

abbrev table : Table
table = run ops (tlkp_tcp_lcore_init cbs)

small : (c : ℕ) → (cbs c).l4cb_interface < 4096
small c = ground arith

table-IsTable : IsTable table (2 ∷ 1 ∷ [])
unfolding listed remove tlkp_tcp_lcore_init in_bucket
table-IsTable = run-IsTable ops (tlkp_tcp_lcore_init cbs) [] (record { holds = λ b. refl })

-- The bits of a hash that the bucket takes.
mixed : hash_mod 3145733 ≡ 6
unfolding hash_mod
mixed = refl

-- A packet of the connection, the SYN of a new one, and a packet of no connection.
session_found : tlkp_find_v4_cb (session_key hash packet) table ≡ some 2
unfolding tlkp_find_v4_cb session_key pcb_hash is_match find_first run tlkp_add_cb tlkp_delete_cb
    put_at bucket_of tlkp_get_hash_bucket hash_mod tlkp_tcp_lcore_init remove
session_found = refl

null_refused : (tlkp_add_cb none table).1 ≡ einval
unfolding tlkp_add_cb
null_refused = refl

short_dropped :
    tcp_receive_pkt hash no_filter (record packet { data_len = 19 }) table
    ≡ ok (table, dropped, ts_to_small_fragment ∷ [])
unfolding tcp_receive_pkt
short_dropped = refl

find-run_example :
    (tlkp_find_v4_cb (session_key hash packet) (run ops (tlkp_tcp_lcore_init cbs))
      ≡ find_first (λ c. has_key (session_key hash packet) (cbs c)) (listed ops []))
    × ((b d : ℕ) → occ d ((run ops (tlkp_tcp_lcore_init cbs)).buckets b) ≤ 1)
unfolding session_key AreProper occ remove
find-run_example =
    find-run cbs ops (session_key hash packet) (refl, (refl, (refl, (refl, tt)))) (omega arith)
      small

-- What a search finds passes its test.
found_test : (test : ℕ → Bool) (l : List ℕ) (c : ℕ) → find_first test l ≡ some c → test c ≡ true
unfolding find_first
found_test test [] c h = cc
found_test test (d ∷ l) c h = elim (Bool-cases (test d)) [
  | inl e ↦
      let same_block : some d ≡ some c =
        sym (if_true (test d) (some d) (find_first test l) e) ∙ h in
      let found : d ≡ c = ap (λ (o : Option ℕ). elim o [ none ↦ d | some b ↦ b ]) same_block in
      ap test (sym found) ∙ e
  | inr e ↦ found_test test l c (sym (if_false (test d) (some d) (find_first test l) e) ∙ h)
]

is_listener : (c : ℕ) → has_key (listen_key hash new) (cbs c) ≡ true → (cbs c).tcb_state ≡ ts_listen
unfolding has_key listen_key is_match
is_listener c h = ground arith

search-wanted_example :
    Found hash table (wanted hash new table.cbs (2 ∷ 1 ∷ [])) (search hash no_filter new table)
unfolding run tlkp_tcp_lcore_init tlkp_add_cb tlkp_delete_cb
search-wanted_example =
    search-wanted hash no_filter new table (2 ∷ 1 ∷ []) table-IsTable (omega arith) small (λ c r.
      is_listener c (found_test (λ d. has_key (listen_key hash new) (cbs d)) (2 ∷ 1 ∷ []) c r))

walk-seen_example :
    occ 2 (tlkp_walk_v4 note 0 table [])
    ≡ (if (table.cbs 2).l4cb_interface == 0 then occ 2 (2 ∷ 1 ∷ []) else 0)
unfolding run tlkp_tcp_lcore_init tlkp_add_cb tlkp_delete_cb
walk-seen_example = walk-seen table (2 ∷ 1 ∷ []) 0 2 table-IsTable (omega arith) (omega arith)

abbrev flags : Flags
flags = record { use_l4_hash = false; consume_all_data = false; malloced = true }

packet-IsSound : IsSound packet
unfolding tcp_hdr_len
packet-IsSound = record { header = refl; in_segment = refl; first_part = refl; cksum_good = refl }

receive-opened_example :
    (after : Table) × (tcp_receive_pkt hash no_filter packet
        (tlkp_add_tcb no_filter
          (some 3)
          (set_up hash hash (record (session_key hash packet) { l4_hash = 0 }) flags table 3)).0
      ≡ ok (after, for_tcb 3, counted_bits hash packet))
receive-opened_example =
    receive-opened hash hash no_filter packet flags 3 table (λ a b m n. refl) (λ h e. cc) refl
      packet-IsSound
