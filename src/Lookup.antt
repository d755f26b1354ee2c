-- ===== src/Lookup.antt =====
-- The tables of control blocks: src/tpg_lookup.c, inc/tpg_lookup.h, and the TCP side of them in
-- src/tpg_tcp_lookup.c with the trace filter of src/tpg_trace_filter.c. A block is its number, as a
-- pointer; its fields are in the store. The children hold the table as a list of blocks, the walk, and
-- the search of the receiver.
pub mod Refine
pub mod Walk
pub mod Demux
pub mod Opened
mod Tests
use Prim.Native.Nat.{bit_xor}
use warp.Prelude.{
  ℕ, zero, suc, Bool, true, false, Option, none, some, List, [], ◌∷◌, ◌+◌, ◌*◌, ◌/◌, ◌%◌, ◌&&◌, not,
  ◌==◌, if◌then◌else◌, remove,
}

-- TPG_HASH_BUCKET_SIZE, and the size of a number of 32 bits.
abbrev pub bucket_size : ℕ
bucket_size = 1048576

abbrev pub word_32 : ℕ
word_32 = 4294967296

-- `l4_control_block_t` and what the lookup reads and writes of `tcp_control_block_t`; a state is its
-- number in `tcpState_t`.
pub record Cb : Type 0 where
  pub l4cb_rx_hash : ℕ
  pub l4cb_interface : ℕ
  pub l4cb_test_case_id : ℕ
  pub ad_type : ℕ
  pub l4cb_domain : ℕ
  pub l4cb_src_port : ℕ
  pub l4cb_dst_port : ℕ
  pub l4cb_src_addr : ℕ
  pub l4cb_dst_addr : ℕ
  pub tcb_state : ℕ
  pub tcb_trace : Bool
  pub tcb_consume_all_data : Bool
  pub tcb_malloced : Bool

-- The table of a core, its buckets in a row, and the store of the blocks.
pub record Table : Type 0 where
  pub buckets : ℕ → List ℕ
  pub cbs : ℕ → Cb

-- What a block is searched by.
pub record Key : Type 0 where
  pub phys_port : ℕ
  pub l4_hash : ℕ
  pub local_addr : ℕ
  pub remote_addr : ℕ
  pub local_port : ℕ
  pub remote_port : ℕ

-- TPG_HASH_MOD
unfoldable pub hash_mod : ℕ → ℕ
hash_mod hash = bit_xor ((hash % word_32) / bucket_size) (hash % word_32) % bucket_size

-- The index of the bucket; the product has 32 bits.
unfoldable pub tlkp_get_hash_bucket : (phys_port hash : ℕ) → ℕ
tlkp_get_hash_bucket phys_port hash = (phys_port * bucket_size) % word_32 + hash_mod hash

-- The test of the loop.
unfoldable pub is_match : Key → Cb → Bool
is_match k cb =
    (k.l4_hash == cb.l4cb_rx_hash)
    && ((k.local_port == cb.l4cb_src_port)
        && ((k.remote_port == cb.l4cb_dst_port)
            && ((k.local_addr == cb.l4cb_src_addr) && (k.remote_addr == cb.l4cb_dst_addr))))

-- The loop over a bucket; the store tells whether a block matches.
unfoldable pub find_first : (ℕ → Bool) → List ℕ → Option ℕ
find_first test [] = none
find_first test (c ∷ cs) = if test c then some c else find_first test cs

unfoldable pub tlkp_find_v4_cb : Key → Table → Option ℕ
tlkp_find_v4_cb k t =
    find_first (λ c. is_match k (t.cbs c)) (t.buckets (tlkp_get_hash_bucket k.phys_port k.l4_hash))

-- 0 and -EINVAL.
pub data Code : Type 0 where
  success einval : Code

unfoldable pub put_at : ℕ → ℕ → (ℕ → List ℕ) → ℕ → List ℕ
put_at b c buckets i = if b == i then c ∷ buckets i else buckets i

-- The bucket of a block.
unfoldable pub bucket_of : Cb → ℕ
bucket_of cb = tlkp_get_hash_bucket cb.l4cb_interface cb.l4cb_rx_hash

-- `tlkp_add_cb`; `none` is NULL. There is no check that the block is in a list already: LIST_INSERT_HEAD
-- would then ruin the list, which is not modelled; the block is one that is in none.
unfoldable pub tlkp_add_cb : Option ℕ → Table → Table × Code
tlkp_add_cb none t = (t, einval)
tlkp_add_cb (some c) t = (record t { buckets = put_at (bucket_of (t.cbs c)) c t.buckets }, success)

-- `tlkp_delete_cb`: the block leaves the list that it is in. LIST_REMOVE of a block that is in none is
-- undefined, which is not modelled; the block is one that is in a list.
unfoldable pub tlkp_delete_cb : Option ℕ → Table → Table × Code
tlkp_delete_cb none t = (t, einval)
tlkp_delete_cb (some c) t = (record t { buckets = λ b. remove c (t.buckets b) }, success)

-- `tlkp_tcp_lcore_init`, with its memory there.
unfoldable pub tlkp_tcp_lcore_init : (ℕ → Cb) → Table
tlkp_tcp_lcore_init cbs = record { buckets = λ b. []; cbs = cbs }

unfoldable pub set_cb : ℕ → Cb → Table → Table
set_cb c cb t = record t { cbs = λ d. if c == d then cb else t.cbs d }

-- `trace_filter_t`; 0 stands for any, but for the interface, where it is FILTER_INTERFACE_ANY.
pub record TraceFilter : Type 0 where
  pub tf_tcb_state : ℕ
  pub tf_interface : ℕ
  pub tf_domain : ℕ
  pub tf_src_port : ℕ
  pub tf_dst_port : ℕ
  pub tf_src_addr : ℕ
  pub tf_dst_addr : ℕ
  pub tf_enabled : Bool

abbrev filter_interface_any : ℕ
filter_interface_any = 4294967295

-- TS_LISTEN and TS_CLOSED
abbrev pub ts_listen : ℕ
ts_listen = 1

abbrev ts_closed : ℕ
ts_closed = 11

-- A field of the filter that does not ask for another value.
abbrev lets : (any asked is : ℕ) → Bool
lets any asked is = if asked == any then true else asked == is

unfoldable pub trace_filter_match : TraceFilter → Cb → Bool
trace_filter_match f cb =
    lets filter_interface_any f.tf_interface cb.l4cb_interface
    && (lets 0 f.tf_domain cb.l4cb_domain
        && (lets 0 f.tf_src_port cb.l4cb_src_port
            && (lets 0 f.tf_dst_port cb.l4cb_dst_port
                && (lets 0 f.tf_src_addr cb.l4cb_src_addr
                    && lets 0 f.tf_dst_addr cb.l4cb_dst_addr))))

unfoldable pub tcb_trace_filter_match : TraceFilter → Cb → Bool
tcb_trace_filter_match f cb =
    if not (f.tf_tcb_state == ts_closed) && not (f.tf_tcb_state == cb.tcb_state)
    then false
    else trace_filter_match f cb

-- The flag of a block that was found.
unfoldable pub mark_found : TraceFilter → Cb → Cb
mark_found f cb =
    if f.tf_enabled
    then record cb { tcb_trace = tcb_trace_filter_match f cb }
    else record cb { tcb_trace = false }

-- `if (unlikely(l4_cb == NULL))`, and the flag of the block otherwise.
unfoldable pub found_in : TraceFilter → Table → Option ℕ → Table × Option ℕ
found_in f t none = (t, none)
found_in f t (some c) = (set_cb c (mark_found f (t.cbs c)) t, some c)

unfoldable pub tlkp_find_v4_tcb : TraceFilter → Key → Table → Table × Option ℕ
tlkp_find_v4_tcb f k t = found_in f t (tlkp_find_v4_cb k t)

unfoldable pub mark_added : TraceFilter → Cb → Cb
mark_added f cb =
    if f.tf_enabled && tcb_trace_filter_match f cb then record cb { tcb_trace = true } else cb

unfoldable pub tlkp_add_tcb : TraceFilter → Option ℕ → Table → Table × Code
tlkp_add_tcb f none t = (t, einval)
tlkp_add_tcb f (some c) t =
    let added = tlkp_add_cb (some c) t in (set_cb c (mark_added f (added.0.cbs c)) added.0, added.1)

-- The flags of `tlkp_init_cb` and `tlkp_init_tcb`.
pub record Flags : Type 0 where
  pub use_l4_hash : Bool
  pub consume_all_data : Bool
  pub malloced : Bool

-- `tlkp_init_cb`; the hash of a connection is the Toeplitz hash, taken as `conn_hash` with the
-- arguments of `tlkp_calc_connection_hash`. The socket options are left out.
unfoldable pub tlkp_init_cb :
    (conn_hash : ℕ → ℕ → ℕ → ℕ → ℕ) → Key → (test_case_id app_id : ℕ) → Flags → Cb → Cb
tlkp_init_cb conn_hash k test_case_id app_id flags cb = record cb {
  l4cb_src_addr = k.local_addr;
  l4cb_dst_addr = k.remote_addr;
  l4cb_src_port = k.local_port;
  l4cb_dst_port = k.remote_port;
  l4cb_domain = 2;
  l4cb_interface = k.phys_port;
  l4cb_test_case_id = test_case_id;
  ad_type = app_id;
  l4cb_rx_hash =
      if flags.use_l4_hash
      then k.l4_hash
      else conn_hash k.remote_addr k.local_addr k.remote_port k.local_port;
}

unfoldable pub tlkp_init_tcb :
    (conn_hash : ℕ → ℕ → ℕ → ℕ → ℕ) → Key → (test_case_id app_id : ℕ) → Flags → Cb → Cb
tlkp_init_tcb conn_hash k test_case_id app_id flags cb =
    record (tlkp_init_cb conn_hash k test_case_id app_id flags cb) {
      tcb_consume_all_data = flags.consume_all_data;
      tcb_malloced = flags.malloced;
    }
