-- ===== src/Tcp/Data.antt =====
-- The bytes that a connection has to send: what is stored until it is acknowledged, how it is cut into
-- segments, sent again and let go (src/tpg_tcp_data.c, and the calls of it in src/tpg_tcp_sm.c). A copy
-- of a part of a chain (`data_clone_seg`) is the bytes of that part.
use warp.Prelude.{
  ℕ, zero, suc, ◌+◌, ◌-◌, ◌*◌, Bool, true, false, ◌&&◌, ◌||◌, not, List, [], ◌∷◌, ◌++◌, length,
  take, drop, join, ltb, leb, ◌==◌, if◌then◌else◌,
}
use warp.Prelude.Outcome.{Outcome, ok, fault, null_pointer, ◌>>=◌}
use warp.Tcp.{
  Flags, DataArg, Tcb, Env, inc, dec, data_sent, Code, success, enomem, sess_win_avail,
  sess_win_unavail, ts_failed_data_clone, tsms_snd_win_full, tsms_retrans_bytes,
}
use warp.Tcp.Seq.{seg_add, seg_diff}
use warp.Tcp.Send.{
  log, count, notify, no_flags, flags_ack, tcp_send_data_pkt, tcp_timer_rto_set,
  tcp_timer_rto_cancel,
}

-- GCFG_TCP_SEGS_PER_SEND.
abbrev pub segs_per_send : ℕ
segs_per_send = 1

abbrev pub min : ℕ → ℕ → ℕ
min a b = if ltb a b then a else b

-- `pkt_len` of a chain.
abbrev pub pkt_len : List (List ℕ) → ℕ
pkt_len ms = length (join ms)

-- `tcp_snd_win_full`.
unfoldable pub tcp_snd_win_full : Tcb → Bool
tcp_snd_win_full c = c.tcb_snd.wnd == seg_diff c.tcb_snd.nxt c.tcb_snd.una

-- TCB_AVAIL_SEND.
unfoldable pub avail_send : Env → Tcb → ℕ
avail_send env c = min (seg_diff env.opts.tcpo_win_size c.tr_total_size) (segs_per_send * env.mtu)

-- `tcp_data_store_send`: the bytes that were stored.
unfoldable pub tcp_data_store_send : Env → List (List ℕ) → Tcb → Tcb × ℕ
unfolding avail_send
tcp_data_store_send env ms c = if ltb (avail_send env c) (pkt_len ms) then (c, 0) else (
  record c {
    tr_data_mbufs = c.tr_data_mbufs ++ ms;
    tr_total_size = seg_add c.tr_total_size (pkt_len ms);
  },
  pkt_len ms,
)

-- `tcp_data_get_unsent_size`.
unfoldable pub tcp_data_get_unsent_size : Tcb → ℕ
tcp_data_get_unsent_size c =
    if c.tr_total_size == 0
    then 0
    else seg_diff c.tr_total_size (seg_diff c.tcb_snd.nxt c.tcb_snd.una)

-- The walk of `tcp_data_get_unsent`: the buffers from the one that holds the offset, and the offset in it.
unfoldable pub skip_sent : List (List ℕ) → ℕ → Outcome (List (List ℕ) × ℕ)
skip_sent [] offset = fault null_pointer
skip_sent (m ∷ ms) offset =
    let rest = skip_sent ms (offset - length m) in
    if leb (length m) offset then rest else ok (m ∷ ms, offset)

-- The buffers after `seg_data_len` bytes from an offset, the offset in the first of them, and what is left
-- of the length in that buffer.
unfoldable pub advance : List (List ℕ) → ℕ → ℕ → Outcome (List (List ℕ) × ℕ × ℕ)
advance [] offset len = fault null_pointer
advance (m ∷ ms) offset len =
    let rest = advance ms 0 (len - (length m - offset)) in
    if ltb (length m) (offset + len) then rest else ok (m ∷ ms, offset + len, len)

-- `tcp_data_send_segment`.
unfoldable pub tcp_data_send_segment : Env → List ℕ → ℕ → Flags → Tcb → Tcb × Bool
tcp_data_send_segment env bytes sseq flags c =
    if env.clones bytes
    then tcp_send_data_pkt env sseq flags bytes c
    else (count ts_failed_data_clone c, false)

-- The loop of `tcp_data_send_segments`, for some more segments: the bytes that it counts as sent.
unfoldable pub send_segments :
    ℕ → Env → List (List ℕ) → ℕ → ℕ → ℕ → Flags → ℕ → Tcb → Outcome (Tcb × ℕ)
send_segments zero env segs data_len offset sseq flags sent c = ok (c, sent)
send_segments (suc n) env segs data_len offset sseq flags sent c =
    let len = min data_len env.mtu in
    let r = tcp_data_send_segment env (take len (drop offset (join segs))) sseq flags c in
    let moved = record r.0 { tcb_snd = record r.0.tcb_snd { nxt = seg_add r.0.tcb_snd.nxt len } } in
    let c' = if sseq == r.0.tcb_snd.nxt then moved else r.0 in
    let rest = advance segs offset len >>= λ p.
    send_segments n env p.0 (data_len - len) p.1 (seg_add sseq len) flags (sent + p.2) c' in
    if data_len == 0 then ok (c, sent) else if r.1 then rest else ok (r.0, sent)

-- `tcp_data_send_segments`: the test is `sent_segs <= TCB_SEGS_PER_SEND`.
unfoldable pub tcp_data_send_segments :
    Env → List (List ℕ) → ℕ → ℕ → ℕ → Flags → Tcb → Outcome (Tcb × ℕ)
tcp_data_send_segments env segs data_len offset sseq flags c =
    send_segments (suc segs_per_send) env segs data_len offset sseq flags 0 c

-- What `tcp_data_send` may send of the bytes stored, by the window.
unfoldable pub sendable : Tcb → ℕ
unfolding tcp_data_get_unsent_size
sendable c =
    min (tcp_data_get_unsent_size c) (seg_diff c.tcb_snd.wnd (seg_diff c.tcb_snd.nxt c.tcb_snd.una))

abbrev pub report : ℕ → Tcb → Tcb × Code
report n c = (log (data_sent n) c, success)

-- What `tcp_data_send` does when some bytes are stored, with their number. The argument tda_data_len is
-- the length of the chain, as `tcp_send_v4` sets it.
unfoldable pub send_stored : Env → DataArg → Tcb × ℕ → Outcome (Tcb × Code)
unfolding sendable tcp_data_get_unsent_size
send_stored env d stored =
    let s = stored.0 in
    let flags = record no_flags { ack = true; psh = d.tda_push; urg = d.tda_urg } in
    let unsent = tcp_data_get_unsent_size s in
    let sent : Outcome (Tcb × Code) = do
      p ← skip_sent s.tr_data_mbufs (seg_diff s.tr_total_size unsent)
      q ← tcp_data_send_segments env p.0 (sendable s) p.1 s.tcb_snd.nxt flags s
      ok (report stored.1 q.0)
    in if stored.1 == 0
      then ok (log (data_sent 0) s, enomem)
      else if not d.tda_push && ltb unsent env.mtu
      then ok (report stored.1 s)
      else sent

-- `tcp_data_send`.
unfoldable pub tcp_data_send : Env → DataArg → Tcb → Outcome (Tcb × Code)
unfolding tcp_data_store_send send_stored
tcp_data_send env d c = send_stored env d (tcp_data_store_send env d.tda_mbuf c)

-- `tcp_data_retrans`.
unfoldable pub tcp_data_retrans : Env → Tcb → Outcome (Tcb × ℕ)
tcp_data_retrans env c = elim c.tr_data_mbufs [
  | [] ↦ ok (c, 0)
  | m ∷ ms ↦
      tcp_data_send_segments env (m ∷ ms) (min c.tr_total_size c.tcb_snd.wnd) 0 c.tcb_snd.una
        flags_ack c
]

-- `tsm_schedule_retransmission`.
unfoldable pub tsm_schedule_retransmission : Env → Tcb → Tcb
tsm_schedule_retransmission env c =
    if (c.tcb_snd.una == c.tcb_snd.nxt) && (c.tr_total_size == 0)
    then record c { tcb_retrans_cnt = 0 }
    else if c.on_rto_list
    then c
    else tcp_timer_rto_set env env.opts.tcpo_rto c

-- The notification of a window that has become full.
abbrev pub notify_full : Bool → Tcb → Tcb
notify_full was_full c =
    if not was_full && tcp_snd_win_full c
    then count tsms_snd_win_full (notify sess_win_unavail c)
    else c

-- `tsm_send_data`.
unfoldable pub tsm_send_data : Env → DataArg → Tcb → Outcome (Tcb × Code)
tsm_send_data env d c = do
  r ← tcp_data_send env d c
  ok (notify_full (tcp_snd_win_full c) (tsm_schedule_retransmission env r.0), r.1)

-- `tsm_retrans_data`.
unfoldable pub tsm_retrans_data : Env → Tcb → Outcome Tcb
tsm_retrans_data env c = do
  r ← tcp_data_retrans env c
  ok (notify_full (tcp_snd_win_full c) (log (inc tsms_retrans_bytes r.1) r.0))

-- The loop of `tsm_cleanup_retrans_queu` with what follows it: the chain without some of its first bytes.
unfoldable pub let_go : ℕ → List (List ℕ) → Outcome (List (List ℕ))
let_go acked_bytes [] = if acked_bytes == 0 then ok [] else fault null_pointer
let_go acked_bytes (m ∷ ms) =
    let rest = let_go (acked_bytes - length m) ms in
    if not (acked_bytes == 0) && leb (length m) acked_bytes
    then rest
    else if length m == 0
    then ok ms
    else ok (drop acked_bytes m ∷ ms)

abbrev notify_available : Bool → Tcb → Tcb
notify_available was_full c =
    if was_full && not (tcp_snd_win_full c)
    then log (dec tsms_snd_win_full) (notify sess_win_avail c)
    else c

-- The block with what is left of the data; when nothing is left, its timer is cancelled.
unfoldable pub keep_data : ℕ → Tcb → List (List ℕ) → Tcb
keep_data acked c [] =
    tcp_timer_rto_cancel (record c { tr_data_mbufs = []; tr_total_size = c.tr_total_size - acked })
keep_data acked c (m ∷ ms) = record c {
  tr_data_mbufs = m ∷ ms;
  tr_total_size = c.tr_total_size - acked;
}

-- The end of `tsm_cleanup_retrans_queu`, after a window that was full or not.
unfoldable pub settle : Bool → ℕ → Tcb → Tcb
settle was_full seg_ack t =
    notify_available was_full
      (record t { tcb_snd = record t.tcb_snd { una = seg_ack }; tcb_retrans_cnt = 0 })

-- `tsm_cleanup_retrans_queu`.
unfoldable pub tsm_cleanup_retrans_queu : ℕ → Tcb → Outcome Tcb
unfolding keep_data settle
tsm_cleanup_retrans_queu seg_ack c =
    let acked = seg_diff seg_ack c.tcb_snd.una in
    if (acked == 0) || ltb c.tr_total_size acked
    then ok c
    else let_go acked c.tr_data_mbufs >>= λ ms.
        ok (settle (tcp_snd_win_full c) seg_ack (keep_data acked c ms))
