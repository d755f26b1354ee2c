-- ===== src/Tcp/Arrive.antt =====
-- What the state functions of src/tpg_tcp_sm.c do alike with a segment that arrives: the tests of its
-- number, of RST and of SYN, its acknowledgment and its window.
use warp.Prelude.{ℕ, Bool, true, ◌&&◌, ◌||◌, not, length, ◌==◌, if◌then◌else◌}
use warp.Prelude.Outcome.{Outcome, ◌>>=◌}
use warp.Tcp.{Segment, Tcb, Env, Reply, ts_recv_rst, ts_recv_syn, Counter}
use warp.Tcp.Seq.{acceptance_test, seg_lt, seg_le, seg_gt, seg_ge, seg_diff}
use warp.Tcp.Send.{count, tcp_send_ack_pkt}
use warp.Tcp.Data.{tsm_cleanup_retrans_queu}
use warp.Tcp.Enter.{done, enter_closed}

-- The first four checks. What a state does before it closes is `before`; what it does with a segment that
-- passes is `next`.
unfoldable pub checked :
    (Tcb → Tcb) → (Env → Segment → Tcb → Outcome Reply) → Env → Segment → Tcb → Outcome Reply
checked before next env k c =
    let flags = k.tcp_flags in
    if not (acceptance_test c.tcb_rcv.nxt c.tcb_rcv.wnd (length k.text) k.sent_seq)
    then done (if flags.rst then count ts_recv_rst c else tcp_send_ack_pkt env c)
    else if flags.rst
    then enter_closed env (before (record (count ts_recv_rst c) { tcb_rst_rcvd = true }))
    else if flags.syn
    then enter_closed env (before (count ts_recv_syn c))
    else next env k c

-- SND.UNA < SEG.ACK =< SND.NXT.
abbrev pub acks_new : Segment → Tcb → Bool
acks_new k c = seg_gt k.recv_ack c.tcb_snd.una && seg_le k.recv_ack c.tcb_snd.nxt

-- The window of the segment, unless it is older than the one known.
abbrev pub update_window : Segment → Tcb → Tcb
update_window k c =
    let s = c.tcb_snd in
    if seg_gt k.sent_seq s.wl1 || ((k.sent_seq == s.wl1) && seg_ge k.recv_ack s.wl2)
    then record c { tcb_snd = record s { wnd = k.rx_win; wl1 = k.sent_seq; wl2 = k.recv_ack } }
    else c

-- The fifth check, and the window. `acked` is the number up to which data is let go, which leaves out our
-- FIN in the states that sent one.
unfoldable pub acknowledged :
    (Segment → Tcb → ℕ)
    → (Env → Segment → Tcb → Outcome Reply)
    → Env
    → Segment
    → Tcb
    → Outcome Reply
acknowledged acked next env k c =
    let go : Tcb → Outcome Reply = λ t.
      if seg_lt k.recv_ack t.tcb_snd.una
      then done t
      else if seg_gt k.recv_ack t.tcb_snd.nxt
      then done t
      else next env k (update_window k t) in
    if not k.tcp_flags.ack
    then done c
    else if acks_new k c
    then (tsm_cleanup_retrans_queu (acked k c) c >>= go)
    else go c

abbrev pub up_to_ack : Segment → Tcb → ℕ
up_to_ack k c = k.recv_ack

abbrev pub without_fin : Segment → Tcb → ℕ
without_fin k c = if k.recv_ack == c.tcb_snd.nxt then seg_diff k.recv_ack 1 else k.recv_ack

-- `tsm_need_ack`.
unfoldable pub tsm_need_ack : Env → Bool
tsm_need_ack env = if not env.opts.tcpo_ack_delay then true else not env.has_data_pending

-- TCP_TOO_MANY_RETRIES: the connection closes after `before`, or goes on with `again`.
abbrev pub retry : ℕ → Counter → (Tcb → Tcb) → (Tcb → Outcome Reply) → Env → Tcb → Outcome Reply
retry limit stat before again env c =
    if c.tcb_retrans_cnt == limit then enter_closed env (before (count stat c)) else again c
