-- ===== src/Tcp/Opening.antt =====
-- The state functions of a connection on its way to ts_established: `tsm_SF_init`, `tsm_SF_listen`,
-- `tsm_SF_syn_sent` and `tsm_SF_syn_recv` of src/tpg_tcp_sm.c.
use warp.Prelude.{true, false, ◌&&◌, ◌||◌, not, some, [], length, ◌==◌, if◌then◌else◌}
use warp.Prelude.Outcome.{Outcome, ok, ◌>>=◌}
use warp.Tcp.{
  ts_established, Segment, Event, te_open, te_receive, te_close, te_retransmission_timeout, te_send,
  te_segment_arrives, Snd, Tcb, Env, success, enotconn, enomem, Reply, sess_connected, sess_closing,
  ts_recv_rst, ts_recv_syn, ts_recv_fin, ts_tcb_malloced, ts_tcb_alloc_err, tsms_syn_to,
  tsms_synack_to,
}
use warp.Tcp.Seq.{seg_le, seg_gt, seg_ge, seg_add}
use warp.Tcp.Send.{
  count, notify, flags_syn, flags_syn_ack, flags_rst_ack, tcp_send_ctrl_pkt, tcp_send_ack_pkt,
  tcp_timer_rto_cancel,
}
use warp.Tcp.Data.{tsm_schedule_retransmission, tsm_cleanup_retrans_queu}
use warp.Tcp.Receive.{tsm_handle_incoming}
use warp.Tcp.Enter.{
  reply, done, move, step_una, step_rcv_nxt, enter_closed, enter_listen, enter_syn_sent,
  entered_syn_recv, enter_fin_wait_i, enter_close_wait,
}
use warp.Tcp.Arrive.{checked, tsm_need_ack, retry}

abbrev pub with_snd : Snd → Tcb → Tcb
with_snd s c = record c { tcb_snd = s }

-- The numbers of a block whose SYN is sent.
abbrev pub start_snd : Tcb → Tcb
start_snd c = with_snd (record c.tcb_snd { una = c.tcb_snd.iss; nxt = seg_add c.tcb_snd.iss 1 }) c

-- The numbers of a block that received a SYN.
abbrev pub start_rcv : Segment → Tcb → Tcb
start_rcv k c = record c {
  tcb_rcv = record c.tcb_rcv { nxt = seg_add k.sent_seq 1; irs = k.sent_seq };
}

abbrev pub close_noted : Env → Tcb → Outcome Reply
close_noted env c = enter_closed env (notify sess_closing c)

unfoldable pub tsm_sf_init : Env → Tcb → Event → Outcome Reply
tsm_sf_init env c te_open =
    if c.tcb_active
    then enter_syn_sent env (tcp_send_ctrl_pkt env flags_syn true (start_snd c))
    else enter_listen c
tsm_sf_init env c (te_send d) = reply enotconn c
tsm_sf_init env c te_receive = reply enotconn c
tsm_sf_init env c te_close = enter_closed env c
tsm_sf_init env c _ = done c

-- The block of a new connection, a clone of the listener that remembers nothing of its effects.
abbrev pub tcb_clone : Segment → Tcb → Tcb
tcb_clone k c = count ts_tcb_malloced (record c {
  tcb_malloced = true;
  is_known = false;
  l4cb_dst_addr = k.src_addr;
  l4cb_dst_port = k.src_port;
  effects = [];
})

-- A SYN for a listener. A clone that does not fit into the table is lost: nothing frees it.
unfoldable pub accept : Env → Segment → Tcb → Outcome Reply
accept env k c =
    let counted = count ts_recv_syn c in
    let clone = tcb_clone k c in
    let started = start_snd (start_rcv k (record clone { is_known = true })) in
    let entered = entered_syn_recv env (tcp_send_ctrl_pkt env flags_syn_ack true started) in
    if not env.can_alloc
    then reply enomem (count ts_tcb_alloc_err counted)
    else if not env.can_add
    then ok record { tcb = counted; child = some clone; code = enomem }
    else ok record { tcb = counted; child = some entered; code = success }

unfoldable pub tsm_sf_listen : Env → Tcb → Event → Outcome Reply
tsm_sf_listen env c (te_send d) = reply enotconn c
tsm_sf_listen env c te_receive = reply enotconn c
tsm_sf_listen env c te_close = close_noted env c
tsm_sf_listen env c (te_segment_arrives (some k)) =
    if k.tcp_flags.rst
    then done (count ts_recv_rst c)
    else if k.tcp_flags.ack
    then done (tcp_send_ctrl_pkt env flags_rst_ack false c)
    else if k.tcp_flags.syn
    then accept env k c
    else done c
tsm_sf_listen env c _ = done c

abbrev pub established : Env → Tcb → Outcome Reply
established env c =
    let m = move ts_established c in done (if tsm_need_ack env then tcp_send_ack_pkt env m else m)

-- The window of the segment that completes the opening.
abbrev pub first_window : Segment → Tcb → Tcb
first_window k c =
    with_snd (record c.tcb_snd { wnd = k.rx_win; wl1 = k.sent_seq; wl2 = k.recv_ack }) c

abbrev incoming : Env → Segment → Tcb → Tcb
incoming env k c = if length k.text == 0 then c else (tsm_handle_incoming env k c).0

abbrev pub syn_received : Env → Tcb → Outcome Reply
syn_received env c = done (entered_syn_recv env (tcp_send_ctrl_pkt env flags_syn_ack true c))

-- A SYN for a connection that sent one.
unfoldable pub syn_arrives : Env → Segment → Tcb → Outcome Reply
syn_arrives env k c =
    let started = start_rcv k (count ts_recv_syn c) in
    let connected : Tcb → Outcome Reply = λ t.
      if seg_gt t.tcb_snd.una t.tcb_snd.iss
      then established env
          (tcp_timer_rto_cancel (incoming env k (notify sess_connected (first_window k t))))
      else syn_received env t in
    if k.tcp_flags.ack
    then tsm_cleanup_retrans_queu k.recv_ack (step_una started) >>= connected
    else syn_received env started

unfoldable pub syn_sent_arrives : Env → Segment → Tcb → Outcome Reply
unfolding syn_arrives
syn_sent_arrives env k c =
    let flags = k.tcp_flags in
    let s = c.tcb_snd in
    if flags.ack && (seg_le k.recv_ack s.iss || seg_gt k.recv_ack s.nxt)
    then done
        (if flags.rst then count ts_recv_rst c else tcp_send_ctrl_pkt env flags_rst_ack false c)
    else if flags.ack && not (seg_ge k.recv_ack s.una && seg_le k.recv_ack s.nxt)
    then done c
    else if flags.rst
    then close_noted env (record (count ts_recv_rst c) { tcb_rst_rcvd = true })
    else if flags.syn
    then syn_arrives env k c
    else done c

unfoldable pub tsm_sf_syn_sent : Env → Tcb → Event → Outcome Reply
tsm_sf_syn_sent env c (te_send d) = reply enotconn c
tsm_sf_syn_sent env c te_receive = reply enotconn c
tsm_sf_syn_sent env c te_close = close_noted env c
tsm_sf_syn_sent env c (te_segment_arrives (some k)) = syn_sent_arrives env k c
tsm_sf_syn_sent env c te_retransmission_timeout =
    retry env.opts.tcpo_syn_retry_cnt tsms_syn_to (notify sess_closing)
      (λ t. done (tsm_schedule_retransmission env (tcp_send_ctrl_pkt env flags_syn true t))) env c
tsm_sf_syn_sent env c _ = done c

-- The acknowledgment of our SYN, the text and the FIN of a segment in ts_syn_recv.
unfoldable pub syn_recv_arrives : Env → Segment → Tcb → Outcome Reply
syn_recv_arrives env k c =
    let go : Tcb → Outcome Reply = λ t.
      let w = first_window k t in
      let r = tsm_handle_incoming env k w in
      let acked = if not (r.1 == 0) && tsm_need_ack env then tcp_send_ack_pkt env r.0 else r.0 in
      let read = if length k.text == 0 then w else acked in
      if k.tcp_flags.fin
      then enter_close_wait env (notify sess_closing (step_rcv_nxt (count ts_recv_fin read)))
      else done (move ts_established (tcp_timer_rto_cancel read)) in
    if not k.tcp_flags.ack
    then done c
    else if not (seg_ge k.recv_ack c.tcb_snd.una && seg_le k.recv_ack c.tcb_snd.nxt)
    then done (tcp_send_ctrl_pkt env flags_rst_ack false c)
    else if seg_gt k.recv_ack c.tcb_snd.una
    then (tsm_cleanup_retrans_queu k.recv_ack (step_una c) >>= go)
    else go c

unfoldable pub tsm_sf_syn_recv : Env → Tcb → Event → Outcome Reply
tsm_sf_syn_recv env c (te_send d) = reply enotconn c
tsm_sf_syn_recv env c te_receive = reply enotconn c
tsm_sf_syn_recv env c te_close = enter_fin_wait_i env (notify sess_closing c)
tsm_sf_syn_recv env c (te_segment_arrives (some k)) =
    checked (notify sess_closing) syn_recv_arrives env k c
tsm_sf_syn_recv env c te_retransmission_timeout =
    retry env.opts.tcpo_syn_ack_retry_cnt tsms_synack_to (notify sess_closing)
      (λ t. done (tsm_schedule_retransmission env (tcp_send_ctrl_pkt env flags_syn_ack true t))) env
      c
tsm_sf_syn_recv env c _ = done c
