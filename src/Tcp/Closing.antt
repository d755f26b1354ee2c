-- ===== src/Tcp/Closing.antt =====
-- The state functions of an established connection and of one that closes: `tsm_SF_estab`,
-- `tsm_SF_fin_wait_I`, `tsm_SF_fin_wait_II`, `tsm_SF_last_ack`, `tsm_SF_closing`, `tsm_SF_time_wait`,
-- `tsm_SF_close_wait` and `tsm_SF_closed` of src/tpg_tcp_sm.c.
use warp.Prelude.{ℕ, Bool, true, false, ◌&&◌, not, Option, none, some, length, ◌==◌, if◌then◌else◌}
use warp.Prelude.Outcome.{Outcome, fault, assert_false, ◌>>=◌}
use warp.Tcp.{
  Segment, DataArg, Event, te_open, te_receive, te_close, te_abort, te_retransmission_timeout,
  te_orphan_timeout, te_fin_timeout, te_time_wait_timeout, te_send, te_segment_arrives, Tcb, Env,
  enotconn, Reply, sess_closing, ts_recv_rst, ts_recv_fin, tsms_retry_to,
}
use warp.Tcp.Seq.{seg_add, seg_diff}
use warp.Tcp.Send.{
  count, notify, flags_rst, flags_rst_ack, flags_fin_ack, tcp_send_ctrl_pkt,
  tcp_send_ctrl_pkt_with_sseq, tcp_send_ack_pkt, tcp_timer_rto_cancel, tcp_timer_slow_cancel,
  tcp_timer_slow_set,
}
use warp.Tcp.Data.{tsm_schedule_retransmission, tsm_send_data, tsm_retrans_data}
use warp.Tcp.Receive.{tsm_handle_incoming}
use warp.Tcp.Enter.{
  reply, done, step_una, step_rcv_nxt, enter_closed, enter_fin_wait_i, enter_fin_wait_ii,
  enter_closing, enter_time_wait, enter_close_wait,
}
use warp.Tcp.Arrive.{checked, acknowledged, up_to_ack, without_fin, tsm_need_ack, retry}

abbrev pub same : Tcb → Tcb
same c = c

-- A FIN whose number comes after text that is missing.
abbrev pub keep_fin : ℕ → Tcb → Tcb
keep_fin fin_seq c = record c { tcb_fin_rcvd = true; tcb_rcv_fin_seq = fin_seq }

abbrev pub fin_seq : Segment → ℕ
fin_seq k = seg_add k.sent_seq (length k.text)

abbrev send : Env → Option DataArg → Tcb → Outcome Reply
send env none c = done c
send env (some d) c = (tsm_send_data env d c >>= λ r. reply r.1 r.0)

-- The text and the FIN of a segment in ts_established.
unfoldable pub estab_text : Env → Segment → Tcb → Outcome Reply
estab_text env k c =
    let r = tsm_handle_incoming env k c in
    let acked = if not (r.1 == 0) && tsm_need_ack env then tcp_send_ack_pkt env r.0 else r.0 in
    let read = if length k.text == 0 then c else acked in
    let counted = count ts_recv_fin read in
    let close : Tcb → Outcome Reply =
      λ t. enter_close_wait env (notify sess_closing (step_rcv_nxt t)) in
    if k.tcp_flags.fin
    then (if read.tcb_rcv.nxt == fin_seq k
        then close counted
        else done (keep_fin (fin_seq k) counted))
    else if read.tcb_fin_rcvd && (read.tcb_rcv.nxt == read.tcb_rcv_fin_seq)
    then close read
    else done read

abbrev pub data_again : Env → Tcb → Outcome Reply
data_again env t = (tsm_retrans_data env t >>= λ u. done (tsm_schedule_retransmission env u))

unfoldable pub tsm_sf_estab : Env → Tcb → Event → Outcome Reply
tsm_sf_estab env c (te_send d) = send env d c
tsm_sf_estab env c te_close = enter_fin_wait_i env (notify sess_closing c)
tsm_sf_estab env c (te_segment_arrives (some k)) =
    checked (notify sess_closing) (acknowledged up_to_ack estab_text) env k c
tsm_sf_estab env c te_retransmission_timeout =
    retry env.opts.tcpo_data_retry_cnt tsms_retry_to (notify sess_closing) (data_again env) env c
tsm_sf_estab env c _ = done c

-- Our FIN with the number that it has.
abbrev pub fin_again : Env → Tcb → Tcb
fin_again env t = tcp_send_ctrl_pkt_with_sseq env (seg_diff t.tcb_snd.nxt 1) flags_fin_ack false t

abbrev fin_retry : Env → Tcb → Outcome Reply
fin_retry env t = done (tsm_schedule_retransmission env (fin_again env t))

-- All that was sent is acknowledged, our FIN included.
abbrev pub acks_fin : Segment → Tcb → Bool
acks_fin k c = (c.tcb_snd.una == seg_diff c.tcb_snd.nxt 1) && (k.recv_ack == c.tcb_snd.nxt)

abbrev pub incoming : Env → Segment → Tcb → Tcb
incoming env k c = if length k.text == 0 then c else (tsm_handle_incoming env k c).0

-- The acknowledgment of our FIN, the text and the FIN of a segment in ts_fin_wait_i.
unfoldable pub fin_wait_i_text : Env → Segment → Tcb → Outcome Reply
fin_wait_i_text env k c =
    let fin_acked = acks_fin k c in
    let read = incoming env k (if fin_acked then step_una c else c) in
    let late =
      if read.tcb_fin_rcvd && (read.tcb_rcv.nxt == read.tcb_rcv_fin_seq)
      then step_rcv_nxt read
      else read in
    let counted = count ts_recv_fin read in
    let closed = tcp_timer_slow_cancel (tcp_send_ack_pkt env (step_rcv_nxt counted)) in
    if not k.tcp_flags.fin
    then (if fin_acked
        then enter_fin_wait_ii env (tcp_timer_slow_cancel (tcp_send_ack_pkt env late))
        else done (tcp_send_ack_pkt env late))
    else if not (read.tcb_rcv.nxt == fin_seq k)
    then done (keep_fin (fin_seq k) counted)
    else if fin_acked
    then enter_time_wait env closed
    else enter_closing env closed

unfoldable pub tsm_sf_fin_wait_i : Env → Tcb → Event → Outcome Reply
tsm_sf_fin_wait_i env c te_open = reply enotconn c
tsm_sf_fin_wait_i env c (te_send d) = reply enotconn c
tsm_sf_fin_wait_i env c te_receive = reply enotconn c
tsm_sf_fin_wait_i env c te_close = reply enotconn c
tsm_sf_fin_wait_i env c (te_segment_arrives (some k)) =
    checked tcp_timer_slow_cancel (acknowledged without_fin fin_wait_i_text) env k c
tsm_sf_fin_wait_i env c te_retransmission_timeout =
    retry env.opts.tcpo_retry_cnt tsms_retry_to tcp_timer_slow_cancel (fin_retry env) env c
tsm_sf_fin_wait_i env c te_orphan_timeout = enter_closed env c
tsm_sf_fin_wait_i env c _ = done c

-- The text and the FIN of a segment in ts_fin_wait_ii.
unfoldable pub fin_wait_ii_text : Env → Segment → Tcb → Outcome Reply
fin_wait_ii_text env k c =
    let read = incoming env k c in
    if not k.tcp_flags.fin
    then done (tcp_send_ack_pkt env read)
    else enter_time_wait env
        (tcp_send_ack_pkt env (step_rcv_nxt (tcp_timer_slow_cancel (count ts_recv_fin read))))

unfoldable pub tsm_sf_fin_wait_ii : Env → Tcb → Event → Outcome Reply
tsm_sf_fin_wait_ii env c te_open = reply enotconn c
tsm_sf_fin_wait_ii env c (te_send d) = reply enotconn c
tsm_sf_fin_wait_ii env c te_receive = reply enotconn c
tsm_sf_fin_wait_ii env c te_close = reply enotconn c
tsm_sf_fin_wait_ii env c (te_segment_arrives (some k)) =
    checked tcp_timer_slow_cancel (acknowledged up_to_ack fin_wait_ii_text) env k c
tsm_sf_fin_wait_ii env c te_fin_timeout = enter_closed env c
tsm_sf_fin_wait_ii env c _ = done c

unfoldable pub last_ack_arrives : Env → Segment → Tcb → Outcome Reply
last_ack_arrives env k c =
    if k.tcp_flags.ack && (k.recv_ack == c.tcb_snd.nxt) then enter_closed env c else done c

unfoldable pub tsm_sf_last_ack : Env → Tcb → Event → Outcome Reply
tsm_sf_last_ack env c te_open = reply enotconn c
tsm_sf_last_ack env c (te_send d) = reply enotconn c
tsm_sf_last_ack env c te_receive = reply enotconn c
tsm_sf_last_ack env c te_close = reply enotconn c
tsm_sf_last_ack env c (te_segment_arrives (some k)) = checked same last_ack_arrives env k c
tsm_sf_last_ack env c te_retransmission_timeout =
    retry env.opts.tcpo_retry_cnt tsms_retry_to same (fin_retry env) env c
tsm_sf_last_ack env c _ = done c

unfoldable pub closing_acked : Env → Segment → Tcb → Outcome Reply
closing_acked env k c =
    if acks_fin k c
    then enter_time_wait env (if c.on_rto_list then tcp_timer_rto_cancel c else c)
    else done c

unfoldable pub tsm_sf_closing : Env → Tcb → Event → Outcome Reply
tsm_sf_closing env c te_open = reply enotconn c
tsm_sf_closing env c (te_send d) = reply enotconn c
tsm_sf_closing env c te_receive = reply enotconn c
tsm_sf_closing env c te_close = reply enotconn c
tsm_sf_closing env c (te_segment_arrives (some k)) =
    checked same (acknowledged without_fin closing_acked) env k c
tsm_sf_closing env c te_retransmission_timeout =
    retry env.opts.tcpo_retry_cnt tsms_retry_to same (fin_retry env) env c
tsm_sf_closing env c _ = done c

-- A FIN that comes again restarts the timer.
unfoldable pub time_wait_arrives : Env → Segment → Tcb → Outcome Reply
time_wait_arrives env k c =
    let acked = tcp_send_ack_pkt env c in
    if acked.on_slow_list
    then done (tcp_timer_slow_set env env.opts.tcpo_twait_to (tcp_timer_slow_cancel acked))
    else fault assert_false

unfoldable pub tsm_sf_time_wait : Env → Tcb → Event → Outcome Reply
tsm_sf_time_wait env c te_open = reply enotconn c
tsm_sf_time_wait env c (te_send d) = reply enotconn c
tsm_sf_time_wait env c te_receive = reply enotconn c
tsm_sf_time_wait env c te_close = reply enotconn c
tsm_sf_time_wait env c (te_segment_arrives (some k)) = checked same time_wait_arrives env k c
tsm_sf_time_wait env c te_time_wait_timeout = enter_closed env c
tsm_sf_time_wait env c _ = done c

abbrev pub only_done : Env → Segment → Tcb → Outcome Reply
only_done env k c = done c

abbrev data_and_fin_again : Env → Tcb → Outcome Reply
data_and_fin_again env t = (tsm_retrans_data env t >>= λ u. done (fin_again env u))

unfoldable pub tsm_sf_close_wait : Env → Tcb → Event → Outcome Reply
tsm_sf_close_wait env c (te_send d) = send env d c
tsm_sf_close_wait env c (te_segment_arrives (some k)) =
    checked same (acknowledged up_to_ack only_done) env k c
tsm_sf_close_wait env c te_retransmission_timeout =
    retry env.opts.tcpo_retry_cnt tsms_retry_to same (data_and_fin_again env) env c
tsm_sf_close_wait env c _ = done c

-- A segment for a connection that there is not is answered by a reset, unless it is one.
unfoldable pub closed_arrives : Env → Segment → Tcb → Outcome Reply
closed_arrives env k c =
    let acked = record c { tcb_snd = record c.tcb_snd { nxt = k.recv_ack } } in
    let read = record c {
      tcb_rcv = record c.tcb_rcv { nxt = seg_add k.sent_seq (length k.text) };
    } in
    if k.tcp_flags.rst
    then done (count ts_recv_rst c)
    else if k.tcp_flags.ack
    then done (tcp_send_ctrl_pkt env flags_rst false acked)
    else done (tcp_send_ctrl_pkt env flags_rst_ack false read)

unfoldable pub tsm_sf_closed : Env → Tcb → Event → Outcome Reply
tsm_sf_closed env c te_open = reply enotconn c
tsm_sf_closed env c (te_send d) = reply enotconn c
tsm_sf_closed env c te_receive = reply enotconn c
tsm_sf_closed env c te_close = reply enotconn c
tsm_sf_closed env c te_abort = reply enotconn c
tsm_sf_closed env c (te_segment_arrives (some k)) = closed_arrives env k c
tsm_sf_closed env c _ = done c
