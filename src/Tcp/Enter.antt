-- ===== src/Tcp/Enter.antt =====
-- The entry of a state: `tsm_enter_state` and the TE_ENTER_STATE case of each state function of
-- src/tpg_tcp_sm.c, with `tcp_close_connection` of src/tpg_tcp.c. An entry that goes on to another state
-- stands after it.
use warp.Prelude.{Bool, true, false, none, [], if◌then◌else◌}
use warp.Prelude.Outcome.{Outcome, ok, fault, error_abort}
use warp.Tcp.{
  State, ts_init, ts_listen, ts_syn_sent, ts_syn_recv, ts_established, ts_fin_wait_i,
  ts_fin_wait_ii, ts_last_ack, ts_closing, ts_time_wait, ts_close_wait, ts_closed, Tcb, Env, Reply,
  Code, success, dec, tsms_tcb_states, ts_tcb_freed, sess_listen, sess_connecting,
  sess_srv_connected, sess_closed,
}
use warp.Tcp.Seq.{seg_add}
use warp.Tcp.Send.{
  log, count, notify, flags_rst_ack, flags_fin_ack, tcp_send_ctrl_pkt, tcp_timer_slow_set,
  tcp_timer_slow_cancel, tcp_timer_rto_cancel,
}
use warp.Tcp.Data.{tsm_schedule_retransmission}

abbrev pub reply : Code → Tcb → Outcome Reply
reply e c = ok record { tcb = c; child = none; code = e }

abbrev pub done : Tcb → Outcome Reply
done = reply success

abbrev pub state_eq : State → State → Bool
state_eq ts_init ts_init = true
state_eq ts_listen ts_listen = true
state_eq ts_syn_sent ts_syn_sent = true
state_eq ts_syn_recv ts_syn_recv = true
state_eq ts_established ts_established = true
state_eq ts_fin_wait_i ts_fin_wait_i = true
state_eq ts_fin_wait_ii ts_fin_wait_ii = true
state_eq ts_last_ack ts_last_ack = true
state_eq ts_closing ts_closing = true
state_eq ts_time_wait ts_time_wait = true
state_eq ts_close_wait ts_close_wait = true
state_eq ts_closed ts_closed = true
state_eq _ _ = false

-- `tsm_enter_state` up to the event of the new state. The count of a state that is left is lowered, but
-- not that of ts_listen.
unfoldable pub move : State → Tcb → Tcb
move s c =
    let left =
      if state_eq c.tcb_state ts_listen then c else log (dec (tsms_tcb_states c.tcb_state)) c in
    if state_eq s c.tcb_state
    then count (tsms_tcb_states s) c
    else count (tsms_tcb_states s) (record left { tcb_state = s })

-- SND.NXT or SND.UNA and one more.
abbrev pub step_nxt : Tcb → Tcb
step_nxt c = record c { tcb_snd = record c.tcb_snd { nxt = seg_add c.tcb_snd.nxt 1 } }

abbrev pub step_una : Tcb → Tcb
step_una c = record c { tcb_snd = record c.tcb_snd { una = seg_add c.tcb_snd.una 1 } }

abbrev pub step_rcv_nxt : Tcb → Tcb
step_rcv_nxt c = record c { tcb_rcv = record c.tcb_rcv { nxt = seg_add c.tcb_rcv.nxt 1 } }

-- `tsm_terminate_statemachine`.
abbrev terminate : Tcb → Tcb
terminate c = if state_eq c.tcb_state ts_init then c else log (dec (tsms_tcb_states c.tcb_state)) c

-- The timers that are on their lists are cancelled.
unfoldable pub stop_rto : Tcb → Tcb
stop_rto c = if c.on_rto_list then tcp_timer_rto_cancel c else c

unfoldable pub stop_timers : Tcb → Tcb
unfolding stop_rto
stop_timers c = let t = stop_rto c in if t.on_slow_list then tcp_timer_slow_cancel t else t

-- The data of a connection given back, and its block, if it was allocated.
unfoldable pub release : Tcb → Tcb
release c =
    let t = terminate (record c { tcb_rcv_buf = []; tr_data_mbufs = []; tr_total_size = 0 }) in
    if t.tcb_malloced then record (count ts_tcb_freed t) { is_freed = true } else t

-- `tcp_close_connection` with TCG_SILENT_CLOSE.
unfoldable pub close_silent : Env → Tcb → Tcb
unfolding stop_timers release
close_silent env c =
    let reset = if c.tcb_rst_rcvd then c else tcp_send_ctrl_pkt env flags_rst_ack false c in
    release (stop_timers (record reset { is_known = false }))

-- `tsm_SF_closed` on its entry.
unfoldable pub enter_closed : Env → Tcb → Outcome Reply
unfolding move close_silent
enter_closed env c = done (close_silent env (notify sess_closed (move ts_closed c)))

-- `tsm_SF_listen` on its entry.
unfoldable pub enter_listen : Tcb → Outcome Reply
unfolding move
enter_listen c = done (notify sess_listen (move ts_listen c))

-- `tsm_SF_syn_sent` on its entry.
unfoldable pub enter_syn_sent : Env → Tcb → Outcome Reply
unfolding move
enter_syn_sent env c =
    done (tsm_schedule_retransmission env (notify sess_connecting (move ts_syn_sent c)))

-- `tsm_SF_syn_recv` on its entry: the block alone, since a listener enters it on a clone.
unfoldable pub entered_syn_recv : Env → Tcb → Tcb
unfolding move
entered_syn_recv env c =
    tsm_schedule_retransmission env (notify sess_srv_connected (move ts_syn_recv c))

-- `tsm_SF_fin_wait_I` on its entry.
unfoldable pub enter_fin_wait_i : Env → Tcb → Outcome Reply
unfolding move
enter_fin_wait_i env c =
    let sent = step_nxt (tcp_send_ctrl_pkt env flags_fin_ack false (move ts_fin_wait_i c)) in
    done (tcp_timer_slow_set env env.opts.tcpo_orphan_to (tsm_schedule_retransmission env sent))

-- `tsm_SF_fin_wait_II` on its entry.
unfoldable pub enter_fin_wait_ii : Env → Tcb → Outcome Reply
unfolding move
enter_fin_wait_ii env c = done (tcp_timer_slow_set env env.opts.tcpo_fin_to (move ts_fin_wait_ii c))

-- `tsm_SF_last_ack` and `tsm_SF_closing` on their entry.
unfoldable pub enter_last_ack : Env → Tcb → Outcome Reply
unfolding move
enter_last_ack env c = done (tsm_schedule_retransmission env (move ts_last_ack c))

unfoldable pub enter_closing : Env → Tcb → Outcome Reply
unfolding move
enter_closing env c = done (tsm_schedule_retransmission env (move ts_closing c))

-- `tsm_SF_time_wait` on its entry.
unfoldable pub enter_time_wait : Env → Tcb → Outcome Reply
unfolding move stop_timers
enter_time_wait env c =
    let m = stop_timers (move ts_time_wait c) in
    if env.opts.tcpo_skip_timewait
    then enter_closed env m
    else done (tcp_timer_slow_set env env.opts.tcpo_twait_to m)

-- `tsm_SF_close_wait` on its entry.
unfoldable pub enter_close_wait : Env → Tcb → Outcome Reply
unfolding move
enter_close_wait env c =
    let m = move ts_close_wait c in
    if m.tcb_consume_all_data
    then enter_last_ack env (step_nxt (tcp_send_ctrl_pkt env flags_fin_ack false m))
    else fault error_abort
