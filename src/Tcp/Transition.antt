-- ===== src/Tcp/Transition.antt =====
-- Where an event can lead a connection (src/tpg_tcp_sm.c), handler by handler.
use warp.Prelude.{
  ℕ, ◌≡◌, ◌∙◌, refl, Bool, true, false, ◌&&◌, ◌||◌, not, none, length, if◌then◌else◌, arith,
}
use warp.Prelude.Outcome.{Outcome, ok, branch, branch_on, >>=-eq-ok}
use warp.Tcp.{
  State, ts_listen, ts_syn_sent, ts_syn_recv, ts_fin_wait_i, ts_fin_wait_ii, ts_last_ack,
  ts_closing, ts_time_wait, ts_close_wait, ts_closed, Segment, Tcb, Env, Reply, ts_recv_rst,
  ts_recv_syn, sess_listen, sess_connecting, sess_srv_connected, Code, success,
}
use warp.Tcp.Seq.{acceptance_test, seg_lt, seg_gt}
use warp.Tcp.Send.{
  count, notify, flags_fin_ack, tcp_send_ctrl_pkt, tcp_timer_slow_set, tcp_send_ack_pkt,
}
use warp.Tcp.Data.{tsm_schedule_retransmission, tsm_cleanup_retrans_queu}
use warp.Tcp.Enter.{
  reply, done, state_eq, move, step_nxt, stop_timers, enter_closed, enter_listen, enter_syn_sent,
  entered_syn_recv, enter_fin_wait_i, enter_fin_wait_ii, enter_last_ack, enter_closing,
  enter_time_wait, enter_close_wait,
}
use warp.Tcp.Arrive.{checked, acknowledged, acks_new, update_window}
use warp.Tcp.Keep
use warp.Tcp.KeptFin
use warp.Tcp.Shut.{is_shut, state-move, state-stop_timers, state-enter_closed, enter_closed-is_shut}

pub state_if :
    (b : Bool) (t u : Tcb) {s : State}
    → t.tcb_state ≡ s
    → u.tcb_state ≡ s
    → (if b then t else u).tcb_state ≡ s
state_if true t u p q = p
state_if false t u p q = q

-- A closed block is shut.
abbrev pub shut_if_closed : Tcb → Bool
shut_if_closed c = not (state_eq c.tcb_state ts_closed) || is_shut c

-- A reply in one of some states, and shut if it is closed.
unfoldable pub ends : (State → Bool) → Reply → Bool
ends q r = q r.tcb.tcb_state && shut_if_closed r.tcb

-- One of some states that is not ts_closed.
abbrev pub is_open : (State → Bool) → State → Bool
is_open q s = q s && not (state_eq s ts_closed)

module _ (q : State → Bool) where
  -- A reply with a block that is in one of them.
  pub ends-ok :
      (t : Reply) {s : State} {r : Reply}
      → t.tcb.tcb_state ≡ s
      → is_open q s ≡ true
      → ok t ≡ ok r
      → ends q r ≡ true
  unfolding ends
  ends-ok t e p h = ground arith

  pub ends-kept :
      (e : Code) (c : Tcb) {s : State} {r : Reply}
      → c.tcb_state ≡ s
      → is_open q s ≡ true
      → reply e c ≡ ok r
      → ends q r ≡ true
  ends-kept e c = ends-ok record { tcb = c; child = none; code = e }

  pub ends-done :
      (c : Tcb) {s : State} {r : Reply}
      → c.tcb_state ≡ s
      → is_open q s ≡ true
      → done c ≡ ok r
      → ends q r ≡ true
  ends-done = ends-kept success

  pub ends-enter_listen :
      (c : Tcb) {r : Reply} → is_open q ts_listen ≡ true → enter_listen c ≡ ok r → ends q r ≡ true
  unfolding enter_listen
  ends-enter_listen c p h =
      ends-done (notify sess_listen (move ts_listen c)) (state-move ts_listen c) p h

module _ (env : Env) (q : State → Bool) where
  pub ends-enter_closed :
      q ts_closed ≡ true → (c : Tcb) {r : Reply} → enter_closed env c ≡ ok r → ends q r ≡ true
  unfolding ends
  ends-enter_closed pc c {r} h =
      ground (arith, state-enter_closed env c h, enter_closed-is_shut env c h)

  pub ends-enter_syn_sent :
      (c : Tcb) {r : Reply}
      → is_open q ts_syn_sent ≡ true
      → enter_syn_sent env c ≡ ok r
      → ends q r ≡ true
  unfolding enter_syn_sent
  ends-enter_syn_sent c p h =
      let m = notify sess_connecting (move ts_syn_sent c) in
      ends-done q (tsm_schedule_retransmission env m)
        (Keep.state-tsm_schedule_retransmission env m ∙ state-move ts_syn_sent c) p h

  pub state-entered_syn_recv : (c : Tcb) → (entered_syn_recv env c).tcb_state ≡ ts_syn_recv
  unfolding entered_syn_recv
  state-entered_syn_recv c =
      let m = notify sess_srv_connected (move ts_syn_recv c) in
      Keep.state-tsm_schedule_retransmission env m ∙ state-move ts_syn_recv c

  pub ends-enter_fin_wait_i :
      (c : Tcb) {r : Reply}
      → is_open q ts_fin_wait_i ≡ true
      → enter_fin_wait_i env c ≡ ok r
      → ends q r ≡ true
  unfolding enter_fin_wait_i
  ends-enter_fin_wait_i c p h =
      let m = move ts_fin_wait_i c in
      let sent = step_nxt (tcp_send_ctrl_pkt env flags_fin_ack false m) in
      let timed = tsm_schedule_retransmission env sent in
      ends-done q (tcp_timer_slow_set env env.opts.tcpo_orphan_to timed)
        (Keep.state-tcp_timer_slow_set env env.opts.tcpo_orphan_to timed
          ∙ Keep.state-tsm_schedule_retransmission env sent
          ∙ Keep.state-tcp_send_ctrl_pkt env flags_fin_ack false m
          ∙ state-move ts_fin_wait_i c)
        p h

  pub ends-enter_fin_wait_ii :
      (c : Tcb) {r : Reply}
      → is_open q ts_fin_wait_ii ≡ true
      → enter_fin_wait_ii env c ≡ ok r
      → ends q r ≡ true
  unfolding enter_fin_wait_ii
  ends-enter_fin_wait_ii c p h =
      let m = move ts_fin_wait_ii c in
      ends-done q (tcp_timer_slow_set env env.opts.tcpo_fin_to m)
        (Keep.state-tcp_timer_slow_set env env.opts.tcpo_fin_to m ∙ state-move ts_fin_wait_ii c) p h

  pub ends-enter_last_ack :
      (c : Tcb) {r : Reply}
      → is_open q ts_last_ack ≡ true
      → enter_last_ack env c ≡ ok r
      → ends q r ≡ true
  unfolding enter_last_ack
  ends-enter_last_ack c p h =
      let m = move ts_last_ack c in
      ends-done q (tsm_schedule_retransmission env m)
        (Keep.state-tsm_schedule_retransmission env m ∙ state-move ts_last_ack c) p h

  pub ends-enter_closing :
      (c : Tcb) {r : Reply}
      → is_open q ts_closing ≡ true
      → enter_closing env c ≡ ok r
      → ends q r ≡ true
  unfolding enter_closing
  ends-enter_closing c p h =
      let m = move ts_closing c in
      ends-done q (tsm_schedule_retransmission env m)
        (Keep.state-tsm_schedule_retransmission env m ∙ state-move ts_closing c) p h

  pub ends-enter_time_wait :
      (c : Tcb) {r : Reply}
      → q ts_closed ≡ true
      → is_open q ts_time_wait ≡ true
      → enter_time_wait env c ≡ ok r
      → ends q r ≡ true
  unfolding enter_time_wait
  ends-enter_time_wait c pc p h =
      let m = stop_timers (move ts_time_wait c) in
      let kept = Keep.state-tcp_timer_slow_set env env.opts.tcpo_twait_to m in
      branch env.opts.tcpo_skip_timewait h (ends-enter_closed pc m) (
        ends-done q (tcp_timer_slow_set env env.opts.tcpo_twait_to m)
          (kept ∙ state-stop_timers (move ts_time_wait c) ∙ state-move ts_time_wait c) p)

  -- ts_close_wait is left at once.
  pub ends-enter_close_wait :
      (c : Tcb) {r : Reply}
      → is_open q ts_last_ack ≡ true
      → enter_close_wait env c ≡ ok r
      → ends q r ≡ true
  unfolding enter_close_wait
  ends-enter_close_wait c p h =
      let m = move ts_close_wait c in
      let sent = step_nxt (tcp_send_ctrl_pkt env flags_fin_ack false m) in
      branch m.tcb_consume_all_data h (ends-enter_last_ack sent p) (λ no. cc)

-- A segment that goes through the checks of a state: what it does when it passes decides.
module _ (env : Env) (q : State → Bool) (s : State) (p : is_open q s ≡ true) (k : Segment) where
  pub ends-checked :
      ((k.tcp_flags.rst || k.tcp_flags.syn) ≡ true → q ts_closed ≡ true)
      → (before : Tcb → Tcb) (next : Env → Segment → Tcb → Outcome Reply) → (c : Tcb) {r : Reply}
      → c.tcb_state ≡ s
      → (next env k c ≡ ok r → ends q r ≡ true)
      → checked before next env k c ≡ ok r
      → ends q r ≡ true
  unfolding checked
  ends-checked pc before next c e step h =
      let kept : (if k.tcp_flags.rst then count ts_recv_rst c else tcp_send_ack_pkt env c).tcb_state
          ≡ s =
        ground (arith, Keep.state-tcp_send_ack_pkt env c) in
      branch (not (acceptance_test c.tcb_rcv.nxt c.tcb_rcv.wnd (length k.text) k.sent_seq)) h
        (ends-done q (if k.tcp_flags.rst then count ts_recv_rst c else tcp_send_ack_pkt env c) kept
          p)
        (λ h.
          branch_on k.tcp_flags.rst h
            (λ rst.
              ends-enter_closed env q (pc (ground arith))
                (before (record (count ts_recv_rst c) { tcb_rst_rcvd = true })))
            (λ no h.
              branch_on k.tcp_flags.syn h
                (λ syn. ends-enter_closed env q (pc (ground arith)) (before (count ts_recv_syn c)))
                (λ no. step)))

  -- What a segment with an acknowledgment does, on the block with what it acknowledges.
  pub ends-acknowledged :
      (acked : Segment → Tcb → ℕ) (next : Env → Segment → Tcb → Outcome Reply)
      → (c : Tcb) {r : Reply} → c.tcb_state ≡ s
      → ((t : Tcb)
          → k.tcp_flags.ack ≡ true
          → t.tcb_state ≡ s
          → t.tcb_fin_rcvd ≡ c.tcb_fin_rcvd
          → next env k t ≡ ok r
          → ends q r ≡ true)
      → acknowledged acked next env k c ≡ ok r
      → ends q r ≡ true
  unfolding acknowledged
  ends-acknowledged acked next c {r} e step h =
      let go : (t : Tcb)
          → k.tcp_flags.ack ≡ true
          → t.tcb_state ≡ s
          → t.tcb_fin_rcvd ≡ c.tcb_fin_rcvd
          → (if seg_lt k.recv_ack t.tcb_snd.una
              then done t
              else if seg_gt k.recv_ack t.tcb_snd.nxt
              then done t
              else next env k (update_window k t))
            ≡ ok r
          → ends q r ≡ true =
        λ t a e f h. branch (seg_lt k.recv_ack t.tcb_snd.una) h (ends-done q t e p) (λ h.
          branch (seg_gt k.recv_ack t.tcb_snd.nxt) h (ends-done q t e p)
            (step (update_window k t) a (ground arith) (ground arith))) in
      branch_on (not k.tcp_flags.ack) h (λ no. ends-done q c e p)
        (λ has h.
          let a : k.tcp_flags.ack ≡ true = ground arith in
          branch (acks_new k c) h
            (λ h.
              let x = >>=-eq-ok (tsm_cleanup_retrans_queu (acked k c) c) _ h in
              go x.0 a (Keep.state-tsm_cleanup_retrans_queu (acked k c) c x.1 ∙ e)
                (KeptFin.fin-tsm_cleanup_retrans_queu (acked k c) c x.1) x.2)
            (go c a e refl))
