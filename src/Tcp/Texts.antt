-- ===== src/Tcp/Texts.antt =====
-- What a segment does in the states of an established and of a closing connection, after its checks: where
-- its text, its FIN or its acknowledgment leads.
use warp.Prelude.{◌≡◌, ◌∙◌, Bool, true, false, ◌&&◌, ◌||◌, not, length, ◌==◌, if◌then◌else◌, arith}
use warp.Prelude.Outcome.{ok, branch, branch_on, ◌>>=◌, >>=-eq-ok}
use warp.Tcp.{
  DataArg, ts_recv_fin, State, ts_established, ts_fin_wait_i, ts_fin_wait_ii, ts_last_ack,
  ts_closing, ts_time_wait, ts_closed, Segment, Tcb, Env, Reply, ts_recv_rst, Code,
}
use warp.Tcp.Seq.{seg_add, seg_diff}
use warp.Tcp.Send.{
  count, flags_rst, flags_fin_ack, tcp_timer_slow_cancel, flags_rst_ack, tcp_send_ctrl_pkt,
  tcp_timer_slow_set, tcp_send_ack_pkt,
}
use warp.Tcp.Receive.{tsm_handle_incoming}
use warp.Tcp.Data.{tsm_send_data, tsm_schedule_retransmission}
use warp.Tcp.Enter.{reply, state_eq, step_una, step_rcv_nxt}
use warp.Tcp.Closing.{
  keep_fin, estab_text, fin_again, acks_fin, incoming, fin_wait_i_text, fin_wait_ii_text,
  last_ack_arrives, closing_acked, time_wait_arrives, closed_arrives, fin_seq,
}
use warp.Tcp.Arrive.{tsm_need_ack}
use warp.Tcp.Keep
use warp.Tcp.KeptFin.{fin-tcp_send_ack_pkt, fin-tsm_handle_incoming}
use warp.Tcp.Shut.{is_shut, tcp_send_ctrl_pkt-is_shut}
use warp.Tcp.Transition.{
  ends, is_open, state_if, ends-kept, ends-done, ends-enter_closed, ends-enter_close_wait,
  ends-enter_fin_wait_ii, ends-enter_closing, ends-enter_time_wait,
}

-- A closed block that stays as it is, whatever the answer.
pub ends-still_shut :
    (c : Tcb) {e : Code} {r : Reply}
    → c.tcb_state ≡ ts_closed
    → is_shut c ≡ true
    → reply e c ≡ ok r
    → ends (λ s. state_eq s ts_closed) r ≡ true
unfolding ends
ends-still_shut c at shut h = ground arith

module _ (env : Env) where
  -- The handling of data, with the acknowledgment that a state sends of it.
  state-read :
      (k : Segment) (b : Bool) (c : Tcb)
      → (let r = tsm_handle_incoming env k c in
          if b then tcp_send_ack_pkt env r.0 else r.0).tcb_state
        ≡ c.tcb_state
  state-read k b c =
      let r = tsm_handle_incoming env k c in
      ground (arith, Keep.state-tcp_send_ack_pkt env r.0, Keep.state-tsm_handle_incoming env k c)

  state-incoming : (k : Segment) (c : Tcb) → (incoming env k c).tcb_state ≡ c.tcb_state
  state-incoming k c = ground (arith, Keep.state-tsm_handle_incoming env k c)

  pub state-fin_again : (c : Tcb) → (fin_again env c).tcb_state ≡ c.tcb_state
  state-fin_again c =
      Keep.state-tcp_send_ctrl_pkt_with_sseq env (seg_diff c.tcb_snd.nxt 1) flags_fin_ack false c

  pub state-fin_retry :
      (c : Tcb) → (tsm_schedule_retransmission env (fin_again env c)).tcb_state ≡ c.tcb_state
  state-fin_retry c =
      Keep.state-tsm_schedule_retransmission env (fin_again env c) ∙ state-fin_again c

  module _ (q : State → Bool) where
    pub ends-send :
        (d : DataArg) (c : Tcb) {s : State} {r : Reply}
        → c.tcb_state ≡ s
        → is_open q s ≡ true
        → (tsm_send_data env d c >>= λ r. reply r.1 r.0) ≡ ok r
        → ends q r ≡ true
    ends-send d c at p h =
        let x = >>=-eq-ok (tsm_send_data env d c) _ h in
        ends-kept q x.0.1 x.0.0 (Keep.state-tsm_send_data env d c x.1 ∙ at) p x.2

    pub ends-estab_text :
        (k : Segment) (c : Tcb)
        → is_open q ts_established ≡ true
        → ((k.tcp_flags.fin || c.tcb_fin_rcvd) ≡ true → is_open q ts_last_ack ≡ true)
        → {r : Reply} → c.tcb_state ≡ ts_established
        → estab_text env k c ≡ ok r
        → ends q r ≡ true
    unfolding estab_text
    ends-estab_text k c p p1 at h =
        let n = tsm_handle_incoming env k c in
        let acked = if not (n.1 == 0) && tsm_need_ack env then tcp_send_ack_pkt env n.0 else n.0 in
        let read = if length k.text == 0 then c else acked in
        let kept : read.tcb_state ≡ ts_established =
          ground (arith, state-read k (not (n.1 == 0) && tsm_need_ack env) c) in
        let same : read.tcb_fin_rcvd ≡ c.tcb_fin_rcvd =
          ground (arith, fin-tcp_send_ack_pkt env n.0, fin-tsm_handle_incoming env k c) in
        branch_on k.tcp_flags.fin h
          (λ fin h.
            branch (read.tcb_rcv.nxt == fin_seq k) h
              (ends-enter_close_wait env q _ (p1 (ground arith)))
              (ends-done q (keep_fin (fin_seq k) (count ts_recv_fin read)) kept p))
          (λ no h.
            branch_on (read.tcb_fin_rcvd && (read.tcb_rcv.nxt == read.tcb_rcv_fin_seq)) h
              (λ due. ends-enter_close_wait env q _ (p1 (ground arith)))
              (λ not_due. ends-done q read kept p))

    pub ends-fin_wait_i_text :
        (k : Segment)
        → is_open q ts_fin_wait_i ≡ true
        → is_open q ts_fin_wait_ii ≡ true
        → (k.tcp_flags.fin ≡ true → is_open q ts_closing ≡ true)
        → (k.tcp_flags.fin ≡ true → is_open q ts_time_wait ≡ true)
        → (k.tcp_flags.fin ≡ true → q ts_closed ≡ true)
        → (c : Tcb) (r : Reply) → c.tcb_state ≡ ts_fin_wait_i
        → fin_wait_i_text env k c ≡ ok r
        → ends q r ≡ true
    unfolding fin_wait_i_text
    ends-fin_wait_i_text k p p1 p2 p3 pc c r at h =
        let started = if acks_fin k c then step_una c else c in
        let read = incoming env k started in
        let on_time = read.tcb_fin_rcvd && (read.tcb_rcv.nxt == read.tcb_rcv_fin_seq) in
        let late = if on_time then step_rcv_nxt read else read in
        let kept : read.tcb_state ≡ ts_fin_wait_i =
          state-incoming k started ∙ state_if (acks_fin k c) (step_una c) c at at in
        branch_on (not k.tcp_flags.fin) h
          (λ no h. branch (acks_fin k c) h (ends-enter_fin_wait_ii env q _ p1) (
            ends-done q (tcp_send_ack_pkt env late)
              (Keep.state-tcp_send_ack_pkt env late
                ∙ state_if on_time (step_rcv_nxt read) read kept kept)
              p))
          (λ has h.
            let fin : k.tcp_flags.fin ≡ true = ground arith in
            branch (not (read.tcb_rcv.nxt == fin_seq k)) h
              (ends-done q (keep_fin (fin_seq k) (count ts_recv_fin read)) kept p)
              (λ h.
                branch (acks_fin k c) h (ends-enter_time_wait env q _ (pc fin) (p3 fin))
                  (ends-enter_closing env q _ (p2 fin))))

    pub ends-fin_wait_ii_text :
        (k : Segment)
        → is_open q ts_fin_wait_ii ≡ true
        → (k.tcp_flags.fin ≡ true → is_open q ts_time_wait ≡ true)
        → (k.tcp_flags.fin ≡ true → q ts_closed ≡ true)
        → (c : Tcb) (r : Reply) → c.tcb_state ≡ ts_fin_wait_ii
        → fin_wait_ii_text env k c ≡ ok r
        → ends q r ≡ true
    unfolding fin_wait_ii_text
    ends-fin_wait_ii_text k p p1 pc c r at h =
        let read = incoming env k c in
        branch_on (not k.tcp_flags.fin) h
          (λ no.
            ends-done q (tcp_send_ack_pkt env read)
              (Keep.state-tcp_send_ack_pkt env read ∙ state-incoming k c ∙ at) p)
          (λ has. ends-enter_time_wait env q _ (pc (ground arith)) (p1 (ground arith)))

    pub ends-last_ack_arrives :
        (k : Segment)
        → is_open q ts_last_ack ≡ true
        → (k.tcp_flags.ack ≡ true → q ts_closed ≡ true)
        → (c : Tcb) (r : Reply) → c.tcb_state ≡ ts_last_ack
        → last_ack_arrives env k c ≡ ok r
        → ends q r ≡ true
    unfolding last_ack_arrives
    ends-last_ack_arrives k p pc c r at h =
        branch_on (k.tcp_flags.ack && (k.recv_ack == c.tcb_snd.nxt)) h
          (λ acks. ends-enter_closed env q (pc (ground arith)) c) (λ no. ends-done q c at p)

    pub ends-closing_acked :
        (k : Segment)
        → is_open q ts_closing ≡ true
        → is_open q ts_time_wait ≡ true
        → q ts_closed ≡ true
        → (c : Tcb) (r : Reply) → c.tcb_state ≡ ts_closing
        → closing_acked env k c ≡ ok r
        → ends q r ≡ true
    unfolding closing_acked
    ends-closing_acked k p p1 pc c r at h =
        branch (acks_fin k c) h (ends-enter_time_wait env q _ pc p1) (ends-done q c at p)

    pub ends-time_wait_arrives :
        (k : Segment)
        → is_open q ts_time_wait ≡ true
        → (c : Tcb) (r : Reply) → c.tcb_state ≡ ts_time_wait
        → time_wait_arrives env k c ≡ ok r
        → ends q r ≡ true
    unfolding time_wait_arrives
    ends-time_wait_arrives k p c r at h =
        let acked = tcp_send_ack_pkt env c in
        let t = tcp_timer_slow_cancel acked in
        branch acked.on_slow_list h
          (ends-done q (tcp_timer_slow_set env env.opts.tcpo_twait_to t)
            (Keep.state-tcp_timer_slow_set env env.opts.tcpo_twait_to t
              ∙ Keep.state-tcp_timer_slow_cancel acked
              ∙ Keep.state-tcp_send_ack_pkt env c
              ∙ at)
            p)
          (λ no. cc)

  pub ends-closed_arrives :
      (k : Segment) (c : Tcb) (r : Reply)
      → c.tcb_state ≡ ts_closed
      → is_shut c ≡ true
      → closed_arrives env k c ≡ ok r
      → ends (λ s. state_eq s ts_closed) r ≡ true
  unfolding closed_arrives
  ends-closed_arrives k c r at shut h =
      let acked = record c { tcb_snd = record c.tcb_snd { nxt = k.recv_ack } } in
      let read = record c {
        tcb_rcv = record c.tcb_rcv { nxt = seg_add k.sent_seq (length k.text) };
      } in
      branch k.tcp_flags.rst h (ends-still_shut (count ts_recv_rst c) at shut) (λ h.
        branch k.tcp_flags.ack h
          (ends-still_shut (tcp_send_ctrl_pkt env flags_rst false acked)
            (Keep.state-tcp_send_ctrl_pkt env flags_rst false acked ∙ at)
            (tcp_send_ctrl_pkt-is_shut env flags_rst false acked ∙ shut))
          (ends-still_shut (tcp_send_ctrl_pkt env flags_rst_ack false read)
            (Keep.state-tcp_send_ctrl_pkt env flags_rst_ack false read ∙ at)
            (tcp_send_ctrl_pkt-is_shut env flags_rst_ack false read ∙ shut)))
