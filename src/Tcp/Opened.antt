-- ===== src/Tcp/Opened.antt =====
-- Where an event can lead a connection that is being opened.
use warp.Prelude.{
  ◌≡◌, ◌∙◌, refl, Bool, true, false, ◌&&◌, ◌||◌, not, none, some, ◌==◌, if◌then◌else◌, arith,
}
use warp.Prelude.Outcome.{ok, branch, branch_on, >>=-eq-ok}
use warp.Tcp.{
  State, ts_init, ts_listen, ts_syn_sent, ts_syn_recv, ts_established, ts_last_ack, ts_closed,
  Segment, Tcb, Env, Reply, Flags, ts_recv_rst, ts_recv_syn, sess_closing, success, enotconn,
  enomem, ts_tcb_alloc_err, Event, te_open, te_receive, te_close, te_abort, te_status,
  te_user_timeout, te_retransmission_timeout, te_orphan_timeout, te_fin_timeout,
  te_time_wait_timeout, te_send, te_segment_arrives,
}
use warp.Tcp.Seq.{seg_gt, seg_le, seg_ge}
use warp.Tcp.Send.{
  count, notify, flags_syn, flags_syn_ack, flags_rst_ack, tcp_send_ctrl_pkt, tcp_send_ack_pkt,
}
use warp.Tcp.Data.{tsm_schedule_retransmission, tsm_cleanup_retrans_queu}
use warp.Tcp.Enter.{move, step_una, entered_syn_recv}
use warp.Tcp.Diagram.{segment_leads, bare_reset, call_leads, may_reach}
use warp.Tcp.Opening.{
  tsm_sf_init, tsm_sf_listen, tsm_sf_syn_sent, tsm_sf_syn_recv, accept, start_snd, start_rcv,
  established, syn_received, syn_arrives, syn_sent_arrives, syn_recv_arrives,
}
use warp.Tcp.Arrive.{tsm_need_ack}
use warp.Tcp.Keep
use warp.Tcp.Shut.{state-move}
use warp.Tcp.Transition.{
  ends, is_open, ends-ok, ends-kept, ends-done, ends-enter_closed, ends-enter_listen,
  ends-enter_syn_sent, state-entered_syn_recv, ends-enter_fin_wait_i, ends-enter_close_wait,
  ends-checked,
}

module _ (env : Env) where
  -- A segment that is sent again leaves its timer set.
  pub state_again :
      (f : Flags) (b : Bool) (c : Tcb)
      → (tsm_schedule_retransmission env (tcp_send_ctrl_pkt env f b c)).tcb_state ≡ c.tcb_state
  state_again f b c =
      Keep.state-tsm_schedule_retransmission env (tcp_send_ctrl_pkt env f b c)
      ∙ Keep.state-tcp_send_ctrl_pkt env f b c

  pub tsm_sf_init-ends :
      (b : Bool) (c : Tcb) (e : Event) {r : Reply}
      → c.tcb_state ≡ ts_init
      → tsm_sf_init env c e ≡ ok r
      → ends (may_reach b ts_init e) r ≡ true
  unfolding tsm_sf_init may_reach segment_leads bare_reset call_leads
  tsm_sf_init-ends b c te_open at h =
      branch c.tcb_active h
        (ends-enter_syn_sent env (may_reach b ts_init te_open)
          (tcp_send_ctrl_pkt env flags_syn true (start_snd c)) refl)
        (ends-enter_listen (may_reach b ts_init te_open) c refl)
  tsm_sf_init-ends b c te_receive at h =
      ends-kept (may_reach b ts_init te_receive) enotconn c at refl h
  tsm_sf_init-ends b c te_close at h = ends-enter_closed env (may_reach b ts_init te_close) refl c h
  tsm_sf_init-ends b c te_abort at h = ends-kept (may_reach b ts_init te_abort) success c at refl h
  tsm_sf_init-ends b c te_status at h =
      ends-kept (may_reach b ts_init te_status) success c at refl h
  tsm_sf_init-ends b c te_user_timeout at h =
      ends-kept (may_reach b ts_init te_user_timeout) success c at refl h
  tsm_sf_init-ends b c te_retransmission_timeout at h =
      ends-kept (may_reach b ts_init te_retransmission_timeout) success c at refl h
  tsm_sf_init-ends b c te_orphan_timeout at h =
      ends-kept (may_reach b ts_init te_orphan_timeout) success c at refl h
  tsm_sf_init-ends b c te_fin_timeout at h =
      ends-kept (may_reach b ts_init te_fin_timeout) success c at refl h
  tsm_sf_init-ends b c te_time_wait_timeout at h =
      ends-kept (may_reach b ts_init te_time_wait_timeout) success c at refl h
  tsm_sf_init-ends b c (te_send d) at h =
      ends-kept (may_reach b ts_init (te_send d)) enotconn c at refl h
  tsm_sf_init-ends b c (te_segment_arrives none) at h =
      ends-kept (may_reach b ts_init (te_segment_arrives none)) success c at refl h
  tsm_sf_init-ends b c (te_segment_arrives (some k)) at h =
      ends-kept (may_reach b ts_init (te_segment_arrives (some k))) success c at refl h

  ends-accept :
      (q : State → Bool) (k : Segment) (c : Tcb) {s : State} {r : Reply}
      → c.tcb_state ≡ s
      → is_open q s ≡ true
      → accept env k c ≡ ok r
      → ends q r ≡ true
  unfolding accept
  ends-accept q k c e p h =
      branch (not env.can_alloc) h
        (ends-kept q enomem (count ts_tcb_alloc_err (count ts_recv_syn c)) e p)
        (λ h. branch (not env.can_add) h (ends-ok q _ e p) (ends-ok q _ e p))

  pub tsm_sf_listen-ends :
      (b : Bool) (c : Tcb) (e : Event) {r : Reply}
      → c.tcb_state ≡ ts_listen
      → tsm_sf_listen env c e ≡ ok r
      → ends (may_reach b ts_listen e) r ≡ true
  unfolding tsm_sf_listen may_reach segment_leads bare_reset call_leads
  tsm_sf_listen-ends b c te_open at h =
      ends-kept (may_reach b ts_listen te_open) success c at refl h
  tsm_sf_listen-ends b c te_receive at h =
      ends-kept (may_reach b ts_listen te_receive) enotconn c at refl h
  tsm_sf_listen-ends b c te_close at h =
      ends-enter_closed env (may_reach b ts_listen te_close) refl (notify sess_closing c) h
  tsm_sf_listen-ends b c te_abort at h =
      ends-kept (may_reach b ts_listen te_abort) success c at refl h
  tsm_sf_listen-ends b c te_status at h =
      ends-kept (may_reach b ts_listen te_status) success c at refl h
  tsm_sf_listen-ends b c te_user_timeout at h =
      ends-kept (may_reach b ts_listen te_user_timeout) success c at refl h
  tsm_sf_listen-ends b c te_retransmission_timeout at h =
      ends-kept (may_reach b ts_listen te_retransmission_timeout) success c at refl h
  tsm_sf_listen-ends b c te_orphan_timeout at h =
      ends-kept (may_reach b ts_listen te_orphan_timeout) success c at refl h
  tsm_sf_listen-ends b c te_fin_timeout at h =
      ends-kept (may_reach b ts_listen te_fin_timeout) success c at refl h
  tsm_sf_listen-ends b c te_time_wait_timeout at h =
      ends-kept (may_reach b ts_listen te_time_wait_timeout) success c at refl h
  tsm_sf_listen-ends b c (te_send d) at h =
      ends-kept (may_reach b ts_listen (te_send d)) enotconn c at refl h
  tsm_sf_listen-ends b c (te_segment_arrives none) at h =
      ends-kept (may_reach b ts_listen (te_segment_arrives none)) success c at refl h
  tsm_sf_listen-ends b c (te_segment_arrives (some k)) at h =
      let q = (may_reach b ts_listen (te_segment_arrives (some k))) in
      branch k.tcp_flags.rst h (ends-done q (count ts_recv_rst c) at refl) (λ h.
        branch k.tcp_flags.ack h
          (ends-done q (tcp_send_ctrl_pkt env flags_rst_ack false c)
            (Keep.state-tcp_send_ctrl_pkt env flags_rst_ack false c ∙ at) refl)
          (λ h. branch k.tcp_flags.syn h (ends-accept q k c at refl) (ends-done q c at refl)))

  module _ (q : State → Bool) where
    ends-syn_received :
        (c : Tcb) {r : Reply}
        → is_open q ts_syn_recv ≡ true
        → syn_received env c ≡ ok r
        → ends q r ≡ true
    ends-syn_received c p h =
        let sent = tcp_send_ctrl_pkt env flags_syn_ack true c in
        ends-done q (entered_syn_recv env sent) (state-entered_syn_recv env q sent) p h

    ends-established :
        (c : Tcb) {r : Reply}
        → is_open q ts_established ≡ true
        → established env c ≡ ok r
        → ends q r ≡ true
    ends-established c p h =
        let m = move ts_established c in
        let acked = if tsm_need_ack env then tcp_send_ack_pkt env m else m in
        ends-done q acked
          (ground (arith, Keep.state-tcp_send_ack_pkt env m, state-move ts_established c)) p h

    ends-syn_arrives :
        (k : Segment) (c : Tcb) {r : Reply}
        → is_open q ts_syn_recv ≡ true
        → (k.tcp_flags.ack ≡ true → is_open q ts_established ≡ true)
        → syn_arrives env k c ≡ ok r
        → ends q r ≡ true
    unfolding syn_arrives
    ends-syn_arrives k c p p' h =
        let started = start_rcv k (count ts_recv_syn c) in
        branch_on k.tcp_flags.ack h
          (λ a h.
            let x = >>=-eq-ok (tsm_cleanup_retrans_queu k.recv_ack (step_una started)) _ h in
            branch (seg_gt x.0.tcb_snd.una x.0.tcb_snd.iss) x.2 (ends-established _ (p' a))
              (ends-syn_received x.0 p))
          (λ no. ends-syn_received started p)

    ends-syn_sent_arrives :
        (k : Segment) (c : Tcb) {r : Reply}
        → c.tcb_state ≡ ts_syn_sent
        → is_open q ts_syn_sent ≡ true
        → (k.tcp_flags.syn ≡ true → is_open q ts_syn_recv ≡ true)
        → (k.tcp_flags.syn ≡ true → k.tcp_flags.ack ≡ true → is_open q ts_established ≡ true)
        → (k.tcp_flags.rst ≡ true → q ts_closed ≡ true)
        → syn_sent_arrives env k c ≡ ok r
        → ends q r ≡ true
    unfolding syn_sent_arrives
    ends-syn_sent_arrives k c at p p1 p2 pc h =
        let flags = k.tcp_flags in
        let s = c.tcb_snd in
        branch (flags.ack && (seg_le k.recv_ack s.iss || seg_gt k.recv_ack s.nxt)) h
          (ends-done q
            (if flags.rst then count ts_recv_rst c else tcp_send_ctrl_pkt env flags_rst_ack false c)
            (ground (arith, Keep.state-tcp_send_ctrl_pkt env flags_rst_ack false c)) p)
          (λ h.
            branch (flags.ack && not (seg_ge k.recv_ack s.una && seg_le k.recv_ack s.nxt)) h
              (ends-done q c at p)
              (λ h.
                branch_on flags.rst h (λ rst. ends-enter_closed env q (pc rst) _)
                  (λ no h.
                    branch_on flags.syn h (λ syn. ends-syn_arrives k c (p1 syn) (p2 syn))
                      (λ no. ends-done q c at p))))

    ends-syn_recv_arrives :
        (k : Segment)
        → is_open q ts_syn_recv ≡ true
        → (k.tcp_flags.ack ≡ true → is_open q ts_established ≡ true)
        → (k.tcp_flags.ack ≡ true → k.tcp_flags.fin ≡ true → is_open q ts_last_ack ≡ true)
        → (c : Tcb) (r : Reply) → c.tcb_state ≡ ts_syn_recv
        → syn_recv_arrives env k c ≡ ok r
        → ends q r ≡ true
    unfolding syn_recv_arrives
    ends-syn_recv_arrives k p p1 p2 c r at h =
        branch_on (not k.tcp_flags.ack) h (λ no. ends-done q c at p)
          (λ has h.
            let a : k.tcp_flags.ack ≡ true = ground arith in
            branch (not (seg_ge k.recv_ack c.tcb_snd.una && seg_le k.recv_ack c.tcb_snd.nxt)) h
              (ends-done q (tcp_send_ctrl_pkt env flags_rst_ack false c)
                (Keep.state-tcp_send_ctrl_pkt env flags_rst_ack false c ∙ at) p)
              (λ h.
                branch (seg_gt k.recv_ack c.tcb_snd.una) h
                  (λ h.
                    let x = >>=-eq-ok (tsm_cleanup_retrans_queu k.recv_ack (step_una c)) _ h in
                    branch_on k.tcp_flags.fin x.2 (λ fin. ends-enter_close_wait env q _ (p2 a fin))
                      (λ no. ends-done q _ (state-move ts_established _) (p1 a)))
                  (λ h.
                    branch_on k.tcp_flags.fin h (λ fin. ends-enter_close_wait env q _ (p2 a fin))
                      (λ no. ends-done q _ (state-move ts_established _) (p1 a)))))

  pub tsm_sf_syn_sent-ends :
      (b : Bool) (c : Tcb) (e : Event) {r : Reply}
      → c.tcb_state ≡ ts_syn_sent
      → tsm_sf_syn_sent env c e ≡ ok r
      → ends (may_reach b ts_syn_sent e) r ≡ true
  unfolding tsm_sf_syn_sent may_reach segment_leads bare_reset call_leads
  tsm_sf_syn_sent-ends b c te_open at h =
      ends-kept (may_reach b ts_syn_sent te_open) success c at refl h
  tsm_sf_syn_sent-ends b c te_receive at h =
      ends-kept (may_reach b ts_syn_sent te_receive) enotconn c at refl h
  tsm_sf_syn_sent-ends b c te_close at h =
      ends-enter_closed env (may_reach b ts_syn_sent te_close) refl (notify sess_closing c) h
  tsm_sf_syn_sent-ends b c te_abort at h =
      ends-kept (may_reach b ts_syn_sent te_abort) success c at refl h
  tsm_sf_syn_sent-ends b c te_status at h =
      ends-kept (may_reach b ts_syn_sent te_status) success c at refl h
  tsm_sf_syn_sent-ends b c te_user_timeout at h =
      ends-kept (may_reach b ts_syn_sent te_user_timeout) success c at refl h
  tsm_sf_syn_sent-ends b c te_retransmission_timeout at h =
      let q = (may_reach b ts_syn_sent te_retransmission_timeout) in
      branch (c.tcb_retrans_cnt == env.opts.tcpo_syn_retry_cnt) h (ends-enter_closed env q refl _)
        (ends-done q _ (state_again flags_syn true c ∙ at) refl)
  tsm_sf_syn_sent-ends b c te_orphan_timeout at h =
      ends-kept (may_reach b ts_syn_sent te_orphan_timeout) success c at refl h
  tsm_sf_syn_sent-ends b c te_fin_timeout at h =
      ends-kept (may_reach b ts_syn_sent te_fin_timeout) success c at refl h
  tsm_sf_syn_sent-ends b c te_time_wait_timeout at h =
      ends-kept (may_reach b ts_syn_sent te_time_wait_timeout) success c at refl h
  tsm_sf_syn_sent-ends b c (te_send d) at h =
      ends-kept (may_reach b ts_syn_sent (te_send d)) enotconn c at refl h
  tsm_sf_syn_sent-ends b c (te_segment_arrives none) at h =
      ends-kept (may_reach b ts_syn_sent (te_segment_arrives none)) success c at refl h
  tsm_sf_syn_sent-ends b c (te_segment_arrives (some k)) at h =
      ends-syn_sent_arrives (may_reach b ts_syn_sent (te_segment_arrives (some k))) k c at refl
        (λ syn. ground arith) (λ syn a. ground arith) (λ rst. ground arith) h

  pub tsm_sf_syn_recv-ends :
      (b : Bool) (c : Tcb) (e : Event) {r : Reply}
      → c.tcb_state ≡ ts_syn_recv
      → tsm_sf_syn_recv env c e ≡ ok r
      → ends (may_reach b ts_syn_recv e) r ≡ true
  unfolding tsm_sf_syn_recv may_reach segment_leads bare_reset call_leads
  tsm_sf_syn_recv-ends b c te_open at h =
      ends-kept (may_reach b ts_syn_recv te_open) success c at refl h
  tsm_sf_syn_recv-ends b c te_receive at h =
      ends-kept (may_reach b ts_syn_recv te_receive) enotconn c at refl h
  tsm_sf_syn_recv-ends b c te_close at h =
      ends-enter_fin_wait_i env (may_reach b ts_syn_recv te_close) (notify sess_closing c) refl h
  tsm_sf_syn_recv-ends b c te_abort at h =
      ends-kept (may_reach b ts_syn_recv te_abort) success c at refl h
  tsm_sf_syn_recv-ends b c te_status at h =
      ends-kept (may_reach b ts_syn_recv te_status) success c at refl h
  tsm_sf_syn_recv-ends b c te_user_timeout at h =
      ends-kept (may_reach b ts_syn_recv te_user_timeout) success c at refl h
  tsm_sf_syn_recv-ends b c te_retransmission_timeout at h =
      let q = (may_reach b ts_syn_recv te_retransmission_timeout) in
      branch (c.tcb_retrans_cnt == env.opts.tcpo_syn_ack_retry_cnt) h
        (ends-enter_closed env q refl _)
        (ends-done q _ (state_again flags_syn_ack true c ∙ at) refl)
  tsm_sf_syn_recv-ends b c te_orphan_timeout at h =
      ends-kept (may_reach b ts_syn_recv te_orphan_timeout) success c at refl h
  tsm_sf_syn_recv-ends b c te_fin_timeout at h =
      ends-kept (may_reach b ts_syn_recv te_fin_timeout) success c at refl h
  tsm_sf_syn_recv-ends b c te_time_wait_timeout at h =
      ends-kept (may_reach b ts_syn_recv te_time_wait_timeout) success c at refl h
  tsm_sf_syn_recv-ends b c (te_send d) at h =
      ends-kept (may_reach b ts_syn_recv (te_send d)) enotconn c at refl h
  tsm_sf_syn_recv-ends b c (te_segment_arrives none) at h =
      ends-kept (may_reach b ts_syn_recv (te_segment_arrives none)) success c at refl h
  tsm_sf_syn_recv-ends b c (te_segment_arrives (some k)) at h =
      let q = (may_reach b ts_syn_recv (te_segment_arrives (some k))) in
      ends-checked env q ts_syn_recv refl k (λ e. ground arith) (notify sess_closing)
        syn_recv_arrives c at
        (ends-syn_recv_arrives q k refl (λ a. ground arith) (λ a fin. ground arith) c _ at) h
