-- ===== src/Tcp/Closed.antt =====
-- Where an event can lead a connection that is established or whose FIN is not acknowledged yet.
use warp.Prelude.{◌≡◌, ◌∙◌, refl, Bool, true, none, some, ◌==◌, arith}
use warp.Prelude.Outcome.{ok, branch, >>=-eq-ok}
use warp.Tcp.{
  ts_established, ts_fin_wait_i, ts_fin_wait_ii, Tcb, Env, Reply, sess_closing, success, enotconn,
  Event, te_open, te_receive, te_close, te_abort, te_status, te_user_timeout,
  te_retransmission_timeout, te_orphan_timeout, te_fin_timeout, te_time_wait_timeout, te_send,
  te_segment_arrives,
}
use warp.Tcp.Send.{tcp_timer_slow_cancel, notify}
use warp.Tcp.Diagram.{segment_leads, bare_reset, call_leads, may_reach}
use warp.Tcp.Data.{tsm_retrans_data, tsm_schedule_retransmission}
use warp.Tcp.Closing.{
  estab_text, fin_wait_i_text, fin_wait_ii_text, tsm_sf_estab, tsm_sf_fin_wait_i,
  tsm_sf_fin_wait_ii,
}
use warp.Tcp.Arrive.{acknowledged, up_to_ack, without_fin}
use warp.Tcp.Keep
use warp.Tcp.Transition.{
  ends, ends-kept, ends-done, ends-enter_closed, ends-enter_fin_wait_i, ends-checked,
  ends-acknowledged,
}
use warp.Tcp.Texts.{
  state-fin_retry, ends-send, ends-estab_text, ends-fin_wait_i_text, ends-fin_wait_ii_text,
}

module _ (env : Env) where
  pub tsm_sf_estab-ends :
      (b : Bool) (c : Tcb) (e : Event) {r : Reply}
      → c.tcb_state ≡ ts_established
      → c.tcb_fin_rcvd ≡ b
      → tsm_sf_estab env c e ≡ ok r
      → ends (may_reach b ts_established e) r ≡ true
  unfolding tsm_sf_estab may_reach segment_leads bare_reset call_leads
  tsm_sf_estab-ends b c te_open at kept h =
      ends-kept (may_reach b ts_established te_open) success c at refl h
  tsm_sf_estab-ends b c te_receive at kept h =
      ends-kept (may_reach b ts_established te_receive) success c at refl h
  tsm_sf_estab-ends b c te_close at kept h =
      ends-enter_fin_wait_i env (may_reach b ts_established te_close) (notify sess_closing c) refl h
  tsm_sf_estab-ends b c te_abort at kept h =
      ends-kept (may_reach b ts_established te_abort) success c at refl h
  tsm_sf_estab-ends b c te_status at kept h =
      ends-kept (may_reach b ts_established te_status) success c at refl h
  tsm_sf_estab-ends b c te_user_timeout at kept h =
      ends-kept (may_reach b ts_established te_user_timeout) success c at refl h
  tsm_sf_estab-ends b c te_retransmission_timeout at kept h =
      let q = (may_reach b ts_established te_retransmission_timeout) in
      branch (c.tcb_retrans_cnt == env.opts.tcpo_data_retry_cnt) h (ends-enter_closed env q refl _)
        (λ h.
          let x = >>=-eq-ok (tsm_retrans_data env c) _ h in
          ends-done q (tsm_schedule_retransmission env x.0)
            (Keep.state-tsm_schedule_retransmission env x.0
              ∙ Keep.state-tsm_retrans_data env c x.1
              ∙ at)
            refl x.2)
  tsm_sf_estab-ends b c te_orphan_timeout at kept h =
      ends-kept (may_reach b ts_established te_orphan_timeout) success c at refl h
  tsm_sf_estab-ends b c te_fin_timeout at kept h =
      ends-kept (may_reach b ts_established te_fin_timeout) success c at refl h
  tsm_sf_estab-ends b c te_time_wait_timeout at kept h =
      ends-kept (may_reach b ts_established te_time_wait_timeout) success c at refl h
  tsm_sf_estab-ends b c (te_segment_arrives none) at kept h =
      ends-kept (may_reach b ts_established (te_segment_arrives none)) success c at refl h
  tsm_sf_estab-ends b c (te_segment_arrives (some k)) at kept h =
      let q = (may_reach b ts_established (te_segment_arrives (some k))) in
      ends-checked env q ts_established refl k (λ e. ground arith) (notify sess_closing)
        (acknowledged up_to_ack estab_text) c at
        (ends-acknowledged env q ts_established refl k up_to_ack estab_text c at
          (λ t a at same. ends-estab_text env q k t refl (λ fin. ground arith) at))
        h
  tsm_sf_estab-ends b c (te_send none) at kept h =
      ends-kept (may_reach b ts_established (te_send none)) success c at refl h
  tsm_sf_estab-ends b c (te_send (some d)) at kept h =
      ends-send env (may_reach b ts_established (te_send (some d))) d c at refl h

  pub tsm_sf_fin_wait_i-ends :
      (b : Bool) (c : Tcb) (e : Event) {r : Reply}
      → c.tcb_state ≡ ts_fin_wait_i
      → tsm_sf_fin_wait_i env c e ≡ ok r
      → ends (may_reach b ts_fin_wait_i e) r ≡ true
  unfolding tsm_sf_fin_wait_i may_reach segment_leads bare_reset call_leads
  tsm_sf_fin_wait_i-ends b c te_open at h =
      ends-kept (may_reach b ts_fin_wait_i te_open) enotconn c at refl h
  tsm_sf_fin_wait_i-ends b c te_receive at h =
      ends-kept (may_reach b ts_fin_wait_i te_receive) enotconn c at refl h
  tsm_sf_fin_wait_i-ends b c te_close at h =
      ends-kept (may_reach b ts_fin_wait_i te_close) enotconn c at refl h
  tsm_sf_fin_wait_i-ends b c te_abort at h =
      ends-kept (may_reach b ts_fin_wait_i te_abort) success c at refl h
  tsm_sf_fin_wait_i-ends b c te_status at h =
      ends-kept (may_reach b ts_fin_wait_i te_status) success c at refl h
  tsm_sf_fin_wait_i-ends b c te_user_timeout at h =
      ends-kept (may_reach b ts_fin_wait_i te_user_timeout) success c at refl h
  tsm_sf_fin_wait_i-ends b c te_retransmission_timeout at h =
      let q = (may_reach b ts_fin_wait_i te_retransmission_timeout) in
      branch (c.tcb_retrans_cnt == env.opts.tcpo_retry_cnt) h (ends-enter_closed env q refl _)
        (ends-done q _ (state-fin_retry env c ∙ at) refl)
  tsm_sf_fin_wait_i-ends b c te_orphan_timeout at h =
      ends-enter_closed env (may_reach b ts_fin_wait_i te_orphan_timeout) refl c h
  tsm_sf_fin_wait_i-ends b c te_fin_timeout at h =
      ends-kept (may_reach b ts_fin_wait_i te_fin_timeout) success c at refl h
  tsm_sf_fin_wait_i-ends b c te_time_wait_timeout at h =
      ends-kept (may_reach b ts_fin_wait_i te_time_wait_timeout) success c at refl h
  tsm_sf_fin_wait_i-ends b c (te_send d) at h =
      ends-kept (may_reach b ts_fin_wait_i (te_send d)) enotconn c at refl h
  tsm_sf_fin_wait_i-ends b c (te_segment_arrives none) at h =
      ends-kept (may_reach b ts_fin_wait_i (te_segment_arrives none)) success c at refl h
  tsm_sf_fin_wait_i-ends b c (te_segment_arrives (some k)) at h =
      let q = (may_reach b ts_fin_wait_i (te_segment_arrives (some k))) in
      ends-checked env q ts_fin_wait_i refl k (λ e. ground arith) tcp_timer_slow_cancel
        (acknowledged without_fin fin_wait_i_text) c at
        (ends-acknowledged env q ts_fin_wait_i refl k without_fin fin_wait_i_text c at
          (λ t a at same.
            ends-fin_wait_i_text env q k refl (ground arith) (λ fin. ground arith)
              (λ fin. ground arith) (λ fin. ground arith) t _ at))
        h

  pub tsm_sf_fin_wait_ii-ends :
      (b : Bool) (c : Tcb) (e : Event) {r : Reply}
      → c.tcb_state ≡ ts_fin_wait_ii
      → tsm_sf_fin_wait_ii env c e ≡ ok r
      → ends (may_reach b ts_fin_wait_ii e) r ≡ true
  unfolding tsm_sf_fin_wait_ii may_reach segment_leads bare_reset call_leads
  tsm_sf_fin_wait_ii-ends b c te_open at h =
      ends-kept (may_reach b ts_fin_wait_ii te_open) enotconn c at refl h
  tsm_sf_fin_wait_ii-ends b c te_receive at h =
      ends-kept (may_reach b ts_fin_wait_ii te_receive) enotconn c at refl h
  tsm_sf_fin_wait_ii-ends b c te_close at h =
      ends-kept (may_reach b ts_fin_wait_ii te_close) enotconn c at refl h
  tsm_sf_fin_wait_ii-ends b c te_abort at h =
      ends-kept (may_reach b ts_fin_wait_ii te_abort) success c at refl h
  tsm_sf_fin_wait_ii-ends b c te_status at h =
      ends-kept (may_reach b ts_fin_wait_ii te_status) success c at refl h
  tsm_sf_fin_wait_ii-ends b c te_user_timeout at h =
      ends-kept (may_reach b ts_fin_wait_ii te_user_timeout) success c at refl h
  tsm_sf_fin_wait_ii-ends b c te_retransmission_timeout at h =
      ends-kept (may_reach b ts_fin_wait_ii te_retransmission_timeout) success c at refl h
  tsm_sf_fin_wait_ii-ends b c te_orphan_timeout at h =
      ends-kept (may_reach b ts_fin_wait_ii te_orphan_timeout) success c at refl h
  tsm_sf_fin_wait_ii-ends b c te_fin_timeout at h =
      ends-enter_closed env (may_reach b ts_fin_wait_ii te_fin_timeout) refl c h
  tsm_sf_fin_wait_ii-ends b c te_time_wait_timeout at h =
      ends-kept (may_reach b ts_fin_wait_ii te_time_wait_timeout) success c at refl h
  tsm_sf_fin_wait_ii-ends b c (te_send d) at h =
      ends-kept (may_reach b ts_fin_wait_ii (te_send d)) enotconn c at refl h
  tsm_sf_fin_wait_ii-ends b c (te_segment_arrives none) at h =
      ends-kept (may_reach b ts_fin_wait_ii (te_segment_arrives none)) success c at refl h
  tsm_sf_fin_wait_ii-ends b c (te_segment_arrives (some k)) at h =
      let q = (may_reach b ts_fin_wait_ii (te_segment_arrives (some k))) in
      ends-checked env q ts_fin_wait_ii refl k (λ e. ground arith) tcp_timer_slow_cancel
        (acknowledged up_to_ack fin_wait_ii_text) c at
        (ends-acknowledged env q ts_fin_wait_ii refl k up_to_ack fin_wait_ii_text c at
          (λ t a at same.
            ends-fin_wait_ii_text env q k refl (λ fin. ground arith) (λ fin. ground arith) t _ at))
        h
