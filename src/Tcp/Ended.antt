-- ===== src/Tcp/Ended.antt =====
-- Where an event can lead a connection whose FIN is sent and that waits for the last segments, or that is
-- closed.
use warp.Prelude.{◌≡◌, ◌∙◌, refl, Bool, true, none, some, ◌==◌, arith}
use warp.Prelude.Outcome.{ok, branch, >>=-eq-ok}
use warp.Tcp.{
  ts_last_ack, ts_closing, ts_time_wait, ts_close_wait, ts_closed, Tcb, Env, Reply, success,
  enotconn, Event, te_open, te_receive, te_close, te_abort, te_status, te_user_timeout,
  te_retransmission_timeout, te_orphan_timeout, te_fin_timeout, te_time_wait_timeout, te_send,
  te_segment_arrives,
}
use warp.Tcp.Diagram.{segment_leads, bare_reset, call_leads, may_reach}
use warp.Tcp.Data.{tsm_retrans_data}
use warp.Tcp.Closing.{
  same, fin_again, last_ack_arrives, closing_acked, time_wait_arrives, only_done, tsm_sf_last_ack,
  tsm_sf_closing, tsm_sf_time_wait, tsm_sf_close_wait, tsm_sf_closed,
}
use warp.Tcp.Arrive.{acknowledged, up_to_ack, without_fin}
use warp.Tcp.Keep
use warp.Tcp.Shut.{is_shut}
use warp.Tcp.Transition.{
  ends, ends-kept, ends-done, ends-enter_closed, ends-checked, ends-acknowledged,
}
use warp.Tcp.Texts.{
  state-fin_again, state-fin_retry, ends-send, ends-last_ack_arrives, ends-closing_acked,
  ends-time_wait_arrives, ends-closed_arrives, ends-still_shut,
}

module _ (env : Env) where
  pub tsm_sf_last_ack-ends :
      (b : Bool) (c : Tcb) (e : Event) {r : Reply}
      → c.tcb_state ≡ ts_last_ack
      → tsm_sf_last_ack env c e ≡ ok r
      → ends (may_reach b ts_last_ack e) r ≡ true
  unfolding tsm_sf_last_ack may_reach segment_leads bare_reset call_leads
  tsm_sf_last_ack-ends b c te_open at h =
      ends-kept (may_reach b ts_last_ack te_open) enotconn c at refl h
  tsm_sf_last_ack-ends b c te_receive at h =
      ends-kept (may_reach b ts_last_ack te_receive) enotconn c at refl h
  tsm_sf_last_ack-ends b c te_close at h =
      ends-kept (may_reach b ts_last_ack te_close) enotconn c at refl h
  tsm_sf_last_ack-ends b c te_abort at h =
      ends-kept (may_reach b ts_last_ack te_abort) success c at refl h
  tsm_sf_last_ack-ends b c te_status at h =
      ends-kept (may_reach b ts_last_ack te_status) success c at refl h
  tsm_sf_last_ack-ends b c te_user_timeout at h =
      ends-kept (may_reach b ts_last_ack te_user_timeout) success c at refl h
  tsm_sf_last_ack-ends b c te_retransmission_timeout at h =
      let q = (may_reach b ts_last_ack te_retransmission_timeout) in
      branch (c.tcb_retrans_cnt == env.opts.tcpo_retry_cnt) h (ends-enter_closed env q refl _)
        (ends-done q _ (state-fin_retry env c ∙ at) refl)
  tsm_sf_last_ack-ends b c te_orphan_timeout at h =
      ends-kept (may_reach b ts_last_ack te_orphan_timeout) success c at refl h
  tsm_sf_last_ack-ends b c te_fin_timeout at h =
      ends-kept (may_reach b ts_last_ack te_fin_timeout) success c at refl h
  tsm_sf_last_ack-ends b c te_time_wait_timeout at h =
      ends-kept (may_reach b ts_last_ack te_time_wait_timeout) success c at refl h
  tsm_sf_last_ack-ends b c (te_send d) at h =
      ends-kept (may_reach b ts_last_ack (te_send d)) enotconn c at refl h
  tsm_sf_last_ack-ends b c (te_segment_arrives none) at h =
      ends-kept (may_reach b ts_last_ack (te_segment_arrives none)) success c at refl h
  tsm_sf_last_ack-ends b c (te_segment_arrives (some k)) at h =
      let q = (may_reach b ts_last_ack (te_segment_arrives (some k))) in
      ends-checked env q ts_last_ack refl k (λ e. ground arith) same last_ack_arrives c at
        (ends-last_ack_arrives env q k refl (λ a. ground arith) c _ at) h

  pub tsm_sf_closing-ends :
      (b : Bool) (c : Tcb) (e : Event) {r : Reply}
      → c.tcb_state ≡ ts_closing
      → tsm_sf_closing env c e ≡ ok r
      → ends (may_reach b ts_closing e) r ≡ true
  unfolding tsm_sf_closing may_reach segment_leads bare_reset call_leads
  tsm_sf_closing-ends b c te_open at h =
      ends-kept (may_reach b ts_closing te_open) enotconn c at refl h
  tsm_sf_closing-ends b c te_receive at h =
      ends-kept (may_reach b ts_closing te_receive) enotconn c at refl h
  tsm_sf_closing-ends b c te_close at h =
      ends-kept (may_reach b ts_closing te_close) enotconn c at refl h
  tsm_sf_closing-ends b c te_abort at h =
      ends-kept (may_reach b ts_closing te_abort) success c at refl h
  tsm_sf_closing-ends b c te_status at h =
      ends-kept (may_reach b ts_closing te_status) success c at refl h
  tsm_sf_closing-ends b c te_user_timeout at h =
      ends-kept (may_reach b ts_closing te_user_timeout) success c at refl h
  tsm_sf_closing-ends b c te_retransmission_timeout at h =
      let q = (may_reach b ts_closing te_retransmission_timeout) in
      branch (c.tcb_retrans_cnt == env.opts.tcpo_retry_cnt) h (ends-enter_closed env q refl _)
        (ends-done q _ (state-fin_retry env c ∙ at) refl)
  tsm_sf_closing-ends b c te_orphan_timeout at h =
      ends-kept (may_reach b ts_closing te_orphan_timeout) success c at refl h
  tsm_sf_closing-ends b c te_fin_timeout at h =
      ends-kept (may_reach b ts_closing te_fin_timeout) success c at refl h
  tsm_sf_closing-ends b c te_time_wait_timeout at h =
      ends-kept (may_reach b ts_closing te_time_wait_timeout) success c at refl h
  tsm_sf_closing-ends b c (te_send d) at h =
      ends-kept (may_reach b ts_closing (te_send d)) enotconn c at refl h
  tsm_sf_closing-ends b c (te_segment_arrives none) at h =
      ends-kept (may_reach b ts_closing (te_segment_arrives none)) success c at refl h
  tsm_sf_closing-ends b c (te_segment_arrives (some k)) at h =
      let q = (may_reach b ts_closing (te_segment_arrives (some k))) in
      ends-checked env q ts_closing refl k (λ e. ground arith) same
        (acknowledged without_fin closing_acked) c at
        (ends-acknowledged env q ts_closing refl k without_fin closing_acked c at
          (λ t a at same. ends-closing_acked env q k refl (ground arith) (ground arith) t _ at))
        h

  pub tsm_sf_time_wait-ends :
      (b : Bool) (c : Tcb) (e : Event) {r : Reply}
      → c.tcb_state ≡ ts_time_wait
      → tsm_sf_time_wait env c e ≡ ok r
      → ends (may_reach b ts_time_wait e) r ≡ true
  unfolding tsm_sf_time_wait may_reach segment_leads bare_reset call_leads
  tsm_sf_time_wait-ends b c te_open at h =
      ends-kept (may_reach b ts_time_wait te_open) enotconn c at refl h
  tsm_sf_time_wait-ends b c te_receive at h =
      ends-kept (may_reach b ts_time_wait te_receive) enotconn c at refl h
  tsm_sf_time_wait-ends b c te_close at h =
      ends-kept (may_reach b ts_time_wait te_close) enotconn c at refl h
  tsm_sf_time_wait-ends b c te_abort at h =
      ends-kept (may_reach b ts_time_wait te_abort) success c at refl h
  tsm_sf_time_wait-ends b c te_status at h =
      ends-kept (may_reach b ts_time_wait te_status) success c at refl h
  tsm_sf_time_wait-ends b c te_user_timeout at h =
      ends-kept (may_reach b ts_time_wait te_user_timeout) success c at refl h
  tsm_sf_time_wait-ends b c te_retransmission_timeout at h =
      ends-kept (may_reach b ts_time_wait te_retransmission_timeout) success c at refl h
  tsm_sf_time_wait-ends b c te_orphan_timeout at h =
      ends-kept (may_reach b ts_time_wait te_orphan_timeout) success c at refl h
  tsm_sf_time_wait-ends b c te_fin_timeout at h =
      ends-kept (may_reach b ts_time_wait te_fin_timeout) success c at refl h
  tsm_sf_time_wait-ends b c te_time_wait_timeout at h =
      ends-enter_closed env (may_reach b ts_time_wait te_time_wait_timeout) refl c h
  tsm_sf_time_wait-ends b c (te_send d) at h =
      ends-kept (may_reach b ts_time_wait (te_send d)) enotconn c at refl h
  tsm_sf_time_wait-ends b c (te_segment_arrives none) at h =
      ends-kept (may_reach b ts_time_wait (te_segment_arrives none)) success c at refl h
  tsm_sf_time_wait-ends b c (te_segment_arrives (some k)) at h =
      let q = (may_reach b ts_time_wait (te_segment_arrives (some k))) in
      ends-checked env q ts_time_wait refl k (λ e. ground arith) same time_wait_arrives c at
        (ends-time_wait_arrives env q k refl c _ at) h

  pub tsm_sf_close_wait-ends :
      (b : Bool) (c : Tcb) (e : Event) {r : Reply}
      → c.tcb_state ≡ ts_close_wait
      → tsm_sf_close_wait env c e ≡ ok r
      → ends (may_reach b ts_close_wait e) r ≡ true
  unfolding tsm_sf_close_wait may_reach segment_leads bare_reset call_leads
  tsm_sf_close_wait-ends b c te_open at h =
      ends-kept (may_reach b ts_close_wait te_open) success c at refl h
  tsm_sf_close_wait-ends b c te_receive at h =
      ends-kept (may_reach b ts_close_wait te_receive) success c at refl h
  tsm_sf_close_wait-ends b c te_close at h =
      ends-kept (may_reach b ts_close_wait te_close) success c at refl h
  tsm_sf_close_wait-ends b c te_abort at h =
      ends-kept (may_reach b ts_close_wait te_abort) success c at refl h
  tsm_sf_close_wait-ends b c te_status at h =
      ends-kept (may_reach b ts_close_wait te_status) success c at refl h
  tsm_sf_close_wait-ends b c te_user_timeout at h =
      ends-kept (may_reach b ts_close_wait te_user_timeout) success c at refl h
  tsm_sf_close_wait-ends b c te_retransmission_timeout at h =
      let q = (may_reach b ts_close_wait te_retransmission_timeout) in
      branch (c.tcb_retrans_cnt == env.opts.tcpo_retry_cnt) h (ends-enter_closed env q refl _) (λ h.
        let x = >>=-eq-ok (tsm_retrans_data env c) _ h in
        ends-done q (fin_again env x.0)
          (state-fin_again env x.0 ∙ Keep.state-tsm_retrans_data env c x.1 ∙ at) refl x.2)
  tsm_sf_close_wait-ends b c te_orphan_timeout at h =
      ends-kept (may_reach b ts_close_wait te_orphan_timeout) success c at refl h
  tsm_sf_close_wait-ends b c te_fin_timeout at h =
      ends-kept (may_reach b ts_close_wait te_fin_timeout) success c at refl h
  tsm_sf_close_wait-ends b c te_time_wait_timeout at h =
      ends-kept (may_reach b ts_close_wait te_time_wait_timeout) success c at refl h
  tsm_sf_close_wait-ends b c (te_segment_arrives none) at h =
      ends-kept (may_reach b ts_close_wait (te_segment_arrives none)) success c at refl h
  tsm_sf_close_wait-ends b c (te_segment_arrives (some k)) at h =
      let q = (may_reach b ts_close_wait (te_segment_arrives (some k))) in
      ends-checked env q ts_close_wait refl k (λ e. ground arith) same
        (acknowledged up_to_ack only_done) c at
        (ends-acknowledged env q ts_close_wait refl k up_to_ack only_done c at
          (λ t a at same. ends-done q t at refl))
        h
  tsm_sf_close_wait-ends b c (te_send none) at h =
      ends-kept (may_reach b ts_close_wait (te_send none)) success c at refl h
  tsm_sf_close_wait-ends b c (te_send (some d)) at h =
      ends-send env (may_reach b ts_close_wait (te_send (some d))) d c at refl h

  pub tsm_sf_closed-ends :
      (b : Bool) (c : Tcb) (e : Event) {r : Reply}
      → c.tcb_state ≡ ts_closed
      → is_shut c ≡ true
      → tsm_sf_closed env c e ≡ ok r
      → ends (may_reach b ts_closed e) r ≡ true
  unfolding tsm_sf_closed may_reach segment_leads bare_reset call_leads
  tsm_sf_closed-ends b c te_open at shut h = ends-still_shut c at shut h
  tsm_sf_closed-ends b c te_receive at shut h = ends-still_shut c at shut h
  tsm_sf_closed-ends b c te_close at shut h = ends-still_shut c at shut h
  tsm_sf_closed-ends b c te_abort at shut h = ends-still_shut c at shut h
  tsm_sf_closed-ends b c te_status at shut h = ends-still_shut c at shut h
  tsm_sf_closed-ends b c te_user_timeout at shut h = ends-still_shut c at shut h
  tsm_sf_closed-ends b c te_retransmission_timeout at shut h = ends-still_shut c at shut h
  tsm_sf_closed-ends b c te_orphan_timeout at shut h = ends-still_shut c at shut h
  tsm_sf_closed-ends b c te_fin_timeout at shut h = ends-still_shut c at shut h
  tsm_sf_closed-ends b c te_time_wait_timeout at shut h = ends-still_shut c at shut h
  tsm_sf_closed-ends b c (te_segment_arrives none) at shut h = ends-still_shut c at shut h
  tsm_sf_closed-ends b c (te_segment_arrives (some k)) at shut h =
      ends-closed_arrives env k c _ at shut h
  tsm_sf_closed-ends b c (te_send d) at shut h = ends-still_shut c at shut h
