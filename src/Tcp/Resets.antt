-- ===== src/Tcp/Resets.antt =====
-- The reset of a synchronized connection (the checks on RST and SYN of the state functions of
-- src/tpg_tcp_sm.c).
use warp.Prelude.{
  ◌≡◌, ◌∙◌, refl, Bool, true, false, inl, inr, Bool-cases, none, some, length, arith,
}
use warp.Prelude.Outcome.{Outcome, ok}
use warp.Tcp.{
  State, ts_syn_recv, ts_established, ts_fin_wait_i, ts_fin_wait_ii, ts_last_ack, ts_closing,
  ts_time_wait, ts_close_wait, ts_closed, Segment, Tcb, Env, Reply, te_segment_arrives, ts_recv_rst,
  ts_recv_syn, sess_closed, success, ts_init, ts_listen, ts_syn_sent,
}
use warp.Tcp.Seq.{acceptance_test}
use warp.Tcp.Send.{count, notify}
use warp.Tcp.Enter.{move, close_silent, enter_closed}
use warp.Tcp.Arrive.{checked}
use warp.Tcp.Opening.{tsm_sf_syn_recv}
use warp.Tcp.Closing.{
  tsm_sf_estab, tsm_sf_fin_wait_i, tsm_sf_fin_wait_ii, tsm_sf_last_ack, tsm_sf_closing,
  tsm_sf_time_wait, tsm_sf_close_wait,
}
use warp.Tcp.Machine.{state_function, tsm_dispatch_event}
use warp.Tcp.Shut.{state-enter_closed}
use warp.Tcp.Diagram.{resets}

-- The states of a connection in which both sides know the numbers of the other.
unfoldable pub is_synchronized : State → Bool
is_synchronized ts_syn_recv = true
is_synchronized ts_established = true
is_synchronized ts_fin_wait_i = true
is_synchronized ts_fin_wait_ii = true
is_synchronized ts_last_ack = true
is_synchronized ts_closing = true
is_synchronized ts_time_wait = true
is_synchronized ts_close_wait = true
is_synchronized _ = false

-- The entry of ts_closed always ends.
abbrev closed_reply : Env → Tcb → Reply
closed_reply env t = record {
  tcb = close_silent env (notify sess_closed (move ts_closed t));
  child = none;
  code = success;
}

closes : (env : Env) (t : Tcb) → enter_closed env t ≡ ok (closed_reply env t)
unfolding enter_closed
closes env t = refl

module _ (env : Env) (k : Segment) (c : Tcb)
    (accepted : acceptance_test c.tcb_rcv.nxt c.tcb_rcv.wnd (length k.text) k.sent_seq ≡ true)
    (reset : resets k ≡ true) where
  checked-closes :
      (before : Tcb → Tcb) (next : Env → Segment → Tcb → Outcome Reply)
      → (r : Reply) × (checked before next env k c ≡ ok r) × (r.tcb.tcb_state ≡ ts_closed)
  unfolding checked
  checked-closes before next = elim (Bool-cases k.tcp_flags.rst) [
    | inl e ↦
        let t = before (record (count ts_recv_rst c) { tcb_rst_rcvd = true }) in
        let same : checked before next env k c ≡ enter_closed env t = rw (accepted, e) refl in
        (closed_reply env t, same ∙ closes env t, state-enter_closed env t (closes env t))
    | inr e ↦
        let syn : k.tcp_flags.syn ≡ true = ground arith in
        let t = before (count ts_recv_syn c) in
        let same : checked before next env k c ≡ enter_closed env t = rw (accepted, e, syn) refl in
        (closed_reply env t, same ∙ closes env t, state-enter_closed env t (closes env t))
  ]

  state-closes :
      (s : State)
      → is_synchronized s ≡ true
      → (r : Reply) × (state_function s env c (te_segment_arrives (some k)) ≡ ok r)
        × (r.tcb.tcb_state ≡ ts_closed)
  unfolding is_synchronized tsm_sf_syn_recv tsm_sf_estab tsm_sf_fin_wait_i tsm_sf_fin_wait_ii
      tsm_sf_last_ack tsm_sf_closing tsm_sf_time_wait tsm_sf_close_wait
  state-closes ts_syn_recv p = checked-closes _ _
  state-closes ts_established p = checked-closes _ _
  state-closes ts_fin_wait_i p = checked-closes _ _
  state-closes ts_fin_wait_ii p = checked-closes _ _
  state-closes ts_last_ack p = checked-closes _ _
  state-closes ts_closing p = checked-closes _ _
  state-closes ts_time_wait p = checked-closes _ _
  state-closes ts_close_wait p = checked-closes _ _
  state-closes ts_init p = cc
  state-closes ts_listen p = cc
  state-closes ts_syn_sent p = cc
  state-closes ts_closed p = cc

-- A segment with a RST or a SYN that passes the acceptance test is handled without a fault and closes the
-- connection, in any state of a synchronized connection (from ts_syn_recv to ts_time_wait).
pub dispatch-closed :
    (env : Env) (k : Segment) (c : Tcb)
    → is_synchronized c.tcb_state ≡ true
    → acceptance_test c.tcb_rcv.nxt c.tcb_rcv.wnd (length k.text) k.sent_seq ≡ true
    → resets k ≡ true
    → (r : Reply) × (tsm_dispatch_event env c (te_segment_arrives (some k)) ≡ ok r)
      × (r.tcb.tcb_state ≡ ts_closed)
unfolding tsm_dispatch_event
dispatch-closed env k c p accepted reset = state-closes env k c accepted reset c.tcb_state p
