-- ===== src/Tcp/Conformance.antt =====
-- The machine against the diagram of its states, for one event (`tsm_dispatch_event` of
-- src/tpg_tcp_sm.c) and for the events of the life of a connection.
use warp.Prelude.{◌≡◌, refl, true, List, [], ◌∷◌, arith}
use warp.Prelude.Outcome.{Outcome, ok, ◌>>=◌, >>=-eq-ok}
use warp.Tcp.{
  State, ts_init, ts_listen, ts_syn_sent, ts_syn_recv, ts_established, ts_fin_wait_i,
  ts_fin_wait_ii, ts_last_ack, ts_closing, ts_time_wait, ts_close_wait, ts_closed, Tcb, Env, Reply,
  Event,
}
use warp.Tcp.Machine.{state_function, tsm_dispatch_event}
use warp.Tcp.Shut.{is_shut}
use warp.Tcp.Transition.{shut_if_closed, ends}
use warp.Tcp.Diagram.{may_reach}
use warp.Tcp.Opened.{
  tsm_sf_init-ends, tsm_sf_listen-ends, tsm_sf_syn_sent-ends, tsm_sf_syn_recv-ends,
}
use warp.Tcp.Closed.{tsm_sf_estab-ends, tsm_sf_fin_wait_i-ends, tsm_sf_fin_wait_ii-ends}
use warp.Tcp.Ended.{
  tsm_sf_last_ack-ends, tsm_sf_closing-ends, tsm_sf_time_wait-ends, tsm_sf_close_wait-ends,
  tsm_sf_closed-ends,
}

state_function-ends :
    (env : Env) (s : State) (c : Tcb) (e : Event) {r : Reply}
    → c.tcb_state ≡ s
    → shut_if_closed c ≡ true
    → state_function s env c e ≡ ok r
    → ends (may_reach c.tcb_fin_rcvd s e) r ≡ true
state_function-ends env ts_init c e at w h = tsm_sf_init-ends env c.tcb_fin_rcvd c e at h
state_function-ends env ts_listen c e at w h = tsm_sf_listen-ends env c.tcb_fin_rcvd c e at h
state_function-ends env ts_syn_sent c e at w h = tsm_sf_syn_sent-ends env c.tcb_fin_rcvd c e at h
state_function-ends env ts_syn_recv c e at w h = tsm_sf_syn_recv-ends env c.tcb_fin_rcvd c e at h
state_function-ends env ts_established c e at w h =
    tsm_sf_estab-ends env c.tcb_fin_rcvd c e at refl h
state_function-ends env ts_fin_wait_i c e at w h =
    tsm_sf_fin_wait_i-ends env c.tcb_fin_rcvd c e at h
state_function-ends env ts_fin_wait_ii c e at w h =
    tsm_sf_fin_wait_ii-ends env c.tcb_fin_rcvd c e at h
state_function-ends env ts_last_ack c e at w h = tsm_sf_last_ack-ends env c.tcb_fin_rcvd c e at h
state_function-ends env ts_closing c e at w h = tsm_sf_closing-ends env c.tcb_fin_rcvd c e at h
state_function-ends env ts_time_wait c e at w h = tsm_sf_time_wait-ends env c.tcb_fin_rcvd c e at h
state_function-ends env ts_close_wait c e at w h =
    tsm_sf_close_wait-ends env c.tcb_fin_rcvd c e at h
state_function-ends env ts_closed c e at w h =
    tsm_sf_closed-ends env c.tcb_fin_rcvd c e at (rw at at w) h

dispatch-shut_if_closed :
    (env : Env) (c : Tcb) (e : Event) (r : Reply)
    → shut_if_closed c ≡ true
    → tsm_dispatch_event env c e ≡ ok r
    → shut_if_closed r.tcb ≡ true
unfolding tsm_dispatch_event
dispatch-shut_if_closed env c e r w h =
    let x = state_function-ends env c.tcb_state c e refl w h in unfold ends in ground (arith, x)

-- The events of the life of a connection, each with what the outside is like then.
unfoldable pub run : List (Env × Event) → Tcb → Outcome Tcb
run [] c = ok c
run ((env, e) ∷ es) c = do r ← tsm_dispatch_event env c e; run es r.tcb

run-shut_if_closed :
    (es : List (Env × Event)) (c t : Tcb)
    → shut_if_closed c ≡ true
    → run es c ≡ ok t
    → shut_if_closed t ≡ true
unfolding run
run-shut_if_closed [] c t w h = ground arith
run-shut_if_closed ((env, e) ∷ es) c t w h =
    let x = >>=-eq-ok (tsm_dispatch_event env c e) _ h in
    run-shut_if_closed es x.0.tcb t (dispatch-shut_if_closed env c e x.0 w x.1) x.2

-- A connection that starts in ts_init and is in ts_closed after any events that are handled without a
-- fault has no timer set, no data kept and no place in the table, and its memory is given back if it was
-- allocated.
pub run-is_shut :
    (es : List (Env × Event)) (c t : Tcb)
    → c.tcb_state ≡ ts_init
    → run es c ≡ ok t
    → t.tcb_state ≡ ts_closed
    → is_shut t ≡ true
run-is_shut es c t start h closed =
    let w = run-shut_if_closed es c t (rw start refl) h in rw closed at w
