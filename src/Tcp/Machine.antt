-- ===== src/Tcp/Machine.antt =====
-- The table of the state functions and the dispatch of an event: `tsm_dispatch_event` of src/tpg_tcp_sm.c.
use warp.Prelude.Outcome.{Outcome}
use warp.Tcp.{
  State, ts_init, ts_listen, ts_syn_sent, ts_syn_recv, ts_established, ts_fin_wait_i,
  ts_fin_wait_ii, ts_last_ack, ts_closing, ts_time_wait, ts_close_wait, ts_closed, Event, Tcb, Env,
  Reply,
}
use warp.Tcp.Opening.{tsm_sf_init, tsm_sf_listen, tsm_sf_syn_sent, tsm_sf_syn_recv}
use warp.Tcp.Closing.{
  tsm_sf_estab, tsm_sf_fin_wait_i, tsm_sf_fin_wait_ii, tsm_sf_last_ack, tsm_sf_closing,
  tsm_sf_time_wait, tsm_sf_close_wait, tsm_sf_closed,
}

-- `tsm_function_array`.
abbrev pub state_function : State → Env → Tcb → Event → Outcome Reply
state_function ts_init = tsm_sf_init
state_function ts_listen = tsm_sf_listen
state_function ts_syn_sent = tsm_sf_syn_sent
state_function ts_syn_recv = tsm_sf_syn_recv
state_function ts_established = tsm_sf_estab
state_function ts_fin_wait_i = tsm_sf_fin_wait_i
state_function ts_fin_wait_ii = tsm_sf_fin_wait_ii
state_function ts_last_ack = tsm_sf_last_ack
state_function ts_closing = tsm_sf_closing
state_function ts_time_wait = tsm_sf_time_wait
state_function ts_close_wait = tsm_sf_close_wait
state_function ts_closed = tsm_sf_closed

-- `tsm_dispatch_event`.
unfoldable pub tsm_dispatch_event : Env → Tcb → Event → Outcome Reply
tsm_dispatch_event env c e = state_function c.tcb_state env c e
