-- ===== src/Tcp/Diagram.antt =====
-- The diagram of the states of a connection (RFC 793, figure 6, with the checks of its section 3.9 on RST
-- and SYN), as a table beside the state functions of src/tpg_tcp_sm.c.
use warp.Prelude.{Bool, false, ◌||◌, ◌&&◌, not, some}
use warp.Tcp.{
  Segment, State, ts_init, ts_listen, ts_syn_sent, ts_syn_recv, ts_established, ts_fin_wait_i,
  ts_fin_wait_ii, ts_last_ack, ts_closing, ts_time_wait, ts_close_wait, ts_closed, Event, te_open,
  te_close, te_retransmission_timeout, te_orphan_timeout, te_fin_timeout, te_time_wait_timeout,
  te_segment_arrives,
}
use warp.Tcp.Enter.{state_eq}

-- A segment that resets a synchronized connection: a RST, or a SYN in the window.
abbrev pub resets : Segment → Bool
resets k = k.tcp_flags.rst || k.tcp_flags.syn

-- The states that a segment can lead to, by its flags. A passive close goes through ts_close_wait at
-- once, so that a FIN leads to ts_last_ack: that of the segment, or one that was kept (`kept`) until the
-- text before it came. Where a segment leads to ts_time_wait, an option of the source skips that state for ts_closed.
unfoldable pub segment_leads : (kept : Bool) → State → Segment → State → Bool
segment_leads kept ts_syn_sent k t =
    state_eq t ts_syn_sent
    || (state_eq t ts_syn_recv && k.tcp_flags.syn)
    || (state_eq t ts_established && (k.tcp_flags.syn && k.tcp_flags.ack))
    || (state_eq t ts_closed && (k.tcp_flags.rst && k.tcp_flags.ack))
segment_leads kept ts_syn_recv k t =
    state_eq t ts_syn_recv
    || (state_eq t ts_established && k.tcp_flags.ack)
    || (state_eq t ts_last_ack && (k.tcp_flags.ack && k.tcp_flags.fin))
    || (state_eq t ts_closed && resets k)
segment_leads kept ts_established k t =
    state_eq t ts_established
    || (state_eq t ts_last_ack && (k.tcp_flags.ack && (k.tcp_flags.fin || kept)))
    || (state_eq t ts_closed && resets k)
segment_leads kept ts_fin_wait_i k t =
    state_eq t ts_fin_wait_i
    || (state_eq t ts_fin_wait_ii && k.tcp_flags.ack)
    || (state_eq t ts_closing && (k.tcp_flags.ack && k.tcp_flags.fin))
    || (state_eq t ts_time_wait && (k.tcp_flags.ack && k.tcp_flags.fin))
    || (state_eq t ts_closed && (resets k || (k.tcp_flags.ack && k.tcp_flags.fin)))
segment_leads kept ts_fin_wait_ii k t =
    state_eq t ts_fin_wait_ii
    || (state_eq t ts_time_wait && (k.tcp_flags.ack && k.tcp_flags.fin))
    || (state_eq t ts_closed && (resets k || (k.tcp_flags.ack && k.tcp_flags.fin)))
segment_leads kept ts_last_ack k t =
    state_eq t ts_last_ack || (state_eq t ts_closed && (resets k || k.tcp_flags.ack))
segment_leads kept ts_closing k t =
    state_eq t ts_closing
    || (state_eq t ts_time_wait && k.tcp_flags.ack)
    || (state_eq t ts_closed && (resets k || k.tcp_flags.ack))
segment_leads kept ts_time_wait k t = state_eq t ts_time_wait || (state_eq t ts_closed && resets k)
segment_leads kept ts_close_wait k t =
    state_eq t ts_close_wait || (state_eq t ts_closed && resets k)
segment_leads kept s k t = state_eq t s

-- Where the source leaves the diagram: a RST without an ACK closes a connection in ts_syn_sent.
unfoldable pub bare_reset : State → Segment → State → Bool
bare_reset ts_syn_sent k t = state_eq t ts_closed && (k.tcp_flags.rst && not k.tcp_flags.ack)
bare_reset s k t = false

-- The states that a call or a timeout can lead to.
unfoldable pub call_leads : State → Event → State → Bool
call_leads ts_init te_open t = state_eq t ts_syn_sent || state_eq t ts_listen
call_leads ts_init te_close t = state_eq t ts_closed
call_leads ts_listen te_close t = state_eq t ts_closed
call_leads ts_syn_sent te_close t = state_eq t ts_closed
call_leads ts_syn_sent te_retransmission_timeout t = state_eq t ts_syn_sent || state_eq t ts_closed
call_leads ts_syn_recv te_close t = state_eq t ts_fin_wait_i
call_leads ts_syn_recv te_retransmission_timeout t = state_eq t ts_syn_recv || state_eq t ts_closed
call_leads ts_established te_close t = state_eq t ts_fin_wait_i
call_leads ts_established te_retransmission_timeout t =
    state_eq t ts_established || state_eq t ts_closed
call_leads ts_fin_wait_i te_retransmission_timeout t =
    state_eq t ts_fin_wait_i || state_eq t ts_closed
call_leads ts_fin_wait_i te_orphan_timeout t = state_eq t ts_closed
call_leads ts_fin_wait_ii te_fin_timeout t = state_eq t ts_closed
call_leads ts_last_ack te_retransmission_timeout t = state_eq t ts_last_ack || state_eq t ts_closed
call_leads ts_closing te_retransmission_timeout t = state_eq t ts_closing || state_eq t ts_closed
call_leads ts_time_wait te_time_wait_timeout t = state_eq t ts_closed
call_leads ts_close_wait te_retransmission_timeout t =
    state_eq t ts_close_wait || state_eq t ts_closed
call_leads s e t = state_eq t s

-- The states that a connection can have after an event, with a FIN that was kept before or without.
unfoldable pub may_reach : (kept : Bool) → State → Event → State → Bool
may_reach kept s (te_segment_arrives (some k)) t = bare_reset s k t || segment_leads kept s k t
may_reach kept s e t = call_leads s e t
