-- ===== src/Tcp/View.antt =====
-- What of a connection its peer can tell: its state, its numbers, its data, and the last segment that it
-- handed to the driver; how the parts of the machine change it.
use warp.Prelude.{◌≡◌, true, false, Option, none, some, List, [], ◌∷◌, arith}
use warp.Tcp.{State, Segment, Snd, Rcv, Tcb, Env, Effect, pkt, notif, inc, dec, data_sent}
use warp.Tcp.Send.{
  flags_syn, flags_syn_ack, flags_ack, tcp_build_hdr, tcp_send_pkt, tcp_send_ctrl_pkt_with_sseq,
  tcp_send_ctrl_pkt, tcp_send_ack_pkt, tcp_timer_rto_set, tcp_timer_rto_cancel,
}
use warp.Tcp.Data.{tsm_schedule_retransmission}
use warp.Tcp.Enter.{move}
use warp.Tcp.Shut.{state-move}

-- The last segment of some effects.
abbrev pub last_sent : List Effect → Option Segment
last_sent [] = none
last_sent (pkt k ∷ es) = some k
last_sent (notif n ∷ es) = last_sent es
last_sent (inc k n ∷ es) = last_sent es
last_sent (dec k ∷ es) = last_sent es
last_sent (data_sent n ∷ es) = last_sent es

pub record View : Type 0 where
  pub v_state : State
  pub v_snd : Snd
  pub v_rcv : Rcv
  pub v_sent : Option Segment

abbrev pub view : Tcb → View
view c = record {
  v_state = c.tcb_state;
  v_snd = c.tcb_snd;
  v_rcv = c.tcb_rcv;
  v_sent = last_sent c.effects;
}

pub view-move : (s : State) (c : Tcb) → view (move s c) ≡ record (view c) { v_state = s }
view-move s c = unfold move in ground (arith, state-move s c)

pub view-tcp_timer_rto_cancel : (c : Tcb) → view (tcp_timer_rto_cancel c) ≡ view c
unfolding tcp_timer_rto_cancel
view-tcp_timer_rto_cancel c = ground arith

module _ (env : Env) where
  pub view-tsm_schedule_retransmission :
      (c : Tcb) → view (tsm_schedule_retransmission env c) ≡ view c
  unfolding tsm_schedule_retransmission tcp_timer_rto_set
  view-tsm_schedule_retransmission c = ground arith

  module _ (builds : (k : Segment) → env.builds k ≡ true) where
    pub view-send_syn :
        (c : Tcb)
        → view (tcp_send_ctrl_pkt env flags_syn true c)
          ≡ record (view c) { v_sent = some (tcp_build_hdr c c.tcb_snd.nxt flags_syn true []) }
    unfolding tcp_send_ctrl_pkt tcp_send_ctrl_pkt_with_sseq tcp_send_pkt
    view-send_syn c = ground (arith, builds (tcp_build_hdr c c.tcb_snd.nxt flags_syn true []))

    pub view-send_syn_ack :
        (c : Tcb)
        → view (tcp_send_ctrl_pkt env flags_syn_ack true c)
          ≡ record (view c) { v_sent = some (tcp_build_hdr c c.tcb_snd.nxt flags_syn_ack true []) }
    unfolding tcp_send_ctrl_pkt tcp_send_ctrl_pkt_with_sseq tcp_send_pkt
    view-send_syn_ack c =
        ground (arith, builds (tcp_build_hdr c c.tcb_snd.nxt flags_syn_ack true []))

    pub view-tcp_send_ack_pkt :
        (c : Tcb)
        → view (tcp_send_ack_pkt env c)
          ≡ record (view c) { v_sent = some (tcp_build_hdr c c.tcb_snd.nxt flags_ack false []) }
    unfolding tcp_send_ack_pkt tcp_send_pkt
    view-tcp_send_ack_pkt c =
        ground (arith, builds (tcp_build_hdr c c.tcb_snd.nxt flags_ack false []))
