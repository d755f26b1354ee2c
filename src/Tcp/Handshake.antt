-- ===== src/Tcp/Handshake.antt =====
-- The opening of a connection by both sides: a client that opens, a listener, and the segments that they
-- send each other (`tsm_SF_init`, `tsm_SF_listen`, `tsm_SF_syn_sent` and `tsm_SF_syn_recv` of
-- src/tpg_tcp_sm.c).
use warp.Prelude.{
  ℕ, ◌<◌, ◌≡◌, ◌∙◌, refl, sym, ap, true, false, ◌&&◌, ◌||◌, not, none, some, List, [], length, ◌==◌,
  arith,
}
use warp.Prelude.Outcome.{ok, if_true, if_false, ok_then}
use warp.Tcp.{
  ts_init, ts_listen, ts_syn_sent, ts_syn_recv, ts_established, Segment, Flags, Snd, Tcb, Env,
  Reply, te_open, te_segment_arrives, sess_connecting, sess_srv_connected, sess_connected,
  ts_recv_syn, success,
}
use warp.Tcp.Seq.{seq_mod, seg_add, seg_le, seg_gt, seg_ge}
use warp.Tcp.Send.{
  count, notify, flags_syn, flags_syn_ack, tcp_build_hdr, tcp_send_ctrl_pkt, tcp_send_ack_pkt,
  tcp_timer_rto_cancel,
}
use warp.Tcp.Data.{tsm_schedule_retransmission, tsm_cleanup_retrans_queu}
use warp.Tcp.Enter.{done, move, enter_syn_sent, entered_syn_recv}
use warp.Tcp.Arrive.{tsm_need_ack}
use warp.Tcp.Opening.{
  tsm_sf_init, tsm_sf_listen, tsm_sf_syn_sent, accept, start_snd, start_rcv, tcb_clone,
  first_window, established, syn_sent_arrives, syn_arrives,
}
use warp.Tcp.Machine.{tsm_dispatch_event}
use warp.Tcp.View.{
  View, view, last_sent, view-move, view-tcp_timer_rto_cancel, view-tsm_schedule_retransmission,
  view-send_syn, view-send_syn_ack,
}
use warp.Tcp.Numbers.{
  snd_started, rcv_started, next_tests, seg_lt_self, seg_le_self, cleanup_nothing, synchronized,
  joined, at_state,
}

module _ (env : Env) (builds : (k : Segment) → env.builds k ≡ true) where
  pub opens :
      (c : Tcb)
      → c.tcb_state ≡ ts_init
      → c.tcb_active ≡ true
      → (r : Reply) × (tsm_dispatch_event env c te_open ≡ ok r)
        × (view r.tcb ≡ record {
          v_state = ts_syn_sent;
          v_snd = snd_started c.tcb_snd;
          v_rcv = c.tcb_rcv;
          v_sent = some (tcp_build_hdr (start_snd c) (seg_add c.tcb_snd.iss 1) flags_syn true []);
        })
  unfolding tsm_sf_init enter_syn_sent
  opens c at active =
      let s = start_snd c in
      let sent = tcp_send_ctrl_pkt env flags_syn true s in
      let m = notify sess_connecting (move ts_syn_sent sent) in
      (
        record { tcb = tsm_schedule_retransmission env m; child = none; code = success },
        at_state env c te_open at ∙ if_true c.tcb_active _ _ active,
        view-tsm_schedule_retransmission env m
            ∙ view-move ts_syn_sent sent
            ∙ ap (λ (v : View). record v { v_state = ts_syn_sent }) (view-send_syn env builds s),
      )

  pub accepts :
      (c : Tcb) (k : Segment)
      → c.tcb_state ≡ ts_listen
      → env.can_alloc ≡ true
      → env.can_add ≡ true
      → k.tcp_flags ≡ flags_syn
      → (r : Reply) × (d : Tcb) × (tsm_dispatch_event env c (te_segment_arrives (some k)) ≡ ok r)
        × (r.child ≡ some d)
        × (view d ≡ record {
          v_state = ts_syn_recv;
          v_snd = snd_started c.tcb_snd;
          v_rcv = rcv_started k.sent_seq c.tcb_rcv;
          v_sent = some (
              tcp_build_hdr
                (start_snd (start_rcv k (record (tcb_clone k c) { is_known = true })))
                (seg_add c.tcb_snd.iss 1)
                flags_syn_ack
                true
                []);
        })
  unfolding tsm_sf_listen accept entered_syn_recv
  accepts c k at alloc add flags =
      let s = start_snd (start_rcv k (record (tcb_clone k c) { is_known = true })) in
      let sent = tcp_send_ctrl_pkt env flags_syn_ack true s in
      let m = notify sess_srv_connected (move ts_syn_recv sent) in
      let d = tsm_schedule_retransmission env m in
      (
        record { tcb = count ts_recv_syn c; child = some d; code = success },
        d,
        at_state env c (te_segment_arrives (some k)) at
            ∙ if_false k.tcp_flags.rst _ _ (ap (λ (f : Flags). f.rst) flags)
            ∙ if_false k.tcp_flags.ack _ _ (ap (λ (f : Flags). f.ack) flags)
            ∙ if_true k.tcp_flags.syn _ _ (ap (λ (f : Flags). f.syn) flags)
            ∙ if_false (not env.can_alloc) _ _ (ap not alloc)
            ∙ if_false (not env.can_add) _ _ (ap not add),
        refl,
        view-tsm_schedule_retransmission env m
            ∙ view-move ts_syn_recv sent
            ∙ ap (λ (v : View). record v { v_state = ts_syn_recv })
                (view-send_syn_ack env builds s),
      )

  -- The client, at the SYN of the listener with the acknowledgment of its own.
  module _ (c : Tcb) (k : Segment) (s : Snd) where
    pub connects :
        c.tcb_state ≡ ts_syn_sent
        → c.tcb_snd ≡ snd_started s
        → s.iss < seq_mod
        → tsm_need_ack env ≡ true
        → k.tcp_flags ≡ flags_syn_ack
        → k.recv_ack ≡ seg_add s.iss 1
        → k.text ≡ []
        → tsm_dispatch_event env c (te_segment_arrives (some k))
          ≡ done (tcp_send_ack_pkt env (joined c k))
    unfolding tsm_sf_syn_sent syn_sent_arrives syn_arrives
    connects at snd p need flags acks no_text =
        let n = next_tests s.iss p in
        let f_ack = ap (λ (f : Flags). f.ack) flags in
        let una = ap (λ (x : Snd). x.una) snd in
        let nxt = ap (λ (x : Snd). x.nxt) snd in
        let iss = ap (λ (x : Snd). x.iss) snd in
        let test1 : (seg_le k.recv_ack c.tcb_snd.iss || seg_gt k.recv_ack c.tcb_snd.nxt) ≡ false =
          rw (acks, iss, nxt, n.0) (seg_lt_self (seg_add s.iss 1) (omega arith)) in
        let test2 : (seg_ge k.recv_ack c.tcb_snd.una && seg_le k.recv_ack c.tcb_snd.nxt) ≡ true =
          rw (acks, una, nxt, n.1) (seg_le_self (seg_add s.iss 1)) in
        let test3 : seg_gt (synchronized c k).tcb_snd.una (synchronized c k).tcb_snd.iss ≡ true =
          rw (una, iss) n.2 in
        at_state env c (te_segment_arrives (some k)) at
        ∙ if_false
            (k.tcp_flags.ack
              && (seg_le k.recv_ack c.tcb_snd.iss || seg_gt k.recv_ack c.tcb_snd.nxt))
            _ _ (rw (f_ack, test1) refl)
        ∙ if_false
            (k.tcp_flags.ack
              && not (seg_ge k.recv_ack c.tcb_snd.una && seg_le k.recv_ack c.tcb_snd.nxt))
            _ _ (rw (f_ack, test2) refl)
        ∙ if_false k.tcp_flags.rst _ _ (ap (λ (f : Flags). f.rst) flags)
        ∙ if_true k.tcp_flags.syn _ _ (ap (λ (f : Flags). f.syn) flags)
        ∙ if_true k.tcp_flags.ack _ _ f_ack
        ∙ ok_then (tsm_cleanup_retrans_queu k.recv_ack (synchronized c k)) _
            (cleanup_nothing k.recv_ack (synchronized c k) (rw acks (omega arith))
              (ap (λ (x : ℕ). seg_add x 1) una ∙ sym acks))
            (if_true (seg_gt (synchronized c k).tcb_snd.una (synchronized c k).tcb_snd.iss) _ _
                test3
              ∙ ap (λ (t : Tcb). established env (tcp_timer_rto_cancel t))
                  (if_true (length k.text == 0) _ _ (ap (λ (t : List ℕ). length t == 0) no_text))
              ∙ ap (λ (t : Tcb). done t) (if_true (tsm_need_ack env) _ _ need))

    pub view-joined :
        c.tcb_snd ≡ snd_started s
        → view (joined c k) ≡ record {
          v_state = ts_established;
          v_snd = record (snd_started s) {
            una = seg_add s.iss 1;
            wnd = k.rx_win;
            wl1 = k.sent_seq;
            wl2 = k.recv_ack;
          };
          v_rcv = rcv_started k.sent_seq c.tcb_rcv;
          v_sent = last_sent c.effects;
        }
    view-joined snd =
        let w = notify sess_connected (first_window k (synchronized c k)) in
        view-move ts_established (tcp_timer_rto_cancel w)
        ∙ ap (λ (v : View). record v { v_state = ts_established }) (view-tcp_timer_rto_cancel w)
        ∙ ap
            (λ (x : Snd). record {
              v_state = ts_established;
              v_snd = record x {
                una = seg_add x.una 1;
                wnd = k.rx_win;
                wl1 = k.sent_seq;
                wl2 = k.recv_ack;
              };
              v_rcv = rcv_started k.sent_seq c.tcb_rcv;
              v_sent = last_sent c.effects;
            })
            snd
