-- ===== src/Tcp/Completion.antt =====
-- The end of the opening of a connection, at the side of the listener (`tsm_SF_syn_recv` of
-- src/tpg_tcp_sm.c).
use warp.Prelude.{ℕ, ◌<◌, ◌≡◌, ◌∙◌, sym, ap, true, ◌&&◌, not, some, List, [], length, ◌==◌, arith}
use warp.Prelude.Outcome.{if_true, if_false, ok_then}
use warp.Tcp.{ts_syn_recv, ts_established, Segment, Flags, Snd, Tcb, Env, te_segment_arrives}
use warp.Tcp.Seq.{seq_mod, seg_add, seg_le, seg_gt, seg_ge, acceptance_test}
use warp.Tcp.Send.{flags_ack, tcp_timer_rto_cancel}
use warp.Tcp.Data.{tsm_cleanup_retrans_queu}
use warp.Tcp.Enter.{done, move, step_una}
use warp.Tcp.Arrive.{checked}
use warp.Tcp.Opening.{tsm_sf_syn_recv, first_window, syn_recv_arrives}
use warp.Tcp.Machine.{tsm_dispatch_event}
use warp.Tcp.View.{View, view, last_sent, view-move, view-tcp_timer_rto_cancel}
use warp.Tcp.Numbers.{
  snd_started, next_tests, seg_le_self, accepts_next, cleanup_nothing, completed, at_state,
}

module _ (env : Env) where
  -- The clone of the listener, at the acknowledgment of its SYN.
  module _ (c : Tcb) (k : Segment) (s : Snd) where
    pub completes :
        c.tcb_state ≡ ts_syn_recv
        → c.tcb_snd ≡ snd_started s
        → s.iss < seq_mod
        → c.tcb_rcv.nxt < seq_mod
        → c.tcb_rcv.wnd < 2147483648
        → k.tcp_flags ≡ flags_ack
        → k.sent_seq ≡ c.tcb_rcv.nxt
        → k.recv_ack ≡ seg_add s.iss 1
        → k.text ≡ []
        → tsm_dispatch_event env c (te_segment_arrives (some k)) ≡ done (completed c k)
    unfolding tsm_sf_syn_recv checked syn_recv_arrives
    completes at snd p q w flags seq acks no_text =
        let n = next_tests s.iss p in
        let f_ack = ap (λ (f : Flags). f.ack) flags in
        let una = ap (λ (x : Snd). x.una) snd in
        let nxt = ap (λ (x : Snd). x.nxt) snd in
        let empty : length k.text ≡ 0 = ap (λ (t : List ℕ). length t) no_text in
        let test0 : acceptance_test c.tcb_rcv.nxt c.tcb_rcv.wnd (length k.text) k.sent_seq ≡ true =
          rw (seq, empty) (accepts_next c.tcb_rcv.nxt c.tcb_rcv.wnd q w) in
        let test1 : (seg_ge k.recv_ack c.tcb_snd.una && seg_le k.recv_ack c.tcb_snd.nxt) ≡ true =
          rw (acks, una, nxt, n.1) (seg_le_self (seg_add s.iss 1)) in
        let test2 : seg_gt k.recv_ack c.tcb_snd.una ≡ true = rw (acks, una) n.2 in
        at_state env c (te_segment_arrives (some k)) at
        ∙ if_false (not (acceptance_test c.tcb_rcv.nxt c.tcb_rcv.wnd (length k.text) k.sent_seq)) _
            _ (ap not test0)
        ∙ if_false k.tcp_flags.rst _ _ (ap (λ (f : Flags). f.rst) flags)
        ∙ if_false k.tcp_flags.syn _ _ (ap (λ (f : Flags). f.syn) flags)
        ∙ if_false (not k.tcp_flags.ack) _ _ (ap not f_ack)
        ∙ if_false (not (seg_ge k.recv_ack c.tcb_snd.una && seg_le k.recv_ack c.tcb_snd.nxt)) _ _
            (ap not test1)
        ∙ if_true (seg_gt k.recv_ack c.tcb_snd.una) _ _ test2
        ∙ ok_then (tsm_cleanup_retrans_queu k.recv_ack (step_una c)) _
            (cleanup_nothing k.recv_ack (step_una c) (rw acks (omega arith))
              (ap (λ (x : ℕ). seg_add x 1) una ∙ sym acks))
            (if_false k.tcp_flags.fin _ _ (ap (λ (f : Flags). f.fin) flags)
              ∙ ap (λ (t : Tcb). done (move ts_established (tcp_timer_rto_cancel t)))
                  (if_true (length k.text == 0) _ _ (ap (λ (t : ℕ). t == 0) empty)))

    pub view-completed :
        c.tcb_snd ≡ snd_started s
        → view (completed c k) ≡ record {
          v_state = ts_established;
          v_snd = record (snd_started s) {
            una = seg_add s.iss 1;
            wnd = k.rx_win;
            wl1 = k.sent_seq;
            wl2 = k.recv_ack;
          };
          v_rcv = c.tcb_rcv;
          v_sent = last_sent c.effects;
        }
    view-completed snd =
        let w = first_window k (step_una c) in
        view-move ts_established (tcp_timer_rto_cancel w)
        ∙ ap (λ (v : View). record v { v_state = ts_established }) (view-tcp_timer_rto_cancel w)
        ∙ ap
            (λ (x : Snd). record {
              v_state = ts_established;
              v_snd = record x {
                una = seg_add x.una 1;
                wnd = k.rx_win;
                wl1 = k.sent_seq;
                wl2 = k.recv_ack;
              };
              v_rcv = c.tcb_rcv;
              v_sent = last_sent c.effects;
            })
            snd
