-- ===== src/Tcp/Connect.antt =====
-- A client and a listener of src/tpg_tcp_sm.c that open a connection with each other over a network that
-- loses nothing.
use warp.Prelude.{◌%◌, ◌<◌, ◌≡◌, ◌∙◌, refl, sym, ap, true, false, Option, none, some, [], arith}
use warp.Prelude.Outcome.{Outcome, ok, fault, null_pointer, ◌>>=◌, ok_then}
use warp.Tcp.{
  ts_init, ts_listen, ts_established, Segment, Snd, Rcv, Tcb, Env, Reply, te_open,
  te_segment_arrives,
}
use warp.Tcp.Seq.{seq_mod, seg_add}
use warp.Tcp.Send.{flags_syn, flags_syn_ack, flags_ack, tcp_build_hdr, tcp_send_ack_pkt}
use warp.Tcp.Arrive.{tsm_need_ack}
use warp.Tcp.Opening.{start_snd, start_rcv, tcb_clone}
use warp.Tcp.Machine.{tsm_dispatch_event}
use warp.Tcp.View.{View, last_sent, view-tcp_send_ack_pkt}
use warp.Tcp.Handshake.{opens, accepts, connects, view-joined}
use warp.Tcp.Completion.{completes, view-completed}
use warp.Tcp.Numbers.{joined, completed}

abbrev child_of : Reply → Outcome Tcb
child_of r = elim r.child [ none ↦ fault null_pointer | some d ↦ ok d ]

child_lem : (r : Reply) (d : Tcb) → r.child ≡ some d → child_of r ≡ ok d
child_lem r d h = rw h refl

receives :
    (env : Env) (c : Tcb) {m n : Option Segment}
    → m ≡ n
    → tsm_dispatch_event env c (te_segment_arrives m)
      ≡ tsm_dispatch_event env c (te_segment_arrives n)
receives env c h = ap (λ (k : Option Segment). tsm_dispatch_event env c (te_segment_arrives k)) h

-- The client opens, and each side receives the last segment of the other one, until the clone of the
-- listener has the acknowledgment of its SYN.
abbrev pub connect : Env → Env → Tcb → Tcb → Outcome (Tcb × Tcb)
connect ea eb a b = do
  p ← tsm_dispatch_event ea a te_open
  q ← tsm_dispatch_event eb b (te_segment_arrives (last_sent p.tcb.effects))
  d ← child_of q
  r ← tsm_dispatch_event ea p.tcb (te_segment_arrives (last_sent d.effects))
  s ← tsm_dispatch_event eb d (te_segment_arrives (last_sent r.tcb.effects))
  ok (r.tcb, s.tcb)

-- Two established sides of which each expects the number that the other sends next, has nothing in flight,
-- and knows the window of the other.
abbrev pub AreConnected : Tcb → Tcb → Type 0
AreConnected a b =
    (a.tcb_state ≡ ts_established)
    × (b.tcb_state ≡ ts_established)
    × (a.tcb_snd.nxt ≡ b.tcb_rcv.nxt)
    × (b.tcb_snd.nxt ≡ a.tcb_rcv.nxt)
    × (a.tcb_snd.una ≡ a.tcb_snd.nxt)
    × (b.tcb_snd.una ≡ b.tcb_snd.nxt)
    × (a.tcb_snd.wnd ≡ b.tcb_rcv.wnd % 65536)
    × (b.tcb_snd.wnd ≡ a.tcb_rcv.wnd % 65536)

module _ (ea eb : Env) (fa : (k : Segment) → ea.builds k ≡ true)
    (fb : (k : Segment) → eb.builds k ≡ true) where
  -- A client that opens and a listener, with initial numbers of 32 bits, buffers for their segments and a
  -- client that acknowledges at once, end connected, whatever numbers and windows they start with, when
  -- the window of the listener is less than half of the circle and it can add a connection.
  pub connect-AreConnected :
      (a b : Tcb)
      → a.tcb_state ≡ ts_init
      → a.tcb_active ≡ true
      → b.tcb_state ≡ ts_listen
      → eb.can_alloc ≡ true
      → eb.can_add ≡ true
      → tsm_need_ack ea ≡ true
      → a.tcb_snd.iss < seq_mod
      → b.tcb_snd.iss < seq_mod
      → b.tcb_rcv.wnd < 2147483648
      → (t : Tcb × Tcb) × (connect ea eb a b ≡ ok t) × AreConnected t.0 t.1
  unfolding tcp_build_hdr
  connect-AreConnected a b at active bt alloc add need pa pb w =
      let k1 = tcp_build_hdr (start_snd a) (seg_add a.tcb_snd.iss 1) flags_syn true [] in
      let s2 = start_snd (start_rcv k1 (record (tcb_clone k1 b) { is_known = true })) in
      let k2 = tcp_build_hdr s2 (seg_add b.tcb_snd.iss 1) flags_syn_ack true [] in
      let P = opens ea fa a at active in
      let Q = accepts eb fb b k1 bt alloc add refl in
      let p = P.0.tcb in
      let d = Q.1 in
      let j = joined p k2 in
      let k3 = tcp_build_hdr j j.tcb_snd.nxt flags_ack false [] in
      let x = tcp_send_ack_pkt ea j in
      let y = completed d k3 in
      let p_snd = ap (λ (v : View). v.v_snd) P.2 in
      let d_snd = ap (λ (v : View). v.v_snd) Q.4 in
      let p_rcv = ap (λ (v : View). v.v_rcv) P.2 in
      let d_rcv = ap (λ (v : View). v.v_rcv) Q.4 in
      let V = view-joined ea fa p k2 a.tcb_snd p_snd in
      let W = view-tcp_send_ack_pkt ea fa j in
      let Y = view-completed eb d k3 b.tcb_snd d_snd in
      let j_snd = ap (λ (v : View). v.v_snd) V in
      let j_rcv = ap (λ (v : View). v.v_rcv) V in
      let x_snd = ap (λ (v : View). v.v_snd) W ∙ j_snd in
      let x_rcv = ap (λ (v : View). v.v_rcv) W ∙ j_rcv in
      let y_snd = ap (λ (v : View). v.v_snd) Y in
      let y_rcv = ap (λ (v : View). v.v_rcv) Y ∙ d_rcv in
      let seq : k3.sent_seq ≡ d.tcb_rcv.nxt =
        ap (λ (t : Snd). t.nxt) j_snd ∙ sym (ap (λ (t : Rcv). t.nxt) d_rcv) in
      let acks : k3.recv_ack ≡ seg_add b.tcb_snd.iss 1 = ap (λ (t : Rcv). t.nxt) j_rcv in
      let R =
        connects ea fa p k2 a.tcb_snd (ap (λ (v : View). v.v_state) P.2) p_snd pa need refl refl
          refl in
      let S =
        completes eb d k3 b.tcb_snd (ap (λ (v : View). v.v_state) Q.4) d_snd pb
          (rw d_rcv (omega arith)) (rw d_rcv w) refl seq acks refl in
      (
        (x, y),
        ok_then (tsm_dispatch_event ea a te_open) _ P.1 (
            ok_then (tsm_dispatch_event eb b (te_segment_arrives (last_sent p.effects))) _
              (receives eb b (ap (λ (v : View). v.v_sent) P.2) ∙ Q.2)
              (ok_then (child_of Q.0) _ (child_lem Q.0 d Q.3) (
                ok_then (tsm_dispatch_event ea p (te_segment_arrives (last_sent d.effects))) _
                  (receives ea p (ap (λ (v : View). v.v_sent) Q.4) ∙ R)
                  (ok_then (tsm_dispatch_event eb d (te_segment_arrives (last_sent x.effects))) _
                    (receives eb d (ap (λ (v : View). v.v_sent) W) ∙ S) refl)))),
        (
          ap (λ (v : View). v.v_state) W ∙ ap (λ (v : View). v.v_state) V,
          ap (λ (v : View). v.v_state) Y,
          ap (λ (t : Snd). t.nxt) x_snd ∙ sym (ap (λ (t : Rcv). t.nxt) y_rcv),
          ap (λ (t : Snd). t.nxt) y_snd ∙ sym (ap (λ (t : Rcv). t.nxt) x_rcv),
          ap (λ (t : Snd). t.una) x_snd ∙ sym (ap (λ (t : Snd). t.nxt) x_snd),
          ap (λ (t : Snd). t.una) y_snd ∙ sym (ap (λ (t : Snd). t.nxt) y_snd),
          ap (λ (t : Snd). t.wnd) x_snd ∙ ap (λ (t : Rcv). t.wnd % 65536) (sym y_rcv),
          ap (λ (t : Snd). t.wnd) y_snd ∙ ap (λ (t : Rcv). t.wnd % 65536) (j_rcv ∙ sym x_rcv),
        ),
      )
