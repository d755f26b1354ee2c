-- ===== src/Tcp/KeptFin.antt =====
-- What the acknowledgments and the handling of data leave alone: whether a FIN was kept until the text
-- before it comes (`tcb_fin_rcvd`).
use warp.Prelude.{
  ℕ, Bool, ◌-◌, ◌≡◌, refl, inl, inr, Bool-cases, List, [], ◌∷◌, ◌==◌, ◌||◌, ltb, arith,
}
use warp.Prelude.Outcome.{ok, >>=-eq-ok}
use warp.Tcp.Seq.{seg_diff}
use warp.Tcp.{Segment, Tcb, Env}
use warp.Tcp.Send.{tcp_send_ack_pkt, tcp_timer_rto_cancel}
use warp.Tcp.Data.{keep_data, tcp_snd_win_full, tsm_cleanup_retrans_queu, settle, let_go}
use warp.Tcp.Receive.{tcp_data_handle, tsm_handle_incoming}

pub fin-tcp_send_ack_pkt :
    (env : Env) (c : Tcb) → (tcp_send_ack_pkt env c).tcb_fin_rcvd ≡ c.tcb_fin_rcvd
unfolding tcp_send_ack_pkt
fin-tcp_send_ack_pkt env c = ground arith

fin-tcp_timer_rto_cancel : (c : Tcb) → (tcp_timer_rto_cancel c).tcb_fin_rcvd ≡ c.tcb_fin_rcvd
unfolding tcp_timer_rto_cancel
fin-tcp_timer_rto_cancel c = ground arith

fin-keep_data :
    (n : ℕ) (c : Tcb) (ms : List (List ℕ)) → (keep_data n c ms).tcb_fin_rcvd ≡ c.tcb_fin_rcvd
unfolding keep_data
fin-keep_data n c [] = ground (
  arith,
  fin-tcp_timer_rto_cancel (record c { tr_data_mbufs = []; tr_total_size = c.tr_total_size - n }),
)
fin-keep_data n c (m ∷ ms) = refl

fin-settle : (b : Bool) (n : ℕ) (t : Tcb) → (settle b n t).tcb_fin_rcvd ≡ t.tcb_fin_rcvd
unfolding settle tcp_snd_win_full
fin-settle b n t = ground arith

pub fin-tsm_cleanup_retrans_queu :
    (n : ℕ) (c : Tcb) {t : Tcb}
    → tsm_cleanup_retrans_queu n c ≡ ok t
    → t.tcb_fin_rcvd ≡ c.tcb_fin_rcvd
unfolding tsm_cleanup_retrans_queu
fin-tsm_cleanup_retrans_queu n c h =
    let acked = seg_diff n c.tcb_snd.una in
    elim (Bool-cases ((acked == 0) || ltb c.tr_total_size acked)) [
      | inl e ↦ let same = rw e at h in ground arith
      | inr e ↦
          let go = rw e at h in
          let p = >>=-eq-ok (let_go acked c.tr_data_mbufs) _ go in
          let full = tcp_snd_win_full c in
          ground (arith, p.2, fin-settle full n (keep_data acked c p.0), fin-keep_data acked c p.0)
    ]

pub fin-tsm_handle_incoming :
    (env : Env) (k : Segment) (c : Tcb)
    → (tsm_handle_incoming env k c).0.tcb_fin_rcvd ≡ c.tcb_fin_rcvd
unfolding tsm_handle_incoming tcp_data_handle
fin-tsm_handle_incoming env k c = ground arith
