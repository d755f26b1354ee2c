-- ===== src/Tcp/Keep.antt =====
-- What the sending of segments, the timers, the notifications and the handling of data leave alone: the
-- state of the connection.
use warp.Prelude.{
  ℕ, zero, suc, ◌+◌, ◌-◌, ◌≡◌, ◌∙◌, refl, inl, inr, Bool, Bool-cases, true, List, [], ◌∷◌, take,
  drop, join, ◌==◌, ◌||◌, ◌&&◌, not, ltb, if◌then◌else◌, arith,
}
use warp.Prelude.Outcome.{ok, >>=-eq-ok}
use warp.Tcp.Seq.{seg_add, seg_diff}
use warp.Tcp.{Flags, Segment, DataArg, Tcb, Env, Code}
use warp.Tcp.Send.{
  no_flags, flags_ack, tcp_send_data_pkt, tcp_send_ctrl_pkt_with_sseq, tcp_send_ctrl_pkt,
  tcp_send_ack_pkt, tcp_timer_rto_set, tcp_timer_rto_cancel, tcp_timer_slow_set,
  tcp_timer_slow_cancel,
}
use warp.Tcp.Data.{
  segs_per_send, sendable, tcp_data_get_unsent_size, min, keep_data, tcp_snd_win_full,
  tcp_data_send_segment, send_segments, tcp_data_send_segments, tcp_data_store_send, tcp_data_send,
  send_stored, tcp_data_retrans, tsm_schedule_retransmission, tsm_send_data, tsm_retrans_data,
  tsm_cleanup_retrans_queu, settle, advance, let_go, skip_sent,
}
use warp.Tcp.Receive.{tcp_data_handle, tsm_handle_incoming}

module _ (env : Env) where
  pub state-tcp_send_ctrl_pkt_with_sseq :
      (n : ℕ) (f : Flags) (b : Bool) (c : Tcb)
      → (tcp_send_ctrl_pkt_with_sseq env n f b c).tcb_state ≡ c.tcb_state
  unfolding tcp_send_ctrl_pkt_with_sseq
  state-tcp_send_ctrl_pkt_with_sseq n f b c = ground arith

  pub state-tcp_send_ctrl_pkt :
      (f : Flags) (b : Bool) (c : Tcb) → (tcp_send_ctrl_pkt env f b c).tcb_state ≡ c.tcb_state
  unfolding tcp_send_ctrl_pkt
  state-tcp_send_ctrl_pkt f b c = state-tcp_send_ctrl_pkt_with_sseq c.tcb_snd.nxt f b c

  pub state-tcp_send_ack_pkt : (c : Tcb) → (tcp_send_ack_pkt env c).tcb_state ≡ c.tcb_state
  unfolding tcp_send_ack_pkt
  state-tcp_send_ack_pkt c = ground arith

  pub state-tcp_timer_rto_set :
      (n : ℕ) (c : Tcb) → (tcp_timer_rto_set env n c).tcb_state ≡ c.tcb_state
  unfolding tcp_timer_rto_set
  state-tcp_timer_rto_set n c = ground arith

  pub state-tcp_timer_slow_set :
      (n : ℕ) (c : Tcb) → (tcp_timer_slow_set env n c).tcb_state ≡ c.tcb_state
  unfolding tcp_timer_slow_set
  state-tcp_timer_slow_set n c = ground arith

  pub state-tsm_schedule_retransmission :
      (c : Tcb) → (tsm_schedule_retransmission env c).tcb_state ≡ c.tcb_state
  unfolding tsm_schedule_retransmission
  state-tsm_schedule_retransmission c = ground (arith, state-tcp_timer_rto_set env.opts.tcpo_rto c)

  pub state-tcp_data_send_segment :
      (bytes : List ℕ) (n : ℕ) (f : Flags) (c : Tcb)
      → (tcp_data_send_segment env bytes n f c).0.tcb_state ≡ c.tcb_state
  unfolding tcp_data_send_segment tcp_send_data_pkt
  state-tcp_data_send_segment bytes n f c = ground arith

  -- One round of the loop, whatever it goes on with.
  state-send_segments :
      (n : ℕ) (segs : List (List ℕ)) (len offset sseq : ℕ) (f : Flags) (sent : ℕ) (c : Tcb)
      {r : Tcb × ℕ}
      → send_segments n env segs len offset sseq f sent c ≡ ok r
      → r.0.tcb_state ≡ c.tcb_state
  unfolding send_segments
  state-send_segments zero segs len offset sseq f sent c h = ground arith
  state-send_segments (suc n) segs len offset sseq f sent c h =
      let k = min len env.mtu in
      let s = tcp_data_send_segment env (take k (drop offset (join segs))) sseq f c in
      let moved = record s.0 { tcb_snd = record s.0.tcb_snd { nxt = seg_add s.0.tcb_snd.nxt k } } in
      let c' = if sseq == s.0.tcb_snd.nxt then moved else s.0 in
      let kept : s.0.tcb_state ≡ c.tcb_state =
        state-tcp_data_send_segment (take k (drop offset (join segs))) sseq f c in
      let step : c'.tcb_state ≡ c.tcb_state = ground (arith, kept) in
      elim (Bool-cases (len == 0)) [
        | inl e ↦ ground arith
        | inr e ↦ elim (Bool-cases s.1) [
          | inr e' ↦ ground (arith, kept)
          | inl e' ↦
              let go = rw (e, e') at h in
              let p = >>=-eq-ok (advance segs offset k) _ go in
              state-send_segments n p.0.0 (len - k) p.0.1 (seg_add sseq k) f (sent + p.0.2) c' p.2
              ∙ step
        ]
      ]

  state-tcp_data_send_segments :
      (segs : List (List ℕ)) (len offset sseq : ℕ) (f : Flags) (c : Tcb) {r : Tcb × ℕ}
      → tcp_data_send_segments env segs len offset sseq f c ≡ ok r
      → r.0.tcb_state ≡ c.tcb_state
  unfolding tcp_data_send_segments
  state-tcp_data_send_segments segs len offset sseq f c h =
      state-send_segments (suc segs_per_send) segs len offset sseq f 0 c h

  state-tcp_data_store_send :
      (ms : List (List ℕ)) (c : Tcb) → (tcp_data_store_send env ms c).0.tcb_state ≡ c.tcb_state
  unfolding tcp_data_store_send
  state-tcp_data_store_send ms c = ground arith

  state-tcp_data_send :
      (d : DataArg) (c : Tcb) {r : Tcb × Code}
      → tcp_data_send env d c ≡ ok r
      → r.0.tcb_state ≡ c.tcb_state
  unfolding tcp_data_send send_stored
  state-tcp_data_send d c h =
      let stored = tcp_data_store_send env d.tda_mbuf c in
      let s = stored.0 in
      let flags = record no_flags { ack = true; psh = d.tda_push; urg = d.tda_urg } in
      let unsent = tcp_data_get_unsent_size s in
      let kept : s.tcb_state ≡ c.tcb_state = state-tcp_data_store_send d.tda_mbuf c in
      elim (Bool-cases (stored.1 == 0)) [
        | inl e ↦ let go = rw e at h in ground (arith, kept)
        | inr e ↦ elim (Bool-cases (not d.tda_push && ltb unsent env.mtu)) [
          | inl e' ↦ let go = rw (e, e') at h in ground (arith, kept)
          | inr e' ↦
              let go = rw (e, e') at h in
              let p =
                >>=-eq-ok (skip_sent s.tr_data_mbufs (seg_diff s.tr_total_size unsent)) _ go in
              let q =
                >>=-eq-ok
                  (tcp_data_send_segments env p.0.0 (sendable s) p.0.1 s.tcb_snd.nxt flags s) _
                  p.2 in
              let sent =
                state-tcp_data_send_segments p.0.0 (sendable s) p.0.1 s.tcb_snd.nxt flags s q.1 in
              ground (arith, kept, q.2, sent)
        ]
      ]

  state_again :
      (ms : List (List ℕ)) (c : Tcb) {r : Tcb × ℕ}
      → (elim ms [
        | [] ↦ ok (c, 0)
        | m ∷ rest ↦
            tcp_data_send_segments env
              (m ∷ rest)
              (min c.tr_total_size c.tcb_snd.wnd)
              0
              c.tcb_snd.una
              flags_ack
              c
      ])
        ≡ ok r
      → r.0.tcb_state ≡ c.tcb_state
  state_again [] c h = ground arith
  state_again (m ∷ ms) c h =
      state-tcp_data_send_segments (m ∷ ms) (min c.tr_total_size c.tcb_snd.wnd) 0 c.tcb_snd.una
        flags_ack c h

  state-tcp_data_retrans :
      (c : Tcb) {r : Tcb × ℕ} → tcp_data_retrans env c ≡ ok r → r.0.tcb_state ≡ c.tcb_state
  unfolding tcp_data_retrans
  state-tcp_data_retrans c h = state_again c.tr_data_mbufs c h

  pub state-tsm_send_data :
      (d : DataArg) (c : Tcb) {r : Tcb × Code}
      → tsm_send_data env d c ≡ ok r
      → r.0.tcb_state ≡ c.tcb_state
  unfolding tsm_send_data tcp_snd_win_full
  state-tsm_send_data d c h =
      let p = >>=-eq-ok (tcp_data_send env d c) _ h in
      ground (arith, p.2, state-tcp_data_send d c p.1, state-tsm_schedule_retransmission p.0.0)

  pub state-tsm_retrans_data :
      (c : Tcb) {t : Tcb} → tsm_retrans_data env c ≡ ok t → t.tcb_state ≡ c.tcb_state
  unfolding tsm_retrans_data tcp_snd_win_full
  state-tsm_retrans_data c h =
      let p = >>=-eq-ok (tcp_data_retrans env c) _ h in
      ground (arith, p.2, state-tcp_data_retrans c p.1)

pub state-tcp_timer_rto_cancel : (c : Tcb) → (tcp_timer_rto_cancel c).tcb_state ≡ c.tcb_state
unfolding tcp_timer_rto_cancel
state-tcp_timer_rto_cancel c = ground arith

pub state-tcp_timer_slow_cancel : (c : Tcb) → (tcp_timer_slow_cancel c).tcb_state ≡ c.tcb_state
unfolding tcp_timer_slow_cancel
state-tcp_timer_slow_cancel c = ground arith

pub state-keep_data :
    (n : ℕ) (c : Tcb) (ms : List (List ℕ)) → (keep_data n c ms).tcb_state ≡ c.tcb_state
unfolding keep_data
state-keep_data n c [] = ground (
  arith,
  state-tcp_timer_rto_cancel (record c { tr_data_mbufs = []; tr_total_size = c.tr_total_size - n }),
)
state-keep_data n c (m ∷ ms) = refl

pub state-settle : (b : Bool) (n : ℕ) (t : Tcb) → (settle b n t).tcb_state ≡ t.tcb_state
unfolding settle tcp_snd_win_full
state-settle b n t = ground arith

pub state-tsm_cleanup_retrans_queu :
    (n : ℕ) (c : Tcb) {t : Tcb} → tsm_cleanup_retrans_queu n c ≡ ok t → t.tcb_state ≡ c.tcb_state
unfolding tsm_cleanup_retrans_queu
state-tsm_cleanup_retrans_queu n c h =
    let acked = seg_diff n c.tcb_snd.una in
    elim (Bool-cases ((acked == 0) || ltb c.tr_total_size acked)) [
      | inl e ↦ let same = rw e at h in ground arith
      | inr e ↦
          let go = rw e at h in
          let p = >>=-eq-ok (let_go acked c.tr_data_mbufs) _ go in
          let full = tcp_snd_win_full c in
          ground
            (arith, p.2, state-settle full n (keep_data acked c p.0), state-keep_data acked c p.0)
    ]

pub state-tsm_handle_incoming :
    (env : Env) (k : Segment) (c : Tcb) → (tsm_handle_incoming env k c).0.tcb_state ≡ c.tcb_state
unfolding tsm_handle_incoming tcp_data_handle
state-tsm_handle_incoming env k c = ground arith
