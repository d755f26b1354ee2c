-- ===== src/Tcp/Shut.antt =====
-- The entry of ts_closed: what a connection is left with (`tcp_close_connection` of src/tpg_tcp.c).
use warp.Prelude.{
  ◌≡◌, ◌∙◌, refl, sym, inl, inr, Bool, Bool-cases, true, false, ◌&&◌, ◌||◌, not, List, [], ◌∷◌,
  ◌==◌, if◌then◌else◌, arith,
}
use warp.Prelude.Outcome.{ok}
use warp.Tcp.{
  State, ts_init, ts_listen, ts_syn_sent, ts_syn_recv, ts_established, ts_fin_wait_i,
  ts_fin_wait_ii, ts_last_ack, ts_closing, ts_time_wait, ts_close_wait, ts_closed, Tcb, Env, Reply,
  sess_closed, Flags,
}
use warp.Tcp.Send.{
  tcp_send_ctrl_pkt_with_sseq, notify, flags_rst_ack, tcp_send_ctrl_pkt, tcp_timer_rto_cancel,
  tcp_timer_slow_cancel,
}
use warp.Tcp.Enter.{state_eq, move, stop_rto, stop_timers, release, close_silent, enter_closed}
use warp.Tcp.Keep

abbrev is_nil {ℓ} : {A : Type ℓ} → List A → Bool
is_nil [] = true
is_nil (x ∷ xs) = false

-- No data, no timer, no place in the table, and no memory that is still held.
abbrev pub is_shut : Tcb → Bool
is_shut c =
    not c.on_rto_list
    && not c.on_slow_list
    && not c.is_known
    && (c.tr_total_size == 0)
    && is_nil c.tr_data_mbufs
    && is_nil c.tcb_rcv_buf
    && (not c.tcb_malloced || c.is_freed)

-- A reply in one of some states, or closed and shut.
abbrev pub ends : (State → Bool) → Reply → Bool
ends q r = q r.tcb.tcb_state || (state_eq r.tcb.tcb_state ts_closed && is_shut r.tcb)

pub state_eq_refl : (s : State) → state_eq s s ≡ true
state_eq_refl ts_init = refl
state_eq_refl ts_listen = refl
state_eq_refl ts_syn_sent = refl
state_eq_refl ts_syn_recv = refl
state_eq_refl ts_established = refl
state_eq_refl ts_fin_wait_i = refl
state_eq_refl ts_fin_wait_ii = refl
state_eq_refl ts_last_ack = refl
state_eq_refl ts_closing = refl
state_eq_refl ts_time_wait = refl
state_eq_refl ts_close_wait = refl
state_eq_refl ts_closed = refl

pub eq_of_state_eq : (s t : State) → state_eq s t ≡ true → s ≡ t
eq_of_state_eq ts_init t h = ground arith
eq_of_state_eq ts_listen t h = ground arith
eq_of_state_eq ts_syn_sent t h = ground arith
eq_of_state_eq ts_syn_recv t h = ground arith
eq_of_state_eq ts_established t h = ground arith
eq_of_state_eq ts_fin_wait_i t h = ground arith
eq_of_state_eq ts_fin_wait_ii t h = ground arith
eq_of_state_eq ts_last_ack t h = ground arith
eq_of_state_eq ts_closing t h = ground arith
eq_of_state_eq ts_time_wait t h = ground arith
eq_of_state_eq ts_close_wait t h = ground arith
eq_of_state_eq ts_closed t h = ground arith

pub state-move : (s : State) (c : Tcb) → (move s c).tcb_state ≡ s
unfolding move
state-move s c = elim (Bool-cases (state_eq s c.tcb_state)) [
  | inl e ↦ rw e (sym (eq_of_state_eq s c.tcb_state e))
  | inr e ↦ rw e refl
]

state-stop_rto : (c : Tcb) → (stop_rto c).tcb_state ≡ c.tcb_state
unfolding stop_rto
state-stop_rto c = ground (arith, Keep.state-tcp_timer_rto_cancel c)

rto-stop_rto : (c : Tcb) → (stop_rto c).on_rto_list ≡ false
unfolding stop_rto tcp_timer_rto_cancel
rto-stop_rto c = ground arith

known-stop_rto : (c : Tcb) → (stop_rto c).is_known ≡ c.is_known
unfolding stop_rto tcp_timer_rto_cancel
known-stop_rto c = ground arith

pub state-stop_timers : (c : Tcb) → (stop_timers c).tcb_state ≡ c.tcb_state
unfolding stop_timers
state-stop_timers c =
    ground (arith, state-stop_rto c, Keep.state-tcp_timer_slow_cancel (stop_rto c))

stopped : (c : Tcb) → ((stop_timers c).on_rto_list || (stop_timers c).on_slow_list) ≡ false
unfolding stop_timers tcp_timer_slow_cancel
stopped c = ground (arith, rto-stop_rto c)

known-stop_timers : (c : Tcb) → (stop_timers c).is_known ≡ c.is_known
unfolding stop_timers tcp_timer_slow_cancel
known-stop_timers c = ground (arith, known-stop_rto c)

state-release : (c : Tcb) → (release c).tcb_state ≡ c.tcb_state
unfolding release
state-release c = ground arith

release-is_shut :
    (c : Tcb)
    → (c.on_rto_list || c.on_slow_list) ≡ false
    → c.is_known ≡ false
    → is_shut (release c) ≡ true
unfolding release
release-is_shut c h k = ground arith

module _ (env : Env) where
  -- What a close has before its timers are stopped.
  abbrev unknown : Tcb → Tcb
  unknown c =
      let reset = if c.tcb_rst_rcvd then c else tcp_send_ctrl_pkt env flags_rst_ack false c in
      record reset { is_known = false }

  state-unknown : (c : Tcb) → (unknown c).tcb_state ≡ c.tcb_state
  state-unknown c = ground (arith, Keep.state-tcp_send_ctrl_pkt env flags_rst_ack false c)

  pub state-close_silent : (c : Tcb) → (close_silent env c).tcb_state ≡ c.tcb_state
  unfolding close_silent
  state-close_silent c =
      state-release (stop_timers (unknown c)) ∙ state-stop_timers (unknown c) ∙ state-unknown c

  pub close_silent-is_shut : (c : Tcb) → is_shut (close_silent env c) ≡ true
  unfolding close_silent
  close_silent-is_shut c =
      release-is_shut (stop_timers (unknown c)) (stopped (unknown c))
        (known-stop_timers (unknown c))

  pub state-enter_closed :
      (c : Tcb) {r : Reply} → enter_closed env c ≡ ok r → r.tcb.tcb_state ≡ ts_closed
  unfolding enter_closed
  state-enter_closed c h =
      let m = notify sess_closed (move ts_closed c) in
      ground (arith, state-close_silent m, state-move ts_closed c)

  pub enter_closed-is_shut :
      (c : Tcb) {r : Reply} → enter_closed env c ≡ ok r → is_shut r.tcb ≡ true
  unfolding enter_closed
  enter_closed-is_shut c h =
      ground (arith, close_silent-is_shut (notify sess_closed (move ts_closed c)))

  pub tcp_send_ctrl_pkt-is_shut :
      (f : Flags) (b : Bool) (c : Tcb) → is_shut (tcp_send_ctrl_pkt env f b c) ≡ is_shut c
  unfolding tcp_send_ctrl_pkt tcp_send_ctrl_pkt_with_sseq
  tcp_send_ctrl_pkt-is_shut f b c = ground arith
