-- ===== src/Tcp/Fired.antt =====
-- The timers of a connection that fire (`tcp_handle_slow_to` and `tcp_handle_retrans_to` of
-- src/tpg_timer.c): the timer is off its list before the machine hears of it.
use warp.Prelude.{ℕ, ◌+◌, ◌%◌, ◌≡◌, ◌∙◌, refl, Bool, true, false, ◌==◌, if◌then◌else◌}
use warp.Prelude.Outcome.{Outcome, ok, if_true}
use warp.Tcp.{
  State, ts_init, ts_listen, ts_syn_sent, ts_syn_recv, ts_established, ts_fin_wait_i,
  ts_fin_wait_ii, ts_last_ack, ts_closing, ts_time_wait, ts_close_wait, ts_closed, Tcb, Env, Reply,
  Sockopt, te_orphan_timeout, te_fin_timeout, te_time_wait_timeout, te_retransmission_timeout,
}
use warp.Tcp.Enter.{done, enter_closed}
use warp.Tcp.Opening.{tsm_sf_syn_sent, tsm_sf_syn_recv}
use warp.Tcp.Closing.{
  tsm_sf_estab, tsm_sf_fin_wait_i, tsm_sf_last_ack, tsm_sf_closing, tsm_sf_close_wait,
}
use warp.Tcp.Machine.{state_function, tsm_dispatch_event}
use warp.Tcp.Shut.{is_shut, state-enter_closed, enter_closed-is_shut}

-- The event of a slow timer in a state, for a block that is off the list.
unfoldable pub slow_event : State → Env → Tcb → Outcome Reply
slow_event ts_fin_wait_i env c = tsm_dispatch_event env c te_orphan_timeout
slow_event ts_fin_wait_ii env c = tsm_dispatch_event env c te_fin_timeout
slow_event ts_time_wait env c = tsm_dispatch_event env c te_time_wait_timeout
slow_event s env c = done c

-- `tcp_handle_slow_to`, without the count of fired timers.
unfoldable pub tcp_handle_slow_to : Env → Tcb → Outcome Reply
unfolding slow_event
tcp_handle_slow_to env c = slow_event c.tcb_state env (record c { on_slow_list = false })

-- `tcp_handle_retrans_to`, without that count; the count of retransmissions has 8 bits.
unfoldable pub tcp_handle_retrans_to : Env → Tcb → Outcome Reply
tcp_handle_retrans_to env c =
    tsm_dispatch_event env
      (record c { on_rto_list = false; tcb_retrans_cnt = (c.tcb_retrans_cnt + 1) % 256 })
      te_retransmission_timeout

-- A retransmission that finds a count at the limit of its state.
unfoldable pub gives_up : State → Sockopt → ℕ → Bool
gives_up ts_syn_sent o n = n == o.tcpo_syn_retry_cnt
gives_up ts_syn_recv o n = n == o.tcpo_syn_ack_retry_cnt
gives_up ts_established o n = n == o.tcpo_data_retry_cnt
gives_up ts_fin_wait_i o n = n == o.tcpo_retry_cnt
gives_up ts_last_ack o n = n == o.tcpo_retry_cnt
gives_up ts_closing o n = n == o.tcpo_retry_cnt
gives_up ts_close_wait o n = n == o.tcpo_retry_cnt
gives_up s o n = false

entered : (env : Env) (c : Tcb) → (r : Reply) × (enter_closed env c ≡ ok r)
unfolding enter_closed
entered env c = (_, refl)

module _ (env : Env) where
  -- What the entry of ts_closed ends in.
  closes :
      (c : Tcb)
      → (r : Reply) × (enter_closed env c ≡ ok r)
        × (r.tcb.tcb_state ≡ ts_closed)
        × (is_shut r.tcb ≡ true)
  closes c =
      let r = entered env c in
      (r.0, r.1, state-enter_closed env c r.1, enter_closed-is_shut env c r.1)

  -- A state that closes when a test holds.
  closes_if :
      (b : Bool) (c : Tcb) (other : Outcome Reply)
      → b ≡ true
      → (r : Reply) × ((if b then enter_closed env c else other) ≡ ok r)
        × (r.tcb.tcb_state ≡ ts_closed)
        × (is_shut r.tcb ≡ true)
  closes_if b c other h =
      let x = closes c in (x.0, if_true b (enter_closed env c) other h ∙ x.1, x.2, x.3)

  gives_up_at :
      (s : State) (c : Tcb)
      → gives_up s env.opts c.tcb_retrans_cnt ≡ true
      → (r : Reply) × (state_function s env c te_retransmission_timeout ≡ ok r)
        × (r.tcb.tcb_state ≡ ts_closed)
        × (is_shut r.tcb ≡ true)
  unfolding gives_up tsm_sf_syn_sent tsm_sf_syn_recv tsm_sf_estab tsm_sf_fin_wait_i tsm_sf_last_ack
      tsm_sf_closing tsm_sf_close_wait
  gives_up_at ts_init c h = cc
  gives_up_at ts_listen c h = cc
  gives_up_at ts_syn_sent c h = closes_if (c.tcb_retrans_cnt == env.opts.tcpo_syn_retry_cnt) _ _ h
  gives_up_at ts_syn_recv c h =
      closes_if (c.tcb_retrans_cnt == env.opts.tcpo_syn_ack_retry_cnt) _ _ h
  gives_up_at ts_established c h =
      closes_if (c.tcb_retrans_cnt == env.opts.tcpo_data_retry_cnt) _ _ h
  gives_up_at ts_fin_wait_i c h = closes_if (c.tcb_retrans_cnt == env.opts.tcpo_retry_cnt) _ _ h
  gives_up_at ts_fin_wait_ii c h = cc
  gives_up_at ts_last_ack c h = closes_if (c.tcb_retrans_cnt == env.opts.tcpo_retry_cnt) _ _ h
  gives_up_at ts_closing c h = closes_if (c.tcb_retrans_cnt == env.opts.tcpo_retry_cnt) _ _ h
  gives_up_at ts_time_wait c h = cc
  gives_up_at ts_close_wait c h = closes_if (c.tcb_retrans_cnt == env.opts.tcpo_retry_cnt) _ _ h
  gives_up_at ts_closed c h = cc

  -- A retransmission timer that fires for the last time that the options of its state allow closes the
  -- connection, whatever it has sent: no timer is set then, no data kept, the block is not in the table,
  -- and its memory is given back if it was allocated.
  pub handle_retrans_to-gives_up :
      (c : Tcb)
      → gives_up c.tcb_state env.opts ((c.tcb_retrans_cnt + 1) % 256) ≡ true
      → (r : Reply) × (tcp_handle_retrans_to env c ≡ ok r)
        × (r.tcb.tcb_state ≡ ts_closed)
        × (is_shut r.tcb ≡ true)
  unfolding tcp_handle_retrans_to tsm_dispatch_event
  handle_retrans_to-gives_up c h =
      gives_up_at c.tcb_state
        (record c { on_rto_list = false; tcb_retrans_cnt = (c.tcb_retrans_cnt + 1) % 256 }) h
