-- ===== src/TestSm/Client.antt =====
-- The handlers of the client states, src/tpg_tests_sm.c. `dispatch` is the call through the table of
-- handlers by which `test_sm_enter_state` and the application come back to the machine.
use warp.Prelude.{ℕ, if◌then◌else◌, ◌==◌}
use warp.Prelude.Outcome.{ok, fault, assert_false, ◌>>◌}
use warp.TestSm.{
  State, cl_to_open, cl_opening, cl_open, cl_sending, cl_no_snd_win, cl_to_close, cl_closing,
  cl_closed, purged, Event, enter_state, tmr_to, connecting, connected, closing, closed, no_snd_win,
  snd_win, app_send_start, app_send_stop, purge, Config, to_init_cbs, to_open_cbs, to_send_cbs,
  to_close_cbs, closed_cbs, conn_up, conn_down,
}
use warp.TestSm.Queues.{
  Act, skip, cbq_add, cbq_rem, add_to_open, add_to_close, add_to_send, delay_us, test_tmr_set,
  tmr_set_unless_inf, tmr_cancel_if_set, set_state, app_call,
}

abbrev pub refuse : Act
refuse s = fault assert_false

module _ (cfg : Config) (dispatch : ℕ → Event → Act) where
  -- `test_sm_enter_state`
  unfoldable pub enter : ℕ → State → Act
  enter c st = set_state c st >> dispatch c enter_state

  -- APP_CALL(conn_up), with the notification that it may raise.
  unfoldable pub call_conn_up : ℕ → Act
  call_conn_up c =
      app_call (conn_up c)
      >> (λ s. if cfg.conn_up_sends c then dispatch c app_send_start s else ok s)

  unfoldable pub client_to_init : ℕ → Event → Act
  unfolding enter
  client_to_init c enter_state = λ s.
      if cfg.tc_init_delay.d_value == 0
      then (cbq_add to_open_cbs c >> enter c cl_to_open) s
      else (cbq_add to_init_cbs c >> test_tmr_set c (delay_us cfg.tc_init_delay)) s
  client_to_init c tmr_to = do cbq_rem to_init_cbs c; add_to_open c; enter c cl_to_open
  client_to_init c purge = do cbq_rem to_init_cbs c; enter c purged
  client_to_init c _ = refuse

  unfoldable pub client_to_open : ℕ → Event → Act
  unfolding enter call_conn_up
  client_to_open c enter_state = skip
  client_to_open c connecting = do cbq_rem to_open_cbs c; enter c cl_opening
  client_to_open c connected = do
    cbq_rem to_open_cbs c
    tmr_set_unless_inf c cfg.tc_uptime
    enter c cl_open
    call_conn_up c
  client_to_open c purge = do cbq_rem to_open_cbs c; enter c purged
  client_to_open c _ = refuse

  unfoldable pub client_opening : ℕ → Event → Act
  unfolding enter call_conn_up
  client_opening c enter_state = skip
  client_opening c connected = do
    tmr_set_unless_inf c cfg.tc_uptime
    enter c cl_open
    call_conn_up c
  client_opening c closing = enter c cl_closing
  client_opening c purge = enter c purged
  client_opening c _ = refuse

  unfoldable pub client_open : ℕ → Event → Act
  unfolding enter
  client_open c enter_state = skip
  client_open c app_send_start = do add_to_send c; enter c cl_sending
  client_open c closing = do tmr_cancel_if_set c; app_call (conn_down c); enter c cl_closing
  client_open c snd_win = skip
  client_open c no_snd_win = skip
  client_open c tmr_to = do add_to_close c; enter c cl_to_close
  client_open c purge = enter c purged
  client_open c _ = refuse

  unfoldable pub client_sending : ℕ → Event → Act
  unfolding enter
  client_sending c enter_state = skip
  client_sending c closing = do
    tmr_cancel_if_set c
    cbq_rem to_send_cbs c
    app_call (conn_down c)
    enter c cl_closing
  client_sending c snd_win = skip
  client_sending c no_snd_win = do cbq_rem to_send_cbs c; enter c cl_no_snd_win
  client_sending c tmr_to = do cbq_rem to_send_cbs c; add_to_close c; enter c cl_to_close
  client_sending c app_send_stop = do cbq_rem to_send_cbs c; enter c cl_open
  client_sending c purge = do cbq_rem to_send_cbs c; enter c purged
  client_sending c _ = refuse

  unfoldable pub client_no_snd_win : ℕ → Event → Act
  unfolding enter
  client_no_snd_win c enter_state = skip
  client_no_snd_win c closing = do tmr_cancel_if_set c; app_call (conn_down c); enter c cl_closing
  client_no_snd_win c tmr_to = do add_to_close c; enter c cl_to_close
  client_no_snd_win c snd_win = do add_to_send c; enter c cl_sending
  client_no_snd_win c app_send_stop = enter c cl_open
  client_no_snd_win c purge = enter c purged
  client_no_snd_win c _ = refuse

  -- The purge names the closed list, though the block is on the to-close list.
  unfoldable pub client_to_close : ℕ → Event → Act
  unfolding enter
  client_to_close c enter_state = skip
  client_to_close c closing = do app_call (conn_down c); cbq_rem to_close_cbs c; enter c cl_closing
  client_to_close c app_send_start = skip
  client_to_close c app_send_stop = skip
  client_to_close c purge = do cbq_rem closed_cbs c; enter c purged
  client_to_close c snd_win = skip
  client_to_close c no_snd_win = skip
  client_to_close c _ = refuse

  unfoldable pub client_closing : ℕ → Event → Act
  unfolding enter
  client_closing c enter_state = skip
  client_closing c closed = enter c cl_closed
  client_closing c app_send_start = skip
  client_closing c app_send_stop = skip
  client_closing c purge = enter c purged
  client_closing c _ = refuse

  unfoldable pub client_closed : ℕ → Event → Act
  unfolding enter
  client_closed c enter_state = do tmr_set_unless_inf c cfg.tc_downtime; cbq_add closed_cbs c
  client_closed c tmr_to = do cbq_rem closed_cbs c; add_to_open c; enter c cl_to_open
  client_closed c purge = do cbq_rem closed_cbs c; enter c purged
  client_closed c _ = refuse
