-- ===== src/TestSm/Server.antt =====
-- The handlers of the server states, of a listener and of a purged session, src/tpg_tests_sm.c.
use warp.Prelude.{ℕ}
use warp.Prelude.Outcome.{◌>>◌}
use warp.TestSm.{
  srv_open, srv_sending, srv_no_snd_win, srv_closing, srv_closed, purged, Event, enter_state,
  closing, closed, no_snd_win, snd_win, app_send_start, app_send_stop, purge, Config, to_send_cbs,
  conn_down,
}
use warp.TestSm.Queues.{Act, skip, cbq_rem, add_to_send, tmr_cancel_if_set, app_call}
use warp.TestSm.Client.{refuse, enter, call_conn_up}

module _ (cfg : Config) (dispatch : ℕ → Event → Act) where
  -- An intermediate state, for the sake of the call of `conn_up`.
  unfoldable pub server_opening : ℕ → Event → Act
  unfolding enter call_conn_up
  server_opening c enter_state = do enter cfg dispatch c srv_open; call_conn_up cfg dispatch c
  server_opening c _ = refuse

  unfoldable pub server_open : ℕ → Event → Act
  unfolding enter
  server_open c enter_state = skip
  server_open c app_send_start = do add_to_send c; enter cfg dispatch c srv_sending
  server_open c closing = do app_call (conn_down c); enter cfg dispatch c srv_closing
  server_open c snd_win = skip
  server_open c no_snd_win = skip
  server_open c purge = enter cfg dispatch c purged
  server_open c _ = refuse

  unfoldable pub server_sending : ℕ → Event → Act
  unfolding enter
  server_sending c enter_state = skip
  server_sending c closing = do
    cbq_rem to_send_cbs c
    app_call (conn_down c)
    enter cfg dispatch c srv_closing
  server_sending c snd_win = skip
  server_sending c no_snd_win = do cbq_rem to_send_cbs c; enter cfg dispatch c srv_no_snd_win
  server_sending c app_send_stop = do cbq_rem to_send_cbs c; enter cfg dispatch c srv_open
  server_sending c purge = do cbq_rem to_send_cbs c; enter cfg dispatch c purged
  server_sending c _ = refuse

  unfoldable pub server_no_snd_win : ℕ → Event → Act
  unfolding enter
  server_no_snd_win c enter_state = skip
  server_no_snd_win c closing = do
    tmr_cancel_if_set c
    app_call (conn_down c)
    enter cfg dispatch c srv_closing
  server_no_snd_win c snd_win = do add_to_send c; enter cfg dispatch c srv_sending
  server_no_snd_win c app_send_stop = enter cfg dispatch c srv_open
  server_no_snd_win c purge = enter cfg dispatch c purged
  server_no_snd_win c _ = refuse

  unfoldable pub server_closing : ℕ → Event → Act
  unfolding enter
  server_closing c enter_state = skip
  server_closing c closed = enter cfg dispatch c srv_closed
  server_closing c app_send_start = skip
  server_closing c app_send_stop = skip
  server_closing c purge = enter cfg dispatch c purged
  server_closing c _ = refuse

  unfoldable pub server_closed : ℕ → Event → Act
  server_closed c enter_state = skip
  server_closed c _ = refuse

  -- `test_sm_SF_listen`
  unfoldable pub listening : ℕ → Event → Act
  unfolding enter
  listening c enter_state = skip
  listening c purge = enter cfg dispatch c purged
  listening c _ = refuse

  -- `test_sm_SF_purged`
  unfoldable pub after_purge : ℕ → Event → Act
  after_purge c enter_state = tmr_cancel_if_set c
  after_purge c closing = skip
  after_purge c closed = skip
  after_purge c _ = refuse
