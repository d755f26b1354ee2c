-- ===== src/TestSm/Machine.antt =====
-- The table of handlers and the calls through it, src/tpg_tests_sm.c and inc/tpg_tests_sm.h.
use warp.Prelude.{ℕ, zero, suc}
use warp.Prelude.Outcome.{fault, out_of_fuel}
use warp.TestSm.{
  State, cl_to_init, cl_to_open, cl_opening, cl_open, cl_sending, cl_no_snd_win, cl_to_close,
  cl_closing, cl_closed, srv_opening, srv_open, srv_sending, srv_no_snd_win, srv_closing,
  srv_closed, listen, purged, Event, Config,
}
use warp.TestSm.Queues.{Act}
use warp.TestSm.Client.{
  client_to_init, client_to_open, client_opening, client_open, client_sending, client_no_snd_win,
  client_to_close, client_closing, client_closed,
}
use warp.TestSm.Server.{
  server_opening, server_open, server_sending, server_no_snd_win, server_closing, server_closed,
  listening, after_purge,
}

-- `test_sm_function_array`
unfoldable pub handler : Config → (ℕ → Event → Act) → State → ℕ → Event → Act
unfolding client_to_init client_to_open client_opening client_open client_sending client_no_snd_win
    client_to_close client_closing client_closed server_opening server_open server_sending
    server_no_snd_win server_closing server_closed listening after_purge
handler cfg d cl_to_init = client_to_init cfg d
handler cfg d cl_to_open = client_to_open cfg d
handler cfg d cl_opening = client_opening cfg d
handler cfg d cl_open = client_open cfg d
handler cfg d cl_sending = client_sending cfg d
handler cfg d cl_no_snd_win = client_no_snd_win cfg d
handler cfg d cl_to_close = client_to_close cfg d
handler cfg d cl_closing = client_closing cfg d
handler cfg d cl_closed = client_closed cfg d
handler cfg d srv_opening = server_opening cfg d
handler cfg d srv_open = server_open cfg d
handler cfg d srv_sending = server_sending cfg d
handler cfg d srv_no_snd_win = server_no_snd_win cfg d
handler cfg d srv_closing = server_closing cfg d
handler cfg d srv_closed = server_closed cfg d
handler cfg d listen = listening cfg d
handler cfg d purged = after_purge cfg d

-- `test_sm_dispatch_event`; the fuel bounds how deep handlers call one another.
unfoldable pub dispatch_event : ℕ → Config → ℕ → Event → Act
unfolding handler
dispatch_event zero cfg c e s = fault out_of_fuel
dispatch_event (suc n) cfg c e s = handler cfg (dispatch_event n cfg) (s.test_state c) c e s
