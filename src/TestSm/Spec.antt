-- ===== src/TestSm/Spec.antt =====
-- How a session reacts to an event, without queues, timers and handlers: the edges of the diagram
-- dot/tpg_test_sm.dot, and apart from them what src/tpg_tests_sm.c has that the diagram does not draw.
use warp.Prelude.{ℕ, Bool, true, false, Option, none, some, if◌then◌else◌}
use warp.Prelude.Outcome.{
  Outcome, ok, fault, assert_false, null_pointer, error_abort, not_on_list, out_of_fuel,
}
use warp.TestSm.{
  State, cl_to_init, cl_to_open, cl_opening, cl_open, cl_sending, cl_no_snd_win, cl_to_close,
  cl_closing, cl_closed, srv_open, srv_sending, srv_no_snd_win, srv_closing, srv_closed, listen,
  purged, Event, tmr_to, connecting, connected, closing, closed, no_snd_win, snd_win,
  app_send_start, app_send_stop, purge, Config, Sys, Queue, to_init_cbs, to_open_cbs, to_close_cbs,
  to_send_cbs, closed_cbs,
}

-- What an event makes of a session: a state to go to, a failed assert, or the removal from a queue
-- that does not hold the session.
pub data Reaction : Type 0 where
  goes : State → Reaction
  refused misfiled exhausted other_fault : Reaction

abbrev pub report : ℕ → Outcome Sys → Reaction
report c (ok s) = goes (s.test_state c)
report c (fault assert_false) = refused
report c (fault not_on_list) = misfiled
report c (fault out_of_fuel) = exhausted
report c (fault null_pointer) = other_fault
report c (fault error_abort) = other_fault

-- The state in which a session that comes up stands when the application has been told.
abbrev pub up : Config → ℕ → State
up cfg c = if cfg.conn_up_sends c then cl_sending else cl_open

-- The edges of the diagram, which is that of a client. "TCP State CHG" is the notification that the
-- connection starts to open or to close, "TO" a timeout.
abbrev pub drawn : State → Event → Option State
drawn cl_to_init tmr_to = some cl_to_open
drawn cl_to_open connecting = some cl_opening
drawn cl_opening connected = some cl_open
drawn cl_opening closed = some cl_closed
drawn cl_open app_send_start = some cl_sending
drawn cl_sending app_send_stop = some cl_open
drawn cl_open closing = some cl_closing
drawn cl_open tmr_to = some cl_to_close
drawn cl_sending no_snd_win = some cl_no_snd_win
drawn cl_sending closing = some cl_closing
drawn cl_sending tmr_to = some cl_to_close
drawn cl_no_snd_win snd_win = some cl_sending
drawn cl_no_snd_win closing = some cl_closing
drawn cl_no_snd_win app_send_stop = some cl_open
drawn cl_no_snd_win tmr_to = some cl_to_close
drawn cl_to_close closing = some cl_closing
drawn cl_closing closed = some cl_closed
drawn cl_closed tmr_to = some cl_to_open
drawn _ _ = none

-- The other events that a client accepts: it may connect at once or begin to close while it opens,
-- stays where it is at some notifications, and is purged.
abbrev pub undrawn_client : State → Event → Option State
undrawn_client cl_to_open connected = some cl_open
undrawn_client cl_opening closing = some cl_closing
undrawn_client cl_open snd_win = some cl_open
undrawn_client cl_open no_snd_win = some cl_open
undrawn_client cl_sending snd_win = some cl_sending
undrawn_client cl_to_close app_send_start = some cl_to_close
undrawn_client cl_to_close app_send_stop = some cl_to_close
undrawn_client cl_to_close snd_win = some cl_to_close
undrawn_client cl_to_close no_snd_win = some cl_to_close
undrawn_client cl_closing app_send_start = some cl_closing
undrawn_client cl_closing app_send_stop = some cl_closing
undrawn_client cl_to_init purge = some purged
undrawn_client cl_to_open purge = some purged
undrawn_client cl_opening purge = some purged
undrawn_client cl_open purge = some purged
undrawn_client cl_sending purge = some purged
undrawn_client cl_no_snd_win purge = some purged
undrawn_client cl_closing purge = some purged
undrawn_client cl_closed purge = some purged
undrawn_client _ _ = none

-- The client that a session of a server goes along with once it is open.
abbrev pub like_client : State → State
like_client srv_open = cl_open
like_client srv_sending = cl_sending
like_client srv_no_snd_win = cl_no_snd_win
like_client srv_closing = cl_closing
like_client st = st

abbrev pub like_server : State → State
like_server cl_open = srv_open
like_server cl_sending = srv_sending
like_server cl_no_snd_win = srv_no_snd_win
like_server cl_closing = srv_closing
like_server cl_closed = srv_closed
like_server st = st

-- Whether the application of a session that comes up asks at once to send.
abbrev settled : Config → ℕ → Event → State → State
settled cfg c connected cl_open = up cfg c
settled cfg c _ t = t

abbrev first_of : Option State → Option State → Option State
first_of (some t) o = some t
first_of none o = o

abbrev or_refused : Option State → Reaction
or_refused (some t) = goes t
or_refused none = refused

abbrev of_client : Config → ℕ → State → Event → Reaction
of_client cfg c cl_opening closed = refused
of_client cfg c cl_to_close purge = misfiled
of_client cfg c st e = elim (first_of (drawn st e) (undrawn_client st e)) [
  | some t ↦ goes (settled cfg c e t)
  | none ↦ refused
]

-- A server's session goes as that of a client, but that it has no timeouts.
abbrev of_server : State → Event → Reaction
of_server st tmr_to = refused
of_server st e = elim (first_of (drawn (like_client st) e) (undrawn_client (like_client st) e)) [
  | some t ↦ goes (like_server t)
  | none ↦ refused
]

-- The reaction of a session: along the edges of the diagram, but for the edge from opening to closed,
-- on which the code fails an assert, and for a purge in to_close, which looks in the wrong queue; then
-- what the diagram does not draw. An event without either fails an assert.
abbrev pub reaction : Config → ℕ → State → Event → Reaction
reaction cfg c srv_open e = of_server srv_open e
reaction cfg c srv_sending e = of_server srv_sending e
reaction cfg c srv_no_snd_win e = of_server srv_no_snd_win e
reaction cfg c srv_closing e = of_server srv_closing e
reaction cfg c listen purge = goes purged
reaction cfg c purged closing = goes purged
reaction cfg c purged closed = goes purged
reaction cfg c st e = of_client cfg c st e

-- The same as one table.
abbrev pub next : Config → ℕ → State → Event → Reaction
next cfg c cl_to_init tmr_to = goes cl_to_open
next cfg c cl_to_init purge = goes purged
next cfg c cl_to_open connecting = goes cl_opening
next cfg c cl_to_open connected = goes (up cfg c)
next cfg c cl_to_open purge = goes purged
next cfg c cl_opening connected = goes (up cfg c)
next cfg c cl_opening closing = goes cl_closing
next cfg c cl_opening purge = goes purged
next cfg c cl_open app_send_start = goes cl_sending
next cfg c cl_open closing = goes cl_closing
next cfg c cl_open snd_win = goes cl_open
next cfg c cl_open no_snd_win = goes cl_open
next cfg c cl_open tmr_to = goes cl_to_close
next cfg c cl_open purge = goes purged
next cfg c cl_sending closing = goes cl_closing
next cfg c cl_sending snd_win = goes cl_sending
next cfg c cl_sending no_snd_win = goes cl_no_snd_win
next cfg c cl_sending tmr_to = goes cl_to_close
next cfg c cl_sending app_send_stop = goes cl_open
next cfg c cl_sending purge = goes purged
next cfg c cl_no_snd_win closing = goes cl_closing
next cfg c cl_no_snd_win tmr_to = goes cl_to_close
next cfg c cl_no_snd_win snd_win = goes cl_sending
next cfg c cl_no_snd_win app_send_stop = goes cl_open
next cfg c cl_no_snd_win purge = goes purged
next cfg c cl_to_close closing = goes cl_closing
next cfg c cl_to_close app_send_start = goes cl_to_close
next cfg c cl_to_close app_send_stop = goes cl_to_close
next cfg c cl_to_close snd_win = goes cl_to_close
next cfg c cl_to_close no_snd_win = goes cl_to_close
next cfg c cl_to_close purge = misfiled
next cfg c cl_closing closed = goes cl_closed
next cfg c cl_closing app_send_start = goes cl_closing
next cfg c cl_closing app_send_stop = goes cl_closing
next cfg c cl_closing purge = goes purged
next cfg c cl_closed tmr_to = goes cl_to_open
next cfg c cl_closed purge = goes purged
next cfg c srv_open app_send_start = goes srv_sending
next cfg c srv_open closing = goes srv_closing
next cfg c srv_open snd_win = goes srv_open
next cfg c srv_open no_snd_win = goes srv_open
next cfg c srv_open purge = goes purged
next cfg c srv_sending closing = goes srv_closing
next cfg c srv_sending snd_win = goes srv_sending
next cfg c srv_sending no_snd_win = goes srv_no_snd_win
next cfg c srv_sending app_send_stop = goes srv_open
next cfg c srv_sending purge = goes purged
next cfg c srv_no_snd_win closing = goes srv_closing
next cfg c srv_no_snd_win snd_win = goes srv_sending
next cfg c srv_no_snd_win app_send_stop = goes srv_open
next cfg c srv_no_snd_win purge = goes purged
next cfg c srv_closing closed = goes srv_closed
next cfg c srv_closing app_send_start = goes srv_closing
next cfg c srv_closing app_send_stop = goes srv_closing
next cfg c srv_closing purge = goes purged
next cfg c listen purge = goes purged
next cfg c purged closing = goes purged
next cfg c purged closed = goes purged
next cfg c _ _ = refused

-- The queue that a session of each state stands in.
abbrev pub home : State → Option Queue
home cl_to_init = some to_init_cbs
home cl_to_open = some to_open_cbs
home cl_sending = some to_send_cbs
home cl_to_close = some to_close_cbs
home cl_closed = some closed_cbs
home srv_sending = some to_send_cbs
home _ = none

-- How often a session with this home stands in a queue.
abbrev pub stands : Option Queue → Queue → ℕ
stands (some to_init_cbs) to_init_cbs = 1
stands (some to_open_cbs) to_open_cbs = 1
stands (some to_close_cbs) to_close_cbs = 1
stands (some to_send_cbs) to_send_cbs = 1
stands (some closed_cbs) closed_cbs = 1
stands _ _ = 0

-- The states in which the test timer may run.
abbrev pub timed : State → Bool
timed cl_to_init = true
timed cl_open = true
timed cl_sending = true
timed cl_no_snd_win = true
timed cl_closed = true
timed _ = false
