-- ===== src/TestSm/Keep.antt =====
-- Every event leaves the session in the queue of its new state.
mod Queued
mod Free
use warp.Prelude.{ℕ, suc, ◌≡◌, ◌≢◌, refl}
use warp.Prelude.Outcome.{ok}
use warp.TestSm.{
  State, cl_to_init, cl_to_open, cl_opening, cl_open, cl_sending, cl_no_snd_win, cl_to_close,
  cl_closing, cl_closed, srv_opening, srv_open, srv_sending, srv_no_snd_win, srv_closing,
  srv_closed, listen, purged, Event, enter_state, Config, Sys,
}
use warp.TestSm.Machine.{dispatch_event}
use warp.TestSm.React.{IsQueued}
use Queued.{keep-cl_to_init, keep-cl_to_open, keep-cl_sending, keep-cl_to_close, keep-cl_closed}
use Free.{
  keep-cl_opening, keep-cl_open, keep-cl_no_snd_win, keep-cl_closing, keep-srv_opening,
  keep-srv_open, keep-srv_sending, keep-srv_no_snd_win, keep-srv_closing, keep-srv_closed,
  keep-listen, keep-purged,
}

keep_at :
    (n : ℕ) (cfg : Config) (c : ℕ) (s : Sys)
    → IsQueued s c
    → (st : State) (e : Event) (s' : Sys) → s.test_state c ≡ st
    → e ≢ enter_state
    → dispatch_event (suc (suc (suc n))) cfg c e s ≡ ok s'
    → IsQueued s' c
keep_at n cfg c s q cl_to_init = keep-cl_to_init n cfg c s q
keep_at n cfg c s q cl_to_open = keep-cl_to_open n cfg c s q
keep_at n cfg c s q cl_opening = keep-cl_opening n cfg c s q
keep_at n cfg c s q cl_open = keep-cl_open n cfg c s q
keep_at n cfg c s q cl_sending = keep-cl_sending n cfg c s q
keep_at n cfg c s q cl_no_snd_win = keep-cl_no_snd_win n cfg c s q
keep_at n cfg c s q cl_to_close = keep-cl_to_close n cfg c s q
keep_at n cfg c s q cl_closing = keep-cl_closing n cfg c s q
keep_at n cfg c s q cl_closed = keep-cl_closed n cfg c s q
keep_at n cfg c s q srv_opening = keep-srv_opening n cfg c s q
keep_at n cfg c s q srv_open = keep-srv_open n cfg c s q
keep_at n cfg c s q srv_sending = keep-srv_sending n cfg c s q
keep_at n cfg c s q srv_no_snd_win = keep-srv_no_snd_win n cfg c s q
keep_at n cfg c s q srv_closing = keep-srv_closing n cfg c s q
keep_at n cfg c s q srv_closed = keep-srv_closed n cfg c s q
keep_at n cfg c s q listen = keep-listen n cfg c s q
keep_at n cfg c s q purged = keep-purged n cfg c s q

-- A session that stands in the queue of its state, and in no other, does so after every event that
-- its handler accepts.
pub dispatch_event-IsQueued :
    (n : ℕ) (cfg : Config) (c : ℕ) (e : Event) (s s' : Sys)
    → IsQueued s c
    → e ≢ enter_state
    → dispatch_event (suc (suc (suc n))) cfg c e s ≡ ok s'
    → IsQueued s' c
dispatch_event-IsQueued n cfg c e s s' q ne r = keep_at n cfg c s q (s.test_state c) e s' refl ne r
