-- ===== src/TestSm/Timeouts.antt =====
-- The test timer of a session: `l4cb_handle_test_to` of src/tpg_timer.c, and the states in which a
-- timer can run.
use warp.Prelude.{
  if◌then◌else◌, ℕ, suc, ◌≡◌, ◌≢◌, ◌∙◌, ◌⊎◌, inl, inr, refl, Bool-cases, contains, remove, ◌++◌,
  ◌∷◌, [], true, false, arith,
}
use warp.Prelude.Outcome.{ok, fault, not_on_list}
use warp.Timer.{Timers, timer_cancel, unlink_fired}
use warp.TestSm.{
  State, cl_to_init, cl_to_open, cl_to_close, cl_closed, Event, enter_state, tmr_to, closing,
  Config, Sys, Queue, to_close_cbs, conn_down,
}
use warp.TestSm.Queues.{
  Act, set_queue, cbq_add, cbq_rem, resched_runner, add_to_open, add_to_close, add_to_send,
  test_tmr_set, tmr_set_unless_inf, tmr_cancel_if_set, set_state, app_call,
}
use warp.TestSm.Machine.{dispatch_event}
use warp.TestSm.Spec.{goes, next, report, timed}
use warp.TestSm.React.{IsQueued, dispatch_event_lem}

-- `l4cb_handle_test_to`: the timer leaves the wheel, its flag is cleared, and the machine is told.
unfoldable pub handle_test_to : ℕ → Config → ℕ → Act
handle_test_to n cfg c s =
    dispatch_event n cfg c tmr_to (record s { timers = unlink_fired s.timers c })

-- The timer of a session runs only in the states that handle a timeout.
abbrev pub IsTimed : Sys → ℕ → Type 0
IsTimed s c = (if s.timers.on_list c then timed (s.test_state c) else true) ≡ true

on_list-cancel : (t : Timers) (c : ℕ) → (timer_cancel t c).0.on_list c ≡ false
unfolding timer_cancel
on_list-cancel t c = ground arith

cbq_rem-cases :
    (p : Queue) (c : ℕ) (s : Sys)
    → (cbq_rem p c s ≡ fault not_on_list)
      ⊎ (cbq_rem p c s ≡ ok (set_queue p (remove c (s.cbq p)) s))
unfolding cbq_rem
cbq_rem-cases p c s = elim (Bool-cases (contains c (s.cbq p))) [
  | inl e ↦ inr (rw e)
  | inr e ↦ inl (rw e)
]

module _ (n : ℕ) (cfg : Config) (c : ℕ) (s : Sys) (q : IsTimed s c) where
  IsTimed-to_close_closing :
      (s' : Sys)
      → s.test_state c ≡ cl_to_close
      → dispatch_event (suc (suc (suc n))) cfg c closing s ≡ ok s'
      → IsTimed s' c
  unfolding dispatch_event set_queue set_state app_call
  IsTimed-to_close_closing s' h r =
      let t : Sys = record s { app_calls = s.app_calls ++ conn_down c ∷ [] } in
      ground (arith, cbq_rem-cases to_close_cbs c t)

  IsTimed-at :
      (st : State) (e : Event) (s' : Sys)
      → s.test_state c ≡ st
      → e ≢ enter_state
      → (e ≡ tmr_to → s.timers.on_list c ≡ false)
      → dispatch_event (suc (suc (suc n))) cfg c e s ≡ ok s'
      → IsTimed s' c
  unfolding dispatch_event set_queue cbq_add cbq_rem resched_runner add_to_open add_to_close
      add_to_send test_tmr_set tmr_set_unless_inf tmr_cancel_if_set set_state app_call
  IsTimed-at cl_to_init e s' h ne f r = ground (arith, on_list-cancel s.timers c)
  IsTimed-at cl_to_close closing s' h ne f r = IsTimed-to_close_closing s' h r
  IsTimed-at _ e s' h ne f r = ground (arith, on_list-cancel s.timers c)

-- After an event that a session's handler accepts, its timer runs only in a state that handles a
-- timeout, if it did so before, and if a timeout is reported for a timer that is not running.
pub dispatch_event-IsTimed :
    (n : ℕ) (cfg : Config) (c : ℕ) (e : Event) (s s' : Sys)
    → IsTimed s c
    → e ≢ enter_state
    → (e ≡ tmr_to → s.timers.on_list c ≡ false)
    → dispatch_event (suc (suc (suc n))) cfg c e s ≡ ok s'
    → IsTimed s' c
dispatch_event-IsTimed n cfg c e s s' q ne f r =
    IsTimed-at n cfg c s q (s.test_state c) e s' refl ne f r

-- Where a session goes when its timer fires.
abbrev pub after_timeout : State → State
after_timeout cl_to_init = cl_to_open
after_timeout cl_closed = cl_to_open
after_timeout _ = cl_to_close

timeout_next :
    (cfg : Config) (c : ℕ) (st : State)
    → timed st ≡ true
    → next cfg c st tmr_to ≡ goes (after_timeout st)
timeout_next cfg c cl_to_init h = refl
timeout_next cfg c _ h = ground arith

-- A test timer that fires never meets a failed assert: the handler takes a session that waits to
-- the to-open queue, and one that is up to the to-close queue.
pub handle_test_to-goes :
    (n : ℕ) (cfg : Config) (c : ℕ) (s : Sys)
    → IsQueued s c
    → IsTimed s c
    → s.timers.on_list c ≡ true
    → report c (handle_test_to (suc (suc (suc n))) cfg c s) ≡ goes (after_timeout (s.test_state c))
unfolding handle_test_to
handle_test_to-goes n cfg c s q t on =
    let fired : Sys = record s { timers = unlink_fired s.timers c } in
    dispatch_event_lem n cfg c tmr_to fired
      (record {
        in_to_init = q.in_to_init;
        in_to_open = q.in_to_open;
        in_to_close = q.in_to_close;
        in_to_send = q.in_to_send;
        in_closed = q.in_closed;
      })
      (λ e. cc)
    ∙ timeout_next cfg c (s.test_state c) (ground arith)
