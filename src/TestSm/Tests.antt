-- ===== src/TestSm/Tests.antt =====
-- Runs of the session machine, and its theorems at concrete sessions.
use warp.Prelude.{
  ℕ, ◌≡◌, refl, ◌⊎◌, inl, inr, Bool, true, false, ◌==◌, if◌then◌else◌, arith, List, [], ◌∷◌,
  replicate, occ, contains, remove,
}
use warp.Prelude.Outcome.{Outcome, ok}
use warp.Timer.{Timers, timer_set, timer_cancel}
use warp.TestSm.{
  State, cl_to_open, cl_opening, cl_sending, cl_no_snd_win, cl_to_close, cl_closed, Event,
  connected, closing, app_send_stop, no_snd_win, Config, Sys, Queue, to_open_cbs, to_send_cbs,
  trmt_send, conn_up,
}
use warp.TestSm.Queues.{
  resched_runner, add_to_send, cbq_rem, set_state, tmr_set_unless_inf, app_call, tmr_cancel_if_set,
}
use warp.TestSm.Machine.{dispatch_event}
use warp.TestSm.Spec.{home, stands, report, goes}
use warp.TestSm.React.{IsQueued, dispatch_event-reaction}
use warp.TestSm.Keep.{dispatch_event-IsQueued}
use warp.TestSm.Frame.{dispatch_event_frame}
use warp.TestSm.Timeouts.{IsTimed, handle_test_to, dispatch_event-IsTimed, handle_test_to-goes}
use warp.TestSm.Sessions.{run, run-IsQueued}

-- No initial delay, up for 2 seconds, down for ever; the application sends at once.
abbrev cfg : Config
cfg = record {
  tc_init_delay = record { d_value = 0; has_d_value = true };
  tc_uptime = record { d_value = 2; has_d_value = true };
  tc_downtime = record { d_value = 0; has_d_value = false };
  conn_up_sends = λ c. true;
}

abbrev timers : Bool → Timers
timers b = record {
  wheel = record {
    tw_size = 40000;
    tw_step = 100;
    tw_current = 2;
    tw_last_advance = 0;
    tw_wheel = [];
  };
  on_list = λ d. if d == 7 then b else false;
  stats = record {
    timers_set = 0;
    failed = 0;
    cancelled = 0;
    fired = 0;
    invalid_flags = 0;
    timeout_overflow = 0;
  };
}

-- Session 7 in a state, in the queue of that state, with its timer on or off; session 8 is opening.
abbrev seven : State → Bool → Sys
seven st b = record {
  test_state = λ d. if d == 7 then st else cl_opening;
  cbq = λ q. replicate (stands (home st) q) 7;
  run_flags = λ r. record { in_progress = false; rate_reached = false };
  run_msgs = [];
  app_calls = [];
  timers = timers b;
  now_us = 250;
}

abbrev after : Outcome Sys → Sys → Sys
after r s = elim r [ ok t ↦ t | _ ↦ s ]

opening_sends :
    let t =
      after (dispatch_event 3 cfg 7 connected (seven cl_to_open false)) (seven cl_closed true) in
    (t.test_state 7 ≡ cl_sending)
    × (t.cbq to_send_cbs ≡ 7 ∷ [])
    × (t.cbq to_open_cbs ≡ [])
    × (t.app_calls ≡ conn_up 7 ∷ [])
    × (t.run_msgs ≡ trmt_send ∷ [])
    × (t.timers.on_list 7 ≡ true)
unfolding dispatch_event resched_runner add_to_send timer_set contains remove cbq_rem set_state
    tmr_set_unless_inf app_call
opening_sends = (refl, refl, refl, refl, refl, refl)

seven-IsQueued : (b : Bool) → IsQueued (seven cl_sending b) 7
unfolding occ
seven-IsQueued b = record {
  in_to_init = refl;
  in_to_open = refl;
  in_to_close = refl;
  in_to_send = refl;
  in_closed = refl;
}

eight-IsQueued : (b : Bool) → IsQueued (seven cl_sending b) 8
unfolding occ
eight-IsQueued b = record {
  in_to_init = refl;
  in_to_open = refl;
  in_to_close = refl;
  in_to_send = refl;
  in_closed = refl;
}

dispatch_event-reaction_example :
    report 7 (dispatch_event 3 cfg 7 no_snd_win (seven cl_sending true)) ≡ goes cl_no_snd_win
dispatch_event-reaction_example =
    dispatch_event-reaction 0 cfg 7 no_snd_win (seven cl_sending true) (seven-IsQueued true)
      (λ e. cc)

abbrev stopped : Sys
stopped =
    after (dispatch_event 3 cfg 7 app_send_stop (seven cl_sending true)) (seven cl_closed true)

stopped_lem : dispatch_event 3 cfg 7 app_send_stop (seven cl_sending true) ≡ ok stopped
unfolding dispatch_event contains remove cbq_rem set_state
stopped_lem = refl

dispatch_event-IsQueued_example : IsQueued stopped 7
dispatch_event-IsQueued_example =
    dispatch_event-IsQueued 0 cfg 7 app_send_stop (seven cl_sending true) stopped
      (seven-IsQueued true) (λ e. cc) stopped_lem

dispatch_event_frame_example :
    (stopped.test_state 8 ≡ cl_opening)
    × (stopped.timers.on_list 8 ≡ false)
    × ((p : Queue) → occ 8 (stopped.cbq p) ≡ occ 8 ((seven cl_sending true).cbq p))
dispatch_event_frame_example =
    dispatch_event_frame 3 cfg 7 8 app_send_stop (seven cl_sending true) stopped (omega arith)
      stopped_lem

dispatch_event-IsTimed_example : IsTimed stopped 7
dispatch_event-IsTimed_example =
    dispatch_event-IsTimed 0 cfg 7 app_send_stop (seven cl_sending true) stopped refl (λ e. cc)
      (λ e. cc) stopped_lem

handle_test_to-goes_example :
    report 7 (handle_test_to 3 cfg 7 (seven cl_sending true)) ≡ goes cl_to_close
handle_test_to-goes_example =
    handle_test_to-goes 0 cfg 7 (seven cl_sending true) (seven-IsQueued true) refl refl

abbrev fresh : Sys
fresh = seven cl_opening false

abbrev script : List (ℕ × Event)
script = (7, app_send_stop) ∷ (8, connected) ∷ (7, closing) ∷ []

abbrev finish : Sys
finish = after (run 3 cfg script (seven cl_sending true)) (seven cl_closed true)

finish_lem : run 3 cfg script (seven cl_sending true) ≡ ok finish
unfolding run dispatch_event resched_runner add_to_send timer_set timer_cancel contains remove
    cbq_rem set_state tmr_set_unless_inf app_call tmr_cancel_if_set
finish_lem = refl

live-IsQueued : (d : ℕ) → ((d ≡ 7) ⊎ (d ≡ 8)) → IsQueued (seven cl_sending true) d
live-IsQueued d (inl e) = rw e (seven-IsQueued true)
live-IsQueued d (inr e) = rw e (eight-IsQueued true)

run-IsQueued_example : IsQueued finish 8
run-IsQueued_example =
    run-IsQueued 0 cfg (λ d. (d ≡ 7) ⊎ (d ≡ 8)) script (seven cl_sending true) finish live-IsQueued
      (inl refl, (λ e. cc), (inr refl, (λ e. cc), (inl refl, (λ e. cc), tt))) finish_lem 8
      (inr refl)
