-- ===== src/Engine/Tests.antt =====
-- Runs of the runners, and their theorems on a queue of three sessions.
use warp.Prelude.{
  ℕ, ◌≡◌, ◌≤◌, ◌⊎◌, ◌+◌, refl, true, false, ◌==◌, ◌||◌, if◌then◌else◌, arith, none, some, List, [],
  ◌∷◌, occ, contains, remove, length,
}
use warp.Prelude.Outcome.{Outcome, ok}
use warp.Timer.{Timers}
use warp.TestSm.{
  State, cl_to_open, cl_opening, cl_sending, cl_to_close, Config, Queue, to_open_cbs, to_close_cbs,
  to_send_cbs, trmt_open,
}
use warp.TestSm.Queues.{set_state, resched_runner, add_to_send, cbq_rem}
use warp.TestSm.Machine.{dispatch_event}
use warp.Rate.Interval.{Answer, done, again, rate_limit_available, test_case_rate_limit_update}
use warp.Engine.{
  Engine, Callbacks, with_sys, on_sys, with_first, batch, opened, open_turn, close_turn, try_later,
  tell_sent, after_send, send_data, send_turn, is_empty, update_after, run_batch,
  test_case_run_open_cb, test_case_run_close_cb, test_case_run_send_cb,
}
use warp.Engine.Opens.{run_open-spends}
use warp.Engine.Sessions.{connect_all, AreWaiting, batch-opens}

abbrev cfg : Config
cfg = record {
  tc_init_delay = record { d_value = 0; has_d_value = true };
  tc_uptime = record { d_value = 2; has_d_value = true };
  tc_downtime = record { d_value = 0; has_d_value = false };
  conn_up_sends = λ c. true;
}

abbrev timers : Timers
timers = record {
  wheel = record {
    tw_size = 40000;
    tw_step = 100;
    tw_current = 2;
    tw_last_advance = 0;
    tw_wheel = [];
  };
  on_list = λ d. false;
  stats = record {
    timers_set = 0;
    failed = 0;
    cancelled = 0;
    fired = 0;
    invalid_flags = 0;
    timeout_overflow = 0;
  };
}

abbrev on_queue : Queue → Queue → List ℕ
on_queue to_open_cbs to_open_cbs = 1 ∷ 2 ∷ 3 ∷ []
on_queue to_close_cbs to_close_cbs = 1 ∷ 2 ∷ 3 ∷ []
on_queue to_send_cbs to_send_cbs = 1 ∷ 2 ∷ 3 ∷ []
on_queue _ _ = []

-- Sessions 1, 2 and 3 in a state and a queue, two of which may start in this interval.
abbrev three : State → Queue → Engine
three st q = record {
  sys = record {
    test_state = λ d. st;
    cbq = on_queue q;
    run_flags = λ r. record { in_progress = true; rate_reached = false };
    run_msgs = [];
    app_calls = [];
    timers = timers;
    now_us = 250;
  };
  limits = λ r. record {
    rl_current_rate = 2;
    rl_count = 2;
    rl_current_index = 0;
    rl_max_burst = 4;
    rl_slots = 2 ∷ [];
  };
  gs_up = 0;
  gs_failed = 0;
  gs_data_failed = 0;
  gs_data_null = 0;
  rs_data_per_s = 0;
}

-- Session 1 has no data, the others send 4 bytes, at once and to the end; every close succeeds.
abbrev calls : Callbacks
calls = record {
  client_open_cb = λ c s. ok (s, true);
  client_close_cb = λ c s. cbq_rem to_close_cbs c s;
  app_send = λ c s. ok (s, if c == 1 then none else some (1 ∷ 2 ∷ 3 ∷ 4 ∷ []));
  session_send_cb = λ c data_of s. ok (s, false, length data_of);
  app_data_sent = λ c n s. ok (s, n == 4);
}

-- The engine and the answer of a run, or what it started from.
abbrev after : Outcome (Engine × Answer) → Engine → Engine × Answer
after o e = elim o [ ok r ↦ r | _ ↦ (e, done) ]

closes :
    let r =
      after
        (test_case_run_close_cb calls (three cl_to_close to_close_cbs))
        (three cl_opening to_open_cbs) in
    (r.0.sys.cbq to_close_cbs ≡ 3 ∷ []) × (r.1 ≡ done)
unfolding test_case_run_close_cb run_batch update_after batch with_first close_turn on_sys with_sys
    rate_limit_available test_case_rate_limit_update cbq_rem contains remove
closes = (refl, refl)

-- Session 1 without data goes to the end of the queue, and session 2 sends a whole message.
sends :
    let r =
      after
        (test_case_run_send_cb calls (three cl_sending to_send_cbs))
        (three cl_opening to_open_cbs) in
    (r.0.sys.cbq to_send_cbs ≡ 2 ∷ 3 ∷ 1 ∷ [])
    × (r.0.gs_data_null ≡ 1)
    × (r.0.rs_data_per_s ≡ 1)
    × (r.1 ≡ done)
unfolding test_case_run_send_cb run_batch update_after batch with_first send_turn send_data
    after_send try_later tell_sent on_sys with_sys rate_limit_available test_case_rate_limit_update
    cbq_rem add_to_send resched_runner contains remove
sends = (refl, refl, refl, refl)

abbrev opened_two : Engine × Answer
opened_two =
    after (test_case_run_open_cb (connect_all cfg calls) (three cl_to_open to_open_cbs))
      (three cl_opening to_close_cbs)

opens_two_lem :
    test_case_run_open_cb (connect_all cfg calls) (three cl_to_open to_open_cbs) ≡ ok opened_two
unfolding test_case_run_open_cb run_batch update_after batch with_first open_turn opened with_sys
    rate_limit_available test_case_rate_limit_update dispatch_event cbq_rem contains remove
    set_state
opens_two_lem = refl

run_open-spends_example :
    (k : ℕ) × (k ≤ 2)
    × ((k ≡ 2) ⊎ (opened_two.0.sys.cbq to_open_cbs ≡ []))
    × ((opened_two.0.limits trmt_open).rl_current_rate + k ≡ 2)
    × (opened_two.0.gs_up + opened_two.0.gs_failed ≡ 0 + k)
    × (opened_two.1
        ≡ (if (k == 2) || is_empty (opened_two.0.sys.cbq to_open_cbs) then done else again))
unfolding rate_limit_available
run_open-spends_example =
    run_open-spends (connect_all cfg calls) (three cl_to_open to_open_cbs) opened_two.0 opened_two.1
      opens_two_lem (omega arith)

three-AreWaiting : AreWaiting (1 ∷ 2 ∷ 3 ∷ []) (three cl_to_open to_open_cbs).sys
unfolding AreWaiting occ
three-AreWaiting = (refl, refl, (refl, refl, (refl, refl, tt)))

batch-opens_example :
    (t : Engine) × (batch to_open_cbs
        (open_turn (connect_all cfg calls))
        2
        0
        (three cl_to_open to_open_cbs)
      ≡ ok (t, 2))
    × (t.sys.cbq to_open_cbs ≡ 3 ∷ [])
    × (t.gs_up ≡ 2)
    × ((d : ℕ) → t.sys.test_state d ≡ (if contains d (1 ∷ 2 ∷ []) then cl_opening else cl_to_open))
batch-opens_example =
    batch-opens cfg calls 2 0 (1 ∷ 2 ∷ 3 ∷ []) (three cl_to_open to_open_cbs) refl three-AreWaiting
