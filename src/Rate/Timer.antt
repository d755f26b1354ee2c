-- ===== src/Rate/Timer.antt =====
-- The timer that begins the next interval of a runner: `test_case_tmr_cb` of src/tpg_tests.c.
use warp.Prelude.{
  ◌≡◌, ◌≢◌, refl, true, false, none, some, Option, [], ◌∷◌, ◌++◌, if◌then◌else◌, Option-cases, inl,
  inr, arith,
}
use warp.Prelude.Outcome.{ok, fault}
use warp.Rate.{Limit}
use warp.Rate.Interval.{rate_limit_advance_interval}
use warp.TestSm.{Run, trmt_open, trmt_close, trmt_send, Sys}
use warp.TestSm.Queues.{run_eq, resched_runner}

-- The limit of the runner and the state of the test case; `none` is a limit without slots.
unfoldable pub test_case_tmr_cb : Run → Limit → Sys → Option (Limit × Sys)
unfolding resched_runner
test_case_tmr_cb r rl s =
    let f = s.run_flags r in
    let cleared = record s {
      run_flags = λ p. if run_eq p r then record f { rate_reached = false } else s.run_flags p;
    } in
    elim (rate_limit_advance_interval rl) [
      | none ↦ none
      | some next ↦ elim (resched_runner r cleared) [ ok t ↦ some (next, t) | fault e ↦ none ]
    ]

tmr_cb_at :
    (r : Run) (rl : Limit) (s : Sys)
    → rl.rl_count ≢ 0
    → run_eq r r ≡ true
    → (p : Limit × Sys) × (test_case_tmr_cb r rl s ≡ some p)
      × (p.1.run_flags r ≡ record { in_progress = true; rate_reached = false })
      × (p.1.run_msgs ≡ (if (s.run_flags r).in_progress then s.run_msgs else s.run_msgs ++ r ∷ []))
unfolding test_case_tmr_cb rate_limit_advance_interval resched_runner
tmr_cb_at r rl s h e = elim (Option-cases (test_case_tmr_cb r rl s)) [
  | inl n ↦ absurd (ground (arith, h, n, e))
  | inr (p, q) ↦ (p, q, ground (arith, q, e), ground (arith, q, e))
]

-- At a new interval a runner is in progress and not at its rate, whatever stopped it, and a message
-- to run it is posted when none was on its way.
pub tmr_cb-runs :
    (r : Run) (rl : Limit) (s : Sys)
    → rl.rl_count ≢ 0
    → (p : Limit × Sys) × (test_case_tmr_cb r rl s ≡ some p)
      × (p.1.run_flags r ≡ record { in_progress = true; rate_reached = false })
      × (p.1.run_msgs ≡ (if (s.run_flags r).in_progress then s.run_msgs else s.run_msgs ++ r ∷ []))
tmr_cb-runs trmt_open rl s h = tmr_cb_at trmt_open rl s h refl
tmr_cb-runs trmt_close rl s h = tmr_cb_at trmt_close rl s h refl
tmr_cb-runs trmt_send rl s h = tmr_cb_at trmt_send rl s h refl
