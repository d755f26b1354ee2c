-- ===== src/TestSm/Queues.antt =====
-- The macros of inc/tpg_tests.h and inc/tpg_lookup.h on queues and timers, and
-- `test_resched_runner`, as actions on the state of a test case.
use warp.Prelude.{
  ℕ, ◌*◌, ◌%◌, ◌^◌, Bool, true, false, ◌||◌, List, [], ◌∷◌, ◌++◌, remove, contains, if◌then◌else◌,
  ◌==◌,
}
use warp.Prelude.Outcome.{Outcome, ok, fault, not_on_list, ◌>>◌}
use warp.Timer.{timer_set, timer_cancel}
use warp.TestSm.{
  State, Delay, Queue, to_init_cbs, to_open_cbs, to_close_cbs, to_send_cbs, closed_cbs, Run,
  trmt_open, trmt_close, trmt_send, AppCall, Sys,
}

abbrev pub Act : Type 0
Act = Sys → Outcome Sys

abbrev pub queue_eq : Queue → Queue → Bool
queue_eq to_init_cbs to_init_cbs = true
queue_eq to_open_cbs to_open_cbs = true
queue_eq to_close_cbs to_close_cbs = true
queue_eq to_send_cbs to_send_cbs = true
queue_eq closed_cbs closed_cbs = true
queue_eq _ _ = false

abbrev pub run_eq : Run → Run → Bool
run_eq trmt_open trmt_open = true
run_eq trmt_close trmt_close = true
run_eq trmt_send trmt_send = true
run_eq _ _ = false

abbrev pub skip : Act
skip s = ok s

unfoldable pub set_queue : Queue → List ℕ → Sys → Sys
set_queue q l s = record s { cbq = λ p. if queue_eq p q then l else s.cbq p }

-- TEST_CBQ_ADD: TAILQ_INSERT_TAIL.
unfoldable pub cbq_add : Queue → ℕ → Act
unfolding set_queue
cbq_add q c s = ok (set_queue q (s.cbq q ++ c ∷ []) s)

-- TEST_CBQ_REM: TAILQ_REMOVE, which is defined only for an entry of the queue that is named.
unfoldable pub cbq_rem : Queue → ℕ → Act
unfolding set_queue
cbq_rem q c s =
    if contains c (s.cbq q) then ok (set_queue q (remove c (s.cbq q)) s) else fault not_on_list

-- `test_resched_runner`; `test_case_run_msg` posts the message and returns 0 in every case.
unfoldable pub resched_runner : Run → Act
resched_runner r s =
    let f = s.run_flags r in
    if f.in_progress || f.rate_reached
    then ok s
    else ok (record s {
      run_msgs = s.run_msgs ++ r ∷ [];
      run_flags = λ p. if run_eq p r then record f { in_progress = true } else s.run_flags p;
    })

unfoldable pub add_to_open : ℕ → Act
unfolding cbq_add resched_runner
add_to_open c = cbq_add to_open_cbs c >> resched_runner trmt_open

unfoldable pub add_to_close : ℕ → Act
unfolding cbq_add resched_runner
add_to_close c = cbq_add to_close_cbs c >> resched_runner trmt_close

unfoldable pub add_to_send : ℕ → Act
unfolding cbq_add resched_runner
add_to_send c = cbq_add to_send_cbs c >> resched_runner trmt_send

-- `TPG_DELAY_VAL(d) * TPG_SEC_TO_USEC`, a product of uint32_t.
abbrev pub delay_us : Delay → ℕ
delay_us d = d.d_value * 1000000 % 2 ^ 32

-- L4CB_TEST_TMR_SET, whose status no caller reads.
unfoldable pub test_tmr_set : ℕ → ℕ → Act
test_tmr_set c us s = ok (record s { timers = (timer_set s.timers s.now_us c us).0 })

-- `if (!TPG_DELAY_IS_INF(d)) L4CB_TEST_TMR_SET(...)`
unfoldable pub tmr_set_unless_inf : ℕ → Delay → Act
tmr_set_unless_inf c d s = ok (record s {
  timers = if d.has_d_value then (timer_set s.timers s.now_us c (delay_us d)).0 else s.timers;
})

-- `if (L4CB_TEST_TMR_IS_SET(l4_cb)) L4CB_TEST_TMR_CANCEL(l4_cb)`
unfoldable pub tmr_cancel_if_set : ℕ → Act
tmr_cancel_if_set c s =
    ok (record s { timers = if s.timers.on_list c then (timer_cancel s.timers c).0 else s.timers })

unfoldable pub set_state : ℕ → State → Act
set_state c st s = ok (record s { test_state = λ d. if d == c then st else s.test_state d })

-- A call into the application, recorded.
unfoldable pub app_call : AppCall → Act
app_call a s = ok (record s { app_calls = s.app_calls ++ a ∷ [] })
