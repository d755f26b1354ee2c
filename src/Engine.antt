-- ===== src/Engine.antt =====
-- The runners of a test case, src/tpg_tests.c: each opens, closes or sends for the sessions at the head of
-- its queue, as many as its rate still has in the interval.
pub mod Batch
pub mod Opens
pub mod Sessions
mod Tests
use warp.Prelude.{
  ℕ, zero, suc, Bool, true, false, Option, none, some, List, [], ◌∷◌, ◌+◌, ◌==◌, if◌then◌else◌,
}
use warp.Prelude.Outcome.{Outcome, ok, fault, ◌>>=◌}
use warp.Rate.{Limit}
use warp.Rate.Interval.{Answer, rate_limit_available, test_case_rate_limit_update}
use warp.TestSm.{
  State, cl_sending, srv_sending, Queue, to_open_cbs, to_close_cbs, to_send_cbs, Run, trmt_open,
  trmt_close, trmt_send, Sys,
}
use warp.TestSm.Queues.{Act, run_eq, cbq_add, cbq_rem, add_to_open, add_to_send}

-- The part of `test_case_info_t` that the runners read and write: the sessions, the rates
-- (`tos_rates`), and the counters of `tpg_gen_stats_t` and `tpg_rate_stats_t`.
pub record Engine : Type 0 where
  pub sys : Sys
  pub limits : Run → Limit
  pub gs_up : ℕ
  pub gs_failed : ℕ
  pub gs_data_failed : ℕ
  pub gs_data_null : ℕ
  pub rs_data_per_s : ℕ

-- The callbacks of the protocol and of the application of a session, with what they do to the
-- sessions: `client_open_cb` tells of an error, `app_send` whether there are data, `session_send_cb`
-- of an error and how much was sent, `app_data_sent` of the end of a message.
pub record Callbacks : Type 0 where
  pub client_open_cb : ℕ → Sys → Outcome (Sys × Bool)
  pub client_close_cb : ℕ → Act
  pub app_send : ℕ → Sys → Outcome (Sys × Option (List ℕ))
  pub session_send_cb : ℕ → List ℕ → Sys → Outcome (Sys × Bool × ℕ)
  pub app_data_sent : ℕ → ℕ → Sys → Outcome (Sys × Bool)

unfoldable pub with_sys : Engine → Sys → Engine
with_sys e s = record e { sys = s }

-- A change of the sessions alone.
unfoldable pub on_sys : Act → Engine → Outcome Engine
on_sys f e = f e.sys >>= (λ s. ok (with_sys e s))

-- TEST_CBQ_EMPTY, and TAILQ_FIRST of what is not empty.
unfoldable pub with_first {ℓ} : {A : Type ℓ} → List ℕ → A → (ℕ → A) → A
with_first [] empty first = empty
with_first (c ∷ cs) empty first = first c

-- The loop of a runner over its queue: `turns` is how many more it may start, and the answer is how
-- many it started, counted from `count`.
unfoldable pub batch : Queue → (ℕ → Engine → Outcome Engine) → ℕ → ℕ → Engine → Outcome (Engine × ℕ)
batch q turn zero count e = ok (e, count)
batch q turn (suc turns) count e =
    with_first (e.sys.cbq q) (ok (e, count)) (λ c. turn c e >>= batch q turn turns (suc count))

-- A session that could not be opened goes to the end of the queue.
unfoldable pub opened : ℕ → Bool → Engine → Outcome Engine
opened c true e = on_sys (add_to_open c) (record e { gs_failed = e.gs_failed + 1 })
opened c false e = ok (record e { gs_up = e.gs_up + 1 })

unfoldable pub open_turn : Callbacks → ℕ → Engine → Outcome Engine
open_turn cb c e = cb.client_open_cb c e.sys >>= (λ r. opened c r.1 (with_sys e r.0))

unfoldable pub close_turn : Callbacks → ℕ → Engine → Outcome Engine
close_turn cb c = on_sys (cb.client_close_cb c)

-- `test_sm_has_data_pending`
abbrev pub is_sending : State → Bool
is_sending cl_sending = true
is_sending srv_sending = true
is_sending _ = false

-- Moved to the end of the queue, while it has data to send.
unfoldable pub try_later : ℕ → Engine → Outcome Engine
try_later c e =
    if is_sending (e.sys.test_state c)
    then on_sys (cbq_rem to_send_cbs c) e >>= on_sys (add_to_send c)
    else ok e

-- `data_sent`, when something was sent; a whole message is counted at once, where the code adds up `send_cnt`
-- and adds it to the counter after the loop.
unfoldable pub tell_sent : Callbacks → ℕ → ℕ → Engine → Outcome Engine
tell_sent cb c n e =
    if n == 0
    then ok e
    else cb.app_data_sent c n e.sys >>= (λ r. ok (
        if r.1
        then record (with_sys e r.0) { rs_data_per_s = e.rs_data_per_s + 1 }
        else with_sys e r.0))

-- What follows the send of a session.
unfoldable pub after_send : Callbacks → ℕ → (error : Bool) → ℕ → Engine → Outcome Engine
after_send cb c false n e = tell_sent cb c n e
after_send cb c true n e =
    let failed = record e { gs_data_failed = e.gs_data_failed + 1 } in
    if is_sending (e.sys.test_state c) then try_later c failed else tell_sent cb c n failed

unfoldable pub send_data : Callbacks → ℕ → Option (List ℕ) → Engine → Outcome Engine
send_data cb c none e = try_later c (record e { gs_data_null = e.gs_data_null + 1 })
send_data cb c (some data_of) e =
    cb.session_send_cb c data_of e.sys >>= (λ r. after_send cb c r.1 r.2 (with_sys e r.0))

unfoldable pub send_turn : Callbacks → ℕ → Engine → Outcome Engine
send_turn cb c e = cb.app_send c e.sys >>= (λ r. send_data cb c r.1 (with_sys e r.0))

abbrev pub is_empty : List ℕ → Bool
is_empty [] = true
is_empty (c ∷ cs) = false

-- The update of the rate after a batch.
unfoldable pub update_after : Run → Queue → Engine × ℕ → Engine × Answer
update_after r q (e, count) =
    let u =
      test_case_rate_limit_update (e.sys.run_flags r) (e.limits r) (is_empty (e.sys.cbq q)) count in
    (
      record e {
        sys = record e.sys { run_flags = λ p. if run_eq p r then u.0 else e.sys.run_flags p };
        limits = λ p. if run_eq p r then u.1 else e.limits p;
      },
      u.2,
    )

unfoldable pub run_batch :
    Run → Queue → (ℕ → Engine → Outcome Engine) → Engine → Outcome (Engine × Answer)
run_batch r q turn e =
    batch q turn (rate_limit_available (e.limits r)) 0 e >>= (λ done. ok (update_after r q done))

-- `test_case_run_open_cb`, `test_case_run_close_cb` and `test_case_run_send_cb`
unfoldable pub test_case_run_open_cb : Callbacks → Engine → Outcome (Engine × Answer)
test_case_run_open_cb cb = run_batch trmt_open to_open_cbs (open_turn cb)

unfoldable pub test_case_run_close_cb : Callbacks → Engine → Outcome (Engine × Answer)
test_case_run_close_cb cb = run_batch trmt_close to_close_cbs (close_turn cb)

unfoldable pub test_case_run_send_cb : Callbacks → Engine → Outcome (Engine × Answer)
test_case_run_send_cb cb = run_batch trmt_send to_send_cbs (send_turn cb)
