-- ===== src/TestSm.antt =====
-- The session state machine of the test engine: inc/tpg_tests_sm_states.h, inc/tpg_tests_sm.h,
-- src/tpg_tests_sm.c, with the queues of inc/tpg_tests.h that it moves control blocks between.
-- The children hold the handlers and what is proved of them.
pub mod Queues
pub mod Client
pub mod Server
pub mod Machine
pub mod Spec
pub mod React
pub mod Keep
pub mod Frame
pub mod Timeouts
pub mod Sessions
mod Tests
use warp.Prelude.{ℕ, Bool, List}
use warp.Timer.{Timers}

-- `test_sm_state_t`
pub data State : Type 0 where
  cl_to_init cl_to_open cl_opening cl_open cl_sending cl_no_snd_win cl_to_close : State
  cl_closing cl_closed : State
  srv_opening srv_open srv_sending srv_no_snd_win srv_closing srv_closed : State
  listen purged : State

-- `test_sm_event_t`
pub data Event : Type 0 where
  enter_state tmr_to connecting connected closing closed no_snd_win snd_win : Event
  app_send_start app_send_stop purge : Event

-- `tpg_delay_t`; a delay without a value is infinite.
pub record Delay : Type 0 where
  pub d_value : ℕ
  pub has_d_value : Bool

-- What the machine reads of the test case. `conn_up_sends` says for which control blocks the
-- application's `conn_up` raises TEST_NOTIF_APP_SEND_START, the one notification that it can raise.
pub record Config : Type 0 where
  pub tc_init_delay : Delay
  pub tc_uptime : Delay
  pub tc_downtime : Delay
  pub conn_up_sends : ℕ → Bool

-- The five lists of `test_oper_state_t`.
pub data Queue : Type 0 where
  to_init_cbs to_open_cbs to_close_cbs to_send_cbs closed_cbs : Queue

-- `test_run_msg_type_t`
pub data Run : Type 0 where
  trmt_open trmt_close trmt_send : Run

-- The two bits of `trs_flags` for one type of run.
pub record RunFlags : Type 0 where
  pub in_progress : Bool
  pub rate_reached : Bool

-- The calls into the application, in order.
pub data AppCall : Type 0 where
  conn_up conn_down : ℕ → AppCall

-- The part of `test_case_info_t` and of its control blocks that the machine reads and writes.
-- `run_msgs` are the RUN messages posted so far, `app_calls` the calls into the application, and
-- `now_us` the reading of the clock, which stays the same through one event.
pub record Sys : Type 0 where
  pub test_state : ℕ → State
  pub cbq : Queue → List ℕ
  pub run_flags : Run → RunFlags
  pub run_msgs : List Run
  pub app_calls : List AppCall
  pub timers : Timers
  pub now_us : ℕ
