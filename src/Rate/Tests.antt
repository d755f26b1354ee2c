-- ===== src/Rate/Tests.antt =====
-- Runs of the rate limits and the witnesses of their theorems: a rate of 5, and two cores that share it.
use warp.Prelude.{ℕ, ◌≢◌, ◌+◌, ◌≤◌, ◌≡◌, refl, true, false, some, [], ◌∷◌, length, get_or, arith}
use warp.Timer.{Stats}
use warp.TestSm.{RunFlags, Sys, cl_to_open, trmt_open}
use warp.Rate.Timer.{test_case_tmr_cb, tmr_cb-runs}
use warp.Rate.{
  Cfg, Limit, ready, max_slot_count, spread, take, rate_limit_cfg_init, rate_limit_init, divide,
  slot_count, take_all, first_left, spread_rest, find_index, index_of,
}
use warp.Rate.Spread.{sum}
use warp.Rate.Divide.{rate_limit_cfg_init-sum}
use warp.Rate.Share.{rate_limit_init-share}
use warp.Rate.Interval.{rate_limit_available, granted, granted-sum}

abbrev five : Cfg
five = record { rlc_count = 5; rlc_target = 5; rlc_slots = 1 ∷ 1 ∷ 1 ∷ 1 ∷ 1 ∷ [] }

cfg_five : rate_limit_cfg_init (some 5) ≡ some five
unfolding rate_limit_cfg_init divide slot_count
cfg_five = refl

-- Seven units over three slots.
seven_over_three : divide 3 7 ≡ some (3 ∷ 2 ∷ 2 ∷ [])
unfolding divide spread_rest spread find_index index_of
seven_over_three = refl

abbrev two_of_five : Limit
two_of_five = record {
  rl_current_rate = 1;
  rl_count = 5;
  rl_current_index = 0;
  rl_max_burst = 4;
  rl_slots = 1 ∷ 0 ∷ 1 ∷ 0 ∷ 0 ∷ [];
}

share_of_two :
    rate_limit_init true five 2 2 4
    ≡ ready two_of_five (record five { rlc_slots = 0 ∷ 1 ∷ 0 ∷ 1 ∷ 1 ∷ [] })
unfolding rate_limit_init take_all take first_left
share_of_two = refl

rate_limit_cfg_init-sum_example :
    (cfg : Cfg) × (rate_limit_cfg_init (some 5) ≡ some cfg)
    × (sum cfg.rlc_slots ≡ 5)
    × (length cfg.rlc_slots ≡ cfg.rlc_count)
    × (cfg.rlc_count ≤ max_slot_count)
rate_limit_cfg_init-sum_example = rate_limit_cfg_init-sum 5 (omega arith) (omega arith)

rate_limit_init-share_example :
    (rl : Limit) × (cfg' : Cfg) × (rate_limit_init true five 2 2 4 ≡ ready rl cfg')
    × (sum rl.rl_slots ≡ 2)
    × (sum cfg'.rlc_slots + 2 ≡ 5)
    × (rl.rl_current_rate ≡ get_or rl.rl_slots 0 0)
rate_limit_init-share_example =
    rate_limit_init-share five 2 2 4 refl (omega arith) (omega arith) (omega arith) (omega arith)

abbrev running : RunFlags
running = record { in_progress = true; rate_reached = false }

one_available : 1 ≤ rate_limit_available two_of_five
unfolding rate_limit_available
one_available = omega arith

granted-sum_example : granted 5 two_of_five ≡ 2
granted-sum_example = granted-sum two_of_five refl refl refl

abbrev no_stats : Stats
no_stats = record {
  timers_set = 0;
  failed = 0;
  cancelled = 0;
  fired = 0;
  invalid_flags = 0;
  timeout_overflow = 0;
}

-- A test case whose runner of opens is at its rate.
abbrev at_rate : Sys
at_rate = record {
  test_state = λ c. cl_to_open;
  cbq = λ q. [];
  run_flags = λ r. record { in_progress = false; rate_reached = true };
  run_msgs = [];
  app_calls = [];
  timers = record {
    wheel = record {
      tw_size = 4;
      tw_step = 100;
      tw_current = 0;
      tw_last_advance = 0;
      tw_wheel = [];
    };
    on_list = λ c. false;
    stats = no_stats;
  };
  now_us = 0;
}

five_ne_zero : ◌≢◌ {A = ℕ} 5 0
five_ne_zero = omega arith

tmr_cb-runs_example :
    (p : Limit × Sys) × (test_case_tmr_cb trmt_open two_of_five at_rate ≡ some p)
    × (p.1.run_flags trmt_open ≡ record { in_progress = true; rate_reached = false })
    × (p.1.run_msgs ≡ trmt_open ∷ [])
tmr_cb-runs_example = tmr_cb-runs trmt_open two_of_five at_rate five_ne_zero
