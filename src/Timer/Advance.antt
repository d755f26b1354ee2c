-- ===== src/Timer/Advance.antt =====
-- `tpg_time_wheel_advance` and `time_advance` of src/tpg_timer.c. The state is a wheel with its flags
-- beside the rest of the program, which the callback of a timer may change too.
--
-- A callback takes its own entry off the bucket and may set timers, which enter at the head of a
-- bucket; so a walk along the links visits the entries that the bucket held when the walk began.
use warp.Prelude.{
  ℕ, zero, suc, ◌+◌, ◌-◌, ◌/◌, ◌%◌, ◌^◌, Option, none, some, List, [], ◌∷◌, get_or, ltb, ◌==◌,
  if◌then◌else◌,
}
use warp.Timer.{Timers}

-- `GCFG_TMR_STEP_ADVANCE`
abbrev pub step_advance : ℕ
step_advance = 25

module _ {X : Type 0} (cb : ℕ → Timers × X → Timers × X) (max_run_cnt : ℕ) where
  -- The inner loop: callbacks along one bucket, until the count is used up.
  unfoldable pub walk_bucket : List ℕ → ℕ → Timers × X → (Timers × X) × ℕ
  walk_bucket [] cnt s = (s, cnt)
  walk_bucket (c ∷ cs) cnt s =
      let rest = walk_bucket cs (cnt + 1) (cb c s) in if ltb cnt max_run_cnt then rest else (s, cnt)

  abbrev pub bump_current : Timers × X → Timers × X
  bump_current (t, x) =
      let w = t.wheel in
      (record t { wheel = record w { tw_current = (w.tw_current + 1) % w.tw_size } }, x)

  -- The outer loop, with fuel for the buckets; the count goes with the state.
  unfoldable pub advance_to : ℕ → ℕ → ℕ → Timers × X → Option ((Timers × X) × ℕ)
  advance_to zero now_idx cnt s = none
  advance_to (suc fuel) now_idx cnt s =
      let w = s.0.wheel in
      let (s', cnt') = walk_bucket (get_or w.tw_wheel w.tw_current []) cnt s in
      let rest = advance_to fuel now_idx cnt' (bump_current s') in
      if w.tw_current == now_idx
      then some (s, cnt)
      else if cnt' == max_run_cnt
      then some (s', cnt')
      else rest

  -- `now` in cycles.
  unfoldable pub wheel_advance : ℕ → ℕ → ℕ → Timers × X → Option ((Timers × X) × ℕ)
  wheel_advance fuel cycles_per_us now s =
      let w = s.0.wheel in
      elim (advance_to fuel (now / cycles_per_us / w.tw_step % w.tw_size) 0 s) [
        | none ↦ none
        | some r ↦
            let t = r.0.0 in
            let v = t.wheel in
            some ((record t { wheel = record v { tw_last_advance = now } }, r.0.1), r.1)
      ]

  -- `tcp_time_should_advance` and one branch of `time_advance`.
  unfoldable pub advance_if_due : ℕ → ℕ → ℕ → Timers × X → Option ((Timers × X) × ℕ)
  unfolding wheel_advance
  advance_if_due fuel cycles_per_us now s =
      if ltb step_advance ((now + 2 ^ 64 - s.0.wheel.tw_last_advance) % 2 ^ 64 / cycles_per_us)
      then wheel_advance fuel cycles_per_us now s
      else some (s, 0)
