-- ===== src/Timer/Tests.antt =====
-- A wheel of four buckets, and the theorems on it.
use warp.Prelude.{ℕ, ◌%◌, ◌≡◌, ◌↔◌, ◌⊎◌, refl, some, List, [], ◌∷◌, ◌==◌, arith, occ, remove}
use warp.Timer.{
  Wheel, Timers, success, timer_set, timer_cancel, unlink_fired, get_wheel_bucket, list_remove,
}
use warp.Timer.Set.{occ_all, IsWheel, IsLinked, timer_set-IsLinked, cancel-set}
use warp.Timer.Advance.{advance_to, walk_bucket}
use warp.Timer.Progress.{advance_to_total}
use warp.Timer.Due.{get_wheel_bucket_due}

-- 4 buckets of 100 us; block 5 is on bucket 3.
abbrev wheel : Wheel
wheel = record {
  tw_size = 4;
  tw_step = 100;
  tw_current = 2;
  tw_last_advance = 0;
  tw_wheel = [] ∷ [] ∷ [] ∷ (5 ∷ []) ∷ [];
}

abbrev timers : Timers
timers = record {
  wheel = wheel;
  on_list = λ d. d == 5;
  stats = record {
    timers_set = 1;
    failed = 0;
    cancelled = 0;
    fired = 0;
    invalid_flags = 0;
    timeout_overflow = 0;
  };
}

wheel-IsWheel : IsWheel wheel
wheel-IsWheel = record { filled = refl; some_size = omega arith }

five-IsLinked : IsLinked timers 5
unfolding occ_all occ
five-IsLinked = refl

six-IsLinked : IsLinked timers 6
unfolding occ_all occ
six-IsLinked = refl

-- At 250 us, 120 us ahead is bucket 3; a timer that is on is refused.
set_buckets :
    ((timer_set timers 250 6 120).0.wheel.tw_wheel ≡ [] ∷ [] ∷ [] ∷ (6 ∷ 5 ∷ []) ∷ [])
    × ((timer_set timers 250 5 120).0.wheel.tw_wheel ≡ wheel.tw_wheel)
    × ((timer_set timers 250 6 401).0.stats.timeout_overflow ≡ 1)
unfolding timer_set
set_buckets = (refl, refl, refl)

timer_set-IsLinked_example : IsLinked (timer_set timers 250 6 120).0 6
timer_set-IsLinked_example = timer_set-IsLinked timers 250 6 120 6 wheel-IsWheel six-IsLinked

cancel-set_example :
    ((timer_set timers 250 6 120).1 ≡ success)
    × ((timer_cancel (timer_set timers 250 6 120).0 6).1 ≡ success)
    × ((timer_cancel (timer_set timers 250 6 120).0 6).0.wheel ≡ wheel)
    × ((d : ℕ) → (timer_cancel (timer_set timers 250 6 120).0 6).0.on_list d ≡ (d == 5))
cancel-set_example = cancel-set timers 250 6 120 refl six-IsLinked (omega arith)

-- The timer fires and is taken off, and its number is noted.
abbrev note_fired : ℕ → Timers × List ℕ → Timers × List ℕ
note_fired c (t, l) = (unlink_fired t c, c ∷ l)

advance_to_total_example :
    (r : (Timers × List ℕ) × ℕ) × (advance_to note_fired 10000 4 0 0 (timers, []) ≡ some r)
    × ((r.0.0.wheel.tw_current ≡ 0) ⊎ (r.1 ≡ 10000))
unfolding unlink_fired
advance_to_total_example =
    advance_to_total note_fired 10000 0 (timers, []) (λ c s. (refl, refl)) (omega arith)
      (omega arith)

-- From bucket 2 to bucket 0, over the one timer.
advance_fires :
    advance_to note_fired 10000 4 0 0 (timers, [])
    ≡ some (
      (
        record (unlink_fired timers 5) { wheel = record (list_remove wheel 5) { tw_current = 0 } },
        5 ∷ [],
      ),
      1,
    )
unfolding advance_to walk_bucket unlink_fired remove
advance_fires = refl

get_wheel_bucket_due_example : (get_wheel_bucket wheel 250 120 ≡ some (5 % 4)) ↔ (◌≡◌ {A = ℕ} 5 3)
get_wheel_bucket_due_example =
    get_wheel_bucket_due wheel 250 120 2 5 (omega arith) (omega arith) (omega arith) (omega arith)
      (omega arith) (omega arith) (omega arith) (omega arith)
