-- ===== src/Timer.antt =====
-- The timer wheels of src/tpg_timer.c and inc/tpg_timer.h: the wheel, its buckets, and the
-- operations that set, cancel and fire the timer of a control block. A bucket is the list of the
-- blocks on it, first entry first; a wheel serves one kind of timer (tcp slow, tcp rto, l4cb test).
pub mod Set
pub mod Advance
pub mod Progress
pub mod Due
mod Tests
use warp.Prelude.{
  ℕ, ◌+◌, ◌*◌, ◌/◌, ◌%◌, ◌^◌, Bool, true, false, Option, none, some, List, [], ◌∷◌, map, replicate,
  get_or, set, remove, ltb, ◌==◌, if◌then◌else◌,
}

-- `tmr_wheel_t`; `tw_step` in microseconds.
pub record Wheel : Type 0 where
  pub tw_size : ℕ
  pub tw_step : ℕ
  pub tw_current : ℕ
  pub tw_last_advance : ℕ
  pub tw_wheel : List (List ℕ)

-- The counters of `tpg_timer_statistics_t` for one kind of timer. `tts_l4cb_invalid_flags` and
-- `tts_timeout_overflow` are kept for each kind; the counter of the code is their sum.
pub record Stats : Type 0 where
  pub timers_set : ℕ
  pub failed : ℕ
  pub cancelled : ℕ
  pub fired : ℕ
  pub invalid_flags : ℕ
  pub timeout_overflow : ℕ

-- A wheel with the blocks whose `on list` flag is set.
pub record Timers : Type 0 where
  pub wheel : Wheel
  pub on_list : ℕ → Bool
  pub stats : Stats

pub data Status : Type 0 where
  success einval : Status

-- `timer_init_wheel`, once the memory is there; `now_us` is the cycle counter in microseconds.
unfoldable pub init_wheel : ℕ → ℕ → ℕ → Wheel
init_wheel now_us size step = record {
  tw_size = size;
  tw_step = step;
  tw_current = now_us / step % size;
  tw_last_advance = 0;
  tw_wheel = replicate size [];
}

-- `tcp_timer_get_wheel_bucket`: `none` is -EINVAL. The products and sums are those of uint64_t.
unfoldable pub get_wheel_bucket : Wheel → ℕ → ℕ → Option ℕ
get_wheel_bucket w now_us timeout_us =
    if ltb (w.tw_size * w.tw_step % 2 ^ 64) timeout_us
    then none
    else some ((now_us + timeout_us) % 2 ^ 64 / w.tw_step % w.tw_size)

-- TMR_LIST_INSERT_HEAD on a bucket.
unfoldable pub insert_head : Wheel → ℕ → ℕ → Wheel
insert_head w bucket c = record w {
  tw_wheel = set w.tw_wheel bucket (c ∷ get_or w.tw_wheel bucket []);
}

-- TMR_LIST_REMOVE: the entry leaves the bucket that it is linked in, which is not named.
unfoldable pub list_remove : Wheel → ℕ → Wheel
list_remove w c = record w { tw_wheel = map (remove c) w.tw_wheel }

abbrev pub update : (ℕ → Bool) → ℕ → Bool → ℕ → Bool
update f c b d = if d == c then b else f d

-- TIMER_SET, with the counting of its result.
insert_timer : Timers → ℕ → Option ℕ → Timers × Status
unfolding insert_head
insert_timer t c none =
    let s = t.stats in
    (
      record t {
        stats = record s { failed = s.failed + 1; timeout_overflow = s.timeout_overflow + 1 };
      },
      einval,
    )
insert_timer t c (some bucket) =
    let s = t.stats in
    (
      record t {
        wheel = insert_head t.wheel bucket c;
        on_list = update t.on_list c true;
        stats = record s { timers_set = s.timers_set + 1 };
      },
      success,
    )

bad_flags : Timers → Timers × Status
bad_flags t =
    let s = t.stats in
    (record t { stats = record s { invalid_flags = s.invalid_flags + 1 } }, einval)

-- `tcp_timer_rto_set`, `tcp_timer_slow_set` and `l4cb_timer_test_set`, each on its own wheel.
unfoldable pub timer_set : Timers → ℕ → ℕ → ℕ → Timers × Status
unfolding insert_timer bad_flags get_wheel_bucket
timer_set t now_us c timeout_us =
    if t.on_list c
    then bad_flags t
    else insert_timer t c (get_wheel_bucket t.wheel now_us timeout_us)

-- `tcp_timer_rto_cancel`, `tcp_timer_slow_cancel` and `l4cb_timer_test_cancel`.
unfoldable pub timer_cancel : Timers → ℕ → Timers × Status
unfolding bad_flags list_remove
timer_cancel t c =
    let s = t.stats in
    if t.on_list c
    then (
      record t {
        wheel = list_remove t.wheel c;
        on_list = update t.on_list c false;
        stats = record s { cancelled = s.cancelled + 1 };
      },
      success,
    )
    else bad_flags t

-- What `tcp_handle_slow_to`, `tcp_handle_retrans_to` and `l4cb_handle_test_to` do to the wheel
-- before they report the timeout.
unfoldable pub unlink_fired : Timers → ℕ → Timers
unfolding list_remove
unlink_fired t c =
    let s = t.stats in
    record t {
      wheel = list_remove t.wheel c;
      on_list = update t.on_list c false;
      stats = record s { fired = s.fired + 1 };
    }
