-- ===== src/Rate/Interval.antt =====
-- The intervals of a rate limit, of inc/tpg_rate.h and src/tpg_tests.c: what a runner may start in one, what
-- it uses up, and what happens when the next one begins.
use native.Mathlib.Nat.{mod-eq_of_lt}
use warp.Prelude.{
  ℕ, zero, suc, ◌+◌, ◌-◌, ◌/◌, ◌%◌, ◌^◌, ◌≤◌, ◌<◌, ◌≡◌, refl, Bool, true, false, not, ◌&&◌, ◌||◌,
  Option, none, some, List, [], ◌∷◌, length, get_or, leb, ◌==◌, if◌then◌else◌, arith,
}
use warp.Rate.{Limit, infinite_val}
use warp.Rate.Spread.{sum}
use warp.TestSm.{RunFlags}

-- `rate_limit_reached`.
unfoldable pub rate_limit_reached : Limit → Bool
rate_limit_reached rl = rl.rl_current_rate == 0

-- `rate_limit_advance_interval`; `none` is the division by a count of 0.
unfoldable pub rate_limit_advance_interval : Limit → Option Limit
rate_limit_advance_interval rl =
    let next = (rl.rl_current_index + 1) % rl.rl_count in
    if rl.rl_count == 0
    then none
    else some record rl { rl_current_index = next; rl_current_rate = get_or rl.rl_slots next 0 }

-- `rate_limit_available`.
unfoldable pub rate_limit_available : Limit → ℕ
rate_limit_available rl =
    if leb rl.rl_max_burst rl.rl_current_rate then rl.rl_max_burst else rl.rl_current_rate

-- `rate_limit_consume`, on uint32_t.
unfoldable pub rate_limit_consume : Limit → ℕ → Limit
rate_limit_consume rl count = record rl {
  rl_current_rate = (rl.rl_current_rate + 2 ^ 32 - count) % 2 ^ 32;
}

-- `rate_limit_interval_us`; the first argument is the interval of the configuration for no limit.
unfoldable pub rate_limit_interval_us : ℕ → Limit → ℕ
rate_limit_interval_us no_lim_interval rl =
    if rl.rl_count == 0
    then 0
    else if (rl.rl_count == 1) && (get_or rl.rl_slots 0 0 == infinite_val)
    then no_lim_interval
    else 1000000 / rl.rl_count

-- The answers of a runner: 0, or -EAGAIN to be called again.
pub data Answer : Type 0 where
  done again : Answer

-- `test_case_rate_limit_update`; the fourth argument tells whether the queue is empty.
unfoldable pub test_case_rate_limit_update : RunFlags → Limit → Bool → ℕ → RunFlags × Limit × Answer
unfolding rate_limit_consume rate_limit_reached
test_case_rate_limit_update r rl queue_empty consumed =
    let left = rate_limit_consume rl consumed in
    if not (rate_limit_reached left)
    then (if queue_empty then (record r { in_progress = false }, left, done) else (r, left, again))
    else (record { in_progress = false; rate_reached = true }, left, done)

-- A runner that stays within what is available takes just that from the interval. It is called again
-- when it leaves something of the interval and something in its queue, and is marked as out of
-- its rate when it leaves nothing of the interval.
pub update-available :
    (r : RunFlags) (rl : Limit) (queue_empty : Bool) (consumed : ℕ)
    → rl.rl_current_rate < 2 ^ 32
    → consumed ≤ rate_limit_available rl
    → let u = test_case_rate_limit_update r rl queue_empty consumed in
      (u.1.rl_current_rate + consumed ≡ rl.rl_current_rate)
      × (u.2 ≡ (if (consumed == rl.rl_current_rate) || queue_empty then done else again))
      × (u.0.rate_reached ≡ ((consumed == rl.rl_current_rate) || r.rate_reached))
unfolding test_case_rate_limit_update rate_limit_consume rate_limit_reached rate_limit_available
update-available r rl queue_empty consumed b h = (ground arith, ground arith, ground arith)

-- What the next intervals give out, from the one that is current.
unfoldable pub granted : ℕ → Limit → ℕ
unfolding rate_limit_advance_interval
granted zero rl = 0
granted (suc n) rl = elim (rate_limit_advance_interval rl) [
  | some s ↦ rl.rl_current_rate + granted n s
  | none ↦ rl.rl_current_rate
]

-- The sum of the first slots.
abbrev prefix : ℕ → List ℕ → ℕ
prefix n [] = 0
prefix zero (x ∷ xs) = 0
prefix (suc n) (x ∷ xs) = x + prefix n xs

prefix-suc : (n : ℕ) (xs : List ℕ) → prefix (suc n) xs ≡ prefix n xs + get_or xs n 0
prefix-suc n [] = refl
prefix-suc zero (x ∷ []) = omega arith
prefix-suc zero (x ∷ y ∷ xs) = omega arith
prefix-suc (suc n) (x ∷ xs) = omega (arith, prefix-suc n xs)

prefix-length : (xs : List ℕ) → prefix (length xs) xs ≡ sum xs
prefix-length [] = refl
prefix-length (x ∷ xs) = omega (arith, prefix-length xs)

prefix-zero : (xs : List ℕ) → prefix 0 xs ≡ 0
prefix-zero [] = refl
prefix-zero (x ∷ xs) = refl

granted_from :
    (n : ℕ) (rl : Limit)
    → rl.rl_current_rate ≡ get_or rl.rl_slots rl.rl_current_index 0
    → rl.rl_current_index + n ≤ rl.rl_count
    → prefix rl.rl_current_index rl.rl_slots + granted n rl
      ≡ prefix (rl.rl_current_index + n) rl.rl_slots
unfolding granted rate_limit_advance_interval
granted_from zero rl c h = ground arith
granted_from (suc zero) rl c h = ground (arith, prefix-suc rl.rl_current_index rl.rl_slots)
granted_from (suc (suc n)) rl c h =
    let next = rl.rl_current_index + 1 in
    let s : Limit = record rl {
      rl_current_index = next;
      rl_current_rate = get_or rl.rl_slots next 0;
    } in
    let at : next % rl.rl_count ≡ next = mod-eq_of_lt (omega (arith, h)) in
    let r : prefix next rl.rl_slots + granted (suc n) s ≡ prefix (next + suc n) rl.rl_slots =
      granted_from (suc n) s refl (omega (arith, h)) in
    ground (arith, at, r, prefix-suc rl.rl_current_index rl.rl_slots)

-- From the first interval on, the intervals of a second give out what the slots hold.
pub granted-sum :
    (rl : Limit)
    → rl.rl_count ≡ length rl.rl_slots
    → rl.rl_current_index ≡ 0
    → rl.rl_current_rate ≡ get_or rl.rl_slots 0 0
    → granted rl.rl_count rl ≡ sum rl.rl_slots
granted-sum rl n i c =
    ground (arith, granted_from rl.rl_count rl, prefix-length rl.rl_slots, prefix-zero rl.rl_slots)
