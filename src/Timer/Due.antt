-- ===== src/Timer/Due.antt =====
-- Which round of the wheel fires a timer.
use warp.Prelude.{ℕ, ◌+◌, ◌*◌, ◌/◌, ◌%◌, ◌^◌, ◌<◌, ◌≤◌, ◌≡◌, ◌↔◌, ◌∙◌, sym, ap, some, arith}
use native.Mathlib.Nat.{mod-eq_of_lt, mod-add-div, add-mul-div_right, add-mod_right}
use warp.Timer.{Wheel, get_wheel_bucket}

-- Two ticks of one turn of the wheel with the same bucket are the same.
same_tick : (n c d e : ℕ) → 0 < n → c ≤ d → d < c + n → c ≤ e → e < c + n → d % n ≡ e % n → d ≡ e
same_tick n c d e h cd dn ce en m = grind (arith, mod-add-div d n, mod-add-div e n)

bucket_lem :
    (w : Wheel) (now us : ℕ)
    → us ≤ w.tw_size * w.tw_step
    → w.tw_size * w.tw_step < 2 ^ 64
    → now + us < 2 ^ 64
    → get_wheel_bucket w now us ≡ some ((now + us) / w.tw_step % w.tw_size)
unfolding get_wheel_bucket
bucket_lem w now us h a b = ground (arith, mod-eq_of_lt a, mod-eq_of_lt b)

-- A timer goes to the bucket of its own tick and of no other tick of the turn that begins at the
-- pointer: with the pointer at tick `tick`, and the tick of the timeout less than one turn ahead of it,
-- a tick of that turn names the timer's bucket exactly when it is the tick of the timeout.
pub get_wheel_bucket_due :
    (w : Wheel) (now us tick t : ℕ)
    → 0 < w.tw_size
    → us ≤ w.tw_size * w.tw_step
    → w.tw_size * w.tw_step < 2 ^ 64
    → now + us < 2 ^ 64
    → tick ≤ (now + us) / w.tw_step
    → (now + us) / w.tw_step < tick + w.tw_size
    → tick ≤ t
    → t < tick + w.tw_size
    → (get_wheel_bucket w now us ≡ some (t % w.tw_size)) ↔ (t ≡ (now + us) / w.tw_step)
get_wheel_bucket_due w now us tick t pos h a b lo hi lt ht =
    let e = bucket_lem w now us h a b in
    (
      λ g. same_tick w.tw_size tick t ((now + us) / w.tw_step) pos lt ht lo hi (ground (arith, e)),
      λ g. ground (arith, e),
    )

-- The longest timeout that is accepted, one whole turn, shares the bucket of a timeout of 0.
get_wheel_bucket_longest :
    (w : Wheel) (now : ℕ)
    → 0 < w.tw_step
    → w.tw_size * w.tw_step < 2 ^ 64
    → now + w.tw_size * w.tw_step < 2 ^ 64
    → get_wheel_bucket w now (w.tw_size * w.tw_step) ≡ get_wheel_bucket w now 0
get_wheel_bucket_longest w now pos a b =
    bucket_lem w now (w.tw_size * w.tw_step) (omega arith) a b
    ∙ ap some (
        ap (λ x. x % w.tw_size) (add-mul-div_right now w.tw_size pos)
        ∙ add-mod_right (now / w.tw_step) w.tw_size
        ∙ ap (λ x. x / w.tw_step % w.tw_size) (omega arith))
    ∙ sym (bucket_lem w now 0 (omega arith) a (omega arith))
