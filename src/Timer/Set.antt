-- ===== src/Timer/Set.antt =====
-- Setting, cancelling and firing the timer of one control block.
use warp.Prelude.{
  ℕ, zero, suc, ◌+◌, ◌*◌, ◌/◌, ◌%◌, ◌^◌, ◌≤◌, ◌<◌, ◌≡◌, refl, ap, inl, inr, Bool-cases, false,
  Option, none, some, List, [], ◌∷◌, map, get_or, set, length, remove, occ, occ-remove, one_if,
  arith, ◌==◌, if◌then◌else◌,
}
use mathlib.Core.Path.{ap₂}
use native.Mathlib.Nat.{mod-lt}
use warp.Timer.{
  insert_timer, Wheel, Timers, success, get_wheel_bucket, timer_set, timer_cancel, unlink_fired,
}

-- How often a block stands on the buckets of a wheel.
unfoldable pub occ_all : ℕ → List (List ℕ) → ℕ
occ_all c [] = 0
occ_all c (b ∷ bs) = occ c b + occ_all c bs

occ_all-set :
    (c : ℕ) (bs : List (List ℕ)) (i d : ℕ)
    → i < length bs
    → occ_all c (set bs i (d ∷ get_or bs i [])) ≡ (if c == d then 1 else 0) + occ_all c bs
unfolding occ_all occ
occ_all-set c [] i d h = elim h [ ]
occ_all-set c (b ∷ bs) zero d h = ground arith
occ_all-set c (b ∷ bs) (suc i) d h = ground (arith, occ_all-set c bs i d)

occ_all-remove :
    (c d : ℕ) (bs : List (List ℕ))
    → occ_all d bs ≤ 1
    → occ_all c (map (remove d) bs) ≡ (if c == d then 0 else occ_all c bs)
unfolding occ_all
occ_all-remove c d [] h = ground arith
occ_all-remove c d (b ∷ bs) h = ground (arith, occ_all-remove c d bs, occ-remove c d b)

-- A wheel has as many buckets as its size says.
pub record IsWheel (w : Wheel) : Type 0 where
  pub filled : length w.tw_wheel ≡ w.tw_size
  pub some_size : 0 < w.tw_size

-- A block whose flag is set stands on one bucket, once; any other stands on none.
abbrev pub IsLinked : Timers → ℕ → Type 0
IsLinked t d = occ_all d t.wheel.tw_wheel ≡ one_if (t.on_list d)

length-map {ℓ κ} :
    {A : Type ℓ} {B : Type κ} (f : A → B) (xs : List A) → length (map f xs) ≡ length xs
length-map f [] = refl
length-map f (x ∷ xs) = ap suc (length-map f xs)

insert-IsLinked :
    (t : Timers) (c d : ℕ) (b : Option ℕ)
    → t.on_list c ≡ false
    → ((i : ℕ) → b ≡ some i → i < length t.wheel.tw_wheel)
    → IsLinked t d
    → IsLinked (insert_timer t c b).0 d
unfolding insert_timer
insert-IsLinked t c d none off h l = l
insert-IsLinked t c d (some i) off h l =
    ground (arith, occ_all-set d t.wheel.tw_wheel i c (h i refl))

bucket_in_range :
    (w : Wheel) (now us i : ℕ)
    → IsWheel w
    → get_wheel_bucket w now us ≡ some i
    → i < length w.tw_wheel
unfolding get_wheel_bucket
bucket_in_range w now us i v e =
    ground (arith, mod-lt ((now + us) % 2 ^ 64 / w.tw_step) v.some_size, v.filled)

-- Setting a timer keeps every block, the one that is set and the others, on one bucket at most, and
-- on one exactly when its flag is set.
pub timer_set-IsLinked :
    (t : Timers) (now c us d : ℕ)
    → IsWheel t.wheel
    → IsLinked t d
    → IsLinked (timer_set t now c us).0 d
unfolding timer_set
timer_set-IsLinked t now c us d v l = elim (Bool-cases (t.on_list c)) [
  | inl on ↦ rw on l
  | inr off ↦ rw off (
      insert-IsLinked t c d (get_wheel_bucket t.wheel now us) off
        (λ i e. bucket_in_range t.wheel now us i v e) l)
]

-- So do cancelling a timer and taking it off the wheel when it fires.
timer_cancel-IsLinked :
    (t : Timers) (c d : ℕ)
    → IsLinked t c
    → IsLinked t d
    → IsLinked (timer_cancel t c).0 d × IsLinked (unlink_fired t c) d
unfolding timer_cancel unlink_fired
timer_cancel-IsLinked t c d lc ld = (
  ground (arith, occ_all-remove d c t.wheel.tw_wheel),
  ground (arith, occ_all-remove d c t.wheel.tw_wheel),
)

remove_absent : (c : ℕ) (b : List ℕ) → occ c b ≡ 0 → remove c b ≡ b
unfolding occ remove
remove_absent c [] h = refl
remove_absent c (x ∷ b) h = ground (arith, remove_absent c b)

map-remove_absent : (c : ℕ) (bs : List (List ℕ)) → occ_all c bs ≡ 0 → map (remove c) bs ≡ bs
unfolding occ_all
map-remove_absent c [] h = refl
map-remove_absent c (b ∷ bs) h =
    ap₂ (λ x y. x ∷ y) (remove_absent c b (omega arith)) (map-remove_absent c bs (omega arith))

remove_head : (c : ℕ) (b : List ℕ) → remove c (c ∷ b) ≡ b
unfolding remove
remove_head c b = ground arith

map-remove-set :
    (c : ℕ) (bs : List (List ℕ)) (i : ℕ)
    → occ_all c bs ≡ 0
    → map (remove c) (set bs i (c ∷ get_or bs i [])) ≡ bs
unfolding occ_all
map-remove-set c [] i h = refl
map-remove-set c (b ∷ bs) zero h =
    ap₂ (λ x y. x ∷ y) (remove_head c b) (map-remove_absent c bs (omega arith))
map-remove-set c (b ∷ bs) (suc i) h =
    ap₂ (λ x y. x ∷ y) (remove_absent c b (omega arith)) (map-remove-set c bs i (omega arith))

-- Setting a timer that was off is undone by cancelling it: the buckets and every flag are as before,
-- and both calls succeed.
pub cancel-set :
    (t : Timers) (now c us : ℕ)
    → t.on_list c ≡ false
    → IsLinked t c
    → us ≤ t.wheel.tw_size * t.wheel.tw_step % 2 ^ 64
    → ((timer_set t now c us).1 ≡ success)
      × ((timer_cancel (timer_set t now c us).0 c).1 ≡ success)
      × ((timer_cancel (timer_set t now c us).0 c).0.wheel ≡ t.wheel)
      × ((d : ℕ) → (timer_cancel (timer_set t now c us).0 c).0.on_list d ≡ t.on_list d)
unfolding timer_set timer_cancel
cancel-set t now c us off l h =
    let i = (now + us) % 2 ^ 64 / t.wheel.tw_step % t.wheel.tw_size in
    let restored = map-remove-set c t.wheel.tw_wheel i (ground arith) in
    (ground arith, ground arith, ground (arith, restored), λ d. ground arith)
