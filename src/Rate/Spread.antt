-- ===== src/Rate/Spread.antt =====
-- The walks that give out the rest of a rate over its slots, of `rate_limit_cfg_init`.
use warp.Prelude.{
  ℕ, zero, suc, ◌+◌, ◌-◌, ◌%◌, ◌^◌, ◌≤◌, ◌<◌, ◌≡◌, refl, some, List, [], ◌∷◌, length, get_or, set,
  length-set, ◌==◌, Bool-cases, inl, inr, arith,
}
use warp.Rate.{index_of, find_index, spread, spread_rest}

abbrev pub sum : List ℕ → ℕ
sum [] = 0
sum (x ∷ xs) = x + sum xs

pub sum-set :
    (xs : List ℕ) (i v : ℕ) → i < length xs → sum (set xs i v) + get_or xs i 0 ≡ sum xs + v
sum-set [] i v h = omega (arith, h)
sum-set (x ∷ xs) zero v h = omega arith
sum-set (x ∷ xs) (suc i) v h = ground (arith, sum-set xs i v)

pub get_or_le : (xs : List ℕ) (i : ℕ) → get_or xs i 0 ≤ sum xs
get_or_le [] i = omega arith
get_or_le (x ∷ xs) zero = omega arith
get_or_le (x ∷ xs) (suc i) = ground (arith, get_or_le xs i)

first-set : (xs : List ℕ) (i v : ℕ) → get_or xs i 0 ≤ v → get_or xs 0 0 ≤ get_or (set xs i v) 0 0
first-set [] i v h = omega arith
first-set (x ∷ xs) zero v h = h
first-set (x ∷ xs) (suc i) v h = omega arith

-- One walk over the slots gives out what it takes from the rate.
pub sum-spread :
    (fuel i step rate : ℕ) (xs : List ℕ)
    → sum xs + rate < 2 ^ 32
    → sum (spread fuel i step rate xs).0 + (spread fuel i step rate xs).1 ≡ sum xs + rate
unfolding spread
sum-spread zero i step rate xs h = refl
sum-spread (suc fuel) i step rate xs h =
    let v = (get_or xs i 0 + 1) % 2 ^ 32 in
    ground (
      arith,
      sum-set xs i v,
      get_or_le xs i,
      sum-spread fuel (i + step) step (rate - 1) (set xs i v),
    )

length-spread :
    (fuel i step rate : ℕ) (xs : List ℕ) → length (spread fuel i step rate xs).0 ≡ length xs
unfolding spread
length-spread zero i step rate xs = refl
length-spread (suc fuel) i step rate xs =
    let v = (get_or xs i 0 + 1) % 2 ^ 32 in
    ground (arith, length-set xs i v, length-spread fuel (i + step) step (rate - 1) (set xs i v))

first-spread :
    (fuel i step rate : ℕ) (xs : List ℕ)
    → sum xs + rate < 2 ^ 32
    → get_or xs 0 0 ≤ get_or (spread fuel i step rate xs).0 0 0
unfolding spread
first-spread zero i step rate xs h = omega arith
first-spread (suc fuel) i step rate xs h =
    let v = (get_or xs i 0 + 1) % 2 ^ 32 in
    ground (
      arith,
      sum-set xs i v,
      get_or_le xs i,
      first-set xs i v,
      first-spread fuel (i + step) step (rate - 1) (set xs i v),
    )

spread_le : (fuel i step rate : ℕ) (xs : List ℕ) → (spread fuel i step rate xs).1 ≤ rate
unfolding spread
spread_le zero i step rate xs = omega arith
spread_le (suc fuel) i step rate xs =
    let v = (get_or xs i 0 + 1) % 2 ^ 32 in
    ground (arith, spread_le fuel (i + step) step (rate - 1) (set xs i v))

spread_lt :
    (fuel i step rate : ℕ) (xs : List ℕ)
    → 0 < fuel
    → i < length xs
    → 0 < rate
    → (spread fuel i step rate xs).1 < rate
unfolding spread
spread_lt zero i step rate xs f h r = omega (arith, f)
spread_lt (suc fuel) i step rate xs f h r =
    let v = (get_or xs i 0 + 1) % 2 ^ 32 in
    ground (arith, spread_le fuel (i + step) step (rate - 1) (set xs i v))

-- A walk in steps is over when it has passed the slots, whatever fuel it is given beyond that.
spread_enough :
    (m n i step rate : ℕ) (xs : List ℕ)
    → 0 < step
    → length xs ≤ i + m
    → length xs ≤ i + n
    → spread m i step rate xs ≡ spread n i step rate xs
unfolding spread
spread_enough zero zero i step rate xs s h g = refl
spread_enough zero (suc n) i step rate xs s h g = ground arith
spread_enough (suc m) zero i step rate xs s h g = ground arith
spread_enough (suc m) (suc n) i step rate xs s h g =
    let v = (get_or xs i 0 + 1) % 2 ^ 32 in
    ground (arith, length-set xs i v, spread_enough m n (i + step) step (rate - 1) (set xs i v) s)

index_of_le : (v : ℕ) (xs : List ℕ) → index_of v xs ≤ length xs
unfolding index_of
index_of_le v [] = omega arith
index_of_le v (x ∷ xs) = ground (arith, index_of_le v xs)

index_of-first : (v : ℕ) (xs : List ℕ) → 0 < length xs → get_or xs 0 0 ≡ v → index_of v xs ≡ 0
unfolding index_of
index_of-first v [] h e = omega (arith, h)
index_of-first v (x ∷ xs) h e = ground arith

-- A slot to start at is found before the value passes that of the first slot.
find_index_total :
    (fuel v : ℕ) (xs : List ℕ)
    → 0 < length xs
    → v ≤ get_or xs 0 0
    → get_or xs 0 0 < v + fuel
    → (s : ℕ × ℕ) × (find_index fuel v xs ≡ some s) × (s.0 < length xs) × (s.1 ≤ get_or xs 0 0)
unfolding find_index
find_index_total zero v xs n h f = absurd (omega (arith, h, f))
find_index_total (suc fuel) v xs n h f = elim (Bool-cases (index_of v xs == length xs)) [
  | inl e ↦
      let r =
        find_index_total fuel (suc v) xs n (ground (arith, index_of-first v xs))
          (omega (arith, f)) in
      (r.0, ground (arith, r.1), r.2, r.3)
  | inr e ↦ ((index_of v xs, v), ground arith, ground (arith, index_of_le v xs), h)
]

-- The rest of a rate is given out in full, in as many walks as its size.
pub spread_rest_total :
    (fuel step v rate : ℕ) (xs : List ℕ)
    → 0 < length xs
    → v ≤ get_or xs 0 0
    → sum xs + rate < 2 ^ 32
    → rate ≤ fuel
    → (ys : List ℕ) × (spread_rest fuel step v rate xs ≡ some ys)
      × (sum ys ≡ sum xs + rate)
      × (length ys ≡ length xs)
unfolding spread_rest
spread_rest_total zero step v rate xs n h b f = (xs, ground (arith, f), omega (arith, f), refl)
spread_rest_total (suc fuel) step v rate xs n h b f = elim (Bool-cases (rate == 0)) [
  | inl e ↦ (xs, ground arith, ground arith, refl)
  | inr e ↦
      let s = find_index_total (suc (get_or xs 0 0)) v xs n h (omega arith) in
      let i = s.0.0 in
      let p = spread (length xs) i step rate xs in
      let r =
        spread_rest_total fuel (suc step) s.0.1 p.1 p.0
          (ground (arith, length-spread (length xs) i step rate xs))
          (ground (arith, s.3, first-spread (length xs) i step rate xs b))
          (ground (arith, sum-spread (length xs) i step rate xs b))
          (ground (arith, s.2, spread_lt (length xs) i step rate xs)) in
      (
        r.0,
        ground (arith, s.1, r.1),
        ground (arith, r.2, sum-spread (length xs) i step rate xs b),
        ground (arith, r.3, length-spread (length xs) i step rate xs),
      )
]
