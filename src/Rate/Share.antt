-- ===== src/Rate/Share.antt =====
-- The share of a core in a rate: `rate_limit_init` takes it from the slots of the configuration.
use warp.Prelude.{
  ℕ, zero, suc, ◌+◌, ◌-◌, ◌%◌, ◌^◌, ◌≤◌, ◌<◌, ◌≡◌, refl, true, some, List, [], ◌∷◌, length, get_or,
  set, length-set, replicate, if◌then◌else◌, ◌==◌, Bool-cases, inl, inr, arith,
}
use warp.Rate.{Cfg, Limit, ready, infinite_val, take, first_left, take_all, rate_limit_init}
use warp.Rate.Spread.{sum, sum-set, get_or_le}
use warp.Rate.Divide.{sum-replicate, length-replicate_eq}

-- What a walk gives to the limit it takes from the configuration and from what is desired.
sum-take :
    (fuel i step desired : ℕ) (xs ls : List ℕ)
    → length xs ≡ length ls
    → sum xs + desired < 2 ^ 32
    → (sum (take fuel i step desired xs ls).0 + (take fuel i step desired xs ls).2
        ≡ sum xs + desired)
      × (sum (take fuel i step desired xs ls).1 + desired
          ≡ sum ls + (take fuel i step desired xs ls).2)
unfolding take
sum-take zero i step desired xs ls e b = (refl, refl)
sum-take (suc fuel) i step desired xs ls e b =
    let v = (get_or xs i 0 + 1) % 2 ^ 32 in
    let w = get_or ls i 0 - 1 in
    ground (
      arith,
      sum-set xs i v,
      sum-set ls i w,
      get_or_le xs i,
      length-set xs i v,
      length-set ls i w,
      sum-take fuel (i + step) step desired xs ls,
      sum-take fuel (i + step) step (desired - 1) (set xs i v) (set ls i w),
    )

length-take :
    (fuel i step desired : ℕ) (xs ls : List ℕ)
    → (length (take fuel i step desired xs ls).0 ≡ length xs)
      × (length (take fuel i step desired xs ls).1 ≡ length ls)
unfolding take
length-take zero i step desired xs ls = (refl, refl)
length-take (suc fuel) i step desired xs ls =
    let v = (get_or xs i 0 + 1) % 2 ^ 32 in
    let w = get_or ls i 0 - 1 in
    ground (
      arith,
      length-set xs i v,
      length-set ls i w,
      length-take fuel (i + step) step desired xs ls,
      length-take fuel (i + step) step (desired - 1) (set xs i v) (set ls i w),
    )

take_le : (fuel i step desired : ℕ) (xs ls : List ℕ) → (take fuel i step desired xs ls).2 ≤ desired
unfolding take
take_le zero i step desired xs ls = omega arith
take_le (suc fuel) i step desired xs ls =
    let v = (get_or xs i 0 + 1) % 2 ^ 32 in
    let w = get_or ls i 0 - 1 in
    ground (
      arith,
      take_le fuel (i + step) step desired xs ls,
      take_le fuel (i + step) step (desired - 1) (set xs i v) (set ls i w),
    )

first_left-lt :
    (ls : List ℕ) → 0 < sum ls → (first_left ls < length ls) × (0 < get_or ls (first_left ls) 0)
unfolding first_left
first_left-lt [] h = absurd (omega (arith, h))
first_left-lt (x ∷ ls) h = ground (arith, first_left-lt ls)

take_lt :
    (fuel i step desired : ℕ) (xs ls : List ℕ)
    → 0 < fuel
    → i < length ls
    → 0 < get_or ls i 0
    → 0 < desired
    → (take fuel i step desired xs ls).2 < desired
unfolding take
take_lt zero i step desired xs ls f h g d = omega (arith, f)
take_lt (suc fuel) i step desired xs ls f h g d =
    let v = (get_or xs i 0 + 1) % 2 ^ 32 in
    let w = get_or ls i 0 - 1 in
    ground (arith, take_le fuel (i + step) step (desired - 1) (set xs i v) (set ls i w))

-- A walk in steps is over when it has passed the slots, whatever fuel it is given beyond that.
take_enough :
    (m n i step desired : ℕ) (xs ls : List ℕ)
    → 0 < step
    → length ls ≤ i + m
    → length ls ≤ i + n
    → take m i step desired xs ls ≡ take n i step desired xs ls
unfolding take
take_enough zero zero i step desired xs ls s h g = refl
take_enough zero (suc n) i step desired xs ls s h g = ground arith
take_enough (suc m) zero i step desired xs ls s h g = ground arith
take_enough (suc m) (suc n) i step desired xs ls s h g =
    let v = (get_or xs i 0 + 1) % 2 ^ 32 in
    let w = get_or ls i 0 - 1 in
    ground (
      arith,
      length-set ls i w,
      take_enough m n (i + step) step desired xs ls s,
      take_enough m n (i + step) step (desired - 1) (set xs i v) (set ls i w) s,
    )

take_all_total :
    (fuel step desired : ℕ) (xs ls : List ℕ)
    → length xs ≡ length ls
    → sum xs + desired < 2 ^ 32
    → desired ≤ sum ls
    → desired ≤ fuel
    → (p : List ℕ × List ℕ) × (take_all fuel step desired xs ls ≡ some p)
      × (sum p.0 ≡ sum xs + desired)
      × (sum p.1 + desired ≡ sum ls)
unfolding take_all
take_all_total zero step desired xs ls e b d f =
    ((xs, ls), ground (arith, f), omega (arith, f), omega (arith, f))
take_all_total (suc fuel) step desired xs ls e b d f = elim (Bool-cases (desired == 0)) [
  | inl z ↦ ((xs, ls), ground arith, ground arith, ground arith)
  | inr z ↦
      let i = first_left ls in
      let t = take (length ls) i step desired xs ls in
      let l = first_left-lt ls (ground arith) in
      let s = sum-take (length ls) i step desired xs ls e b in
      let n = length-take (length ls) i step desired xs ls in
      let less : t.2 < desired =
        take_lt (length ls) i step desired xs ls (omega (arith, l.0)) l.0 l.1 (ground arith) in
      let next = suc step % length ls in
      let r =
        take_all_total fuel (if next == 0 then 1 else next) t.2 t.0 t.1 (omega (arith, n.0, n.1, e))
          (omega (arith, s.0, b)) (omega (arith, s.1, d)) (omega (arith, less, f)) in
      (r.0, ground (arith, r.1), omega (arith, r.2, s.0), omega (arith, r.3, s.1))
]

-- A core whose share is finite and not more than what the configuration has left gets exactly its share,
-- which the configuration loses; the interval that it starts with is the first one.
pub rate_limit_init-share :
    (cfg : Cfg) (displacement desired max_burst : ℕ)
    → length cfg.rlc_slots ≡ cfg.rlc_count
    → 0 < displacement
    → 0 < desired
    → desired < infinite_val
    → desired ≤ sum cfg.rlc_slots
    → (rl : Limit) × (cfg' : Cfg) × (rate_limit_init true cfg displacement desired max_burst
        ≡ ready rl cfg')
      × (sum rl.rl_slots ≡ desired)
      × (sum cfg'.rlc_slots + desired ≡ sum cfg.rlc_slots)
      × (rl.rl_current_rate ≡ get_or rl.rl_slots 0 0)
unfolding rate_limit_init
rate_limit_init-share cfg displacement desired max_burst e s p q d =
    let zeroes : List ℕ = replicate cfg.rlc_count 0 in
    let none_yet : sum zeroes ≡ 0 = omega (arith, sum-replicate cfg.rlc_count 0) in
    let r =
      take_all_total desired displacement desired zeroes cfg.rlc_slots
        (omega (arith, length-replicate_eq cfg.rlc_count 0, e)) (omega (arith, none_yet, q)) d
        (omega arith) in
    (
      record {
        rl_current_rate = get_or r.0.0 0 0;
        rl_count = cfg.rlc_count % 2 ^ 16;
        rl_current_index = 0;
        rl_max_burst = max_burst % 2 ^ 16;
        rl_slots = r.0.0;
      },
      record cfg { rlc_slots = r.0.1 },
      ground (arith, r.1),
      omega (arith, r.2, none_yet),
      r.3,
      refl,
    )
