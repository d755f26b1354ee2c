-- ===== src/Rate/Divide.antt =====
-- A configured rate divided over its slots: `rate_limit_cfg_init` of src/tpg_rate.c.
use Prim.Native.Nat.{◌*◌}
use native.Mathlib.Omega.{div_any}
use warp.Prelude.{
  ℕ, zero, suc, ◌+◌, ◌/◌, ◌%◌, ◌^◌, ◌≤◌, ◌<◌, ◌≡◌, refl, some, List, length, get_or, replicate,
  ◌==◌, Bool-cases, inl, inr, arith,
}
use warp.Rate.{Cfg, max_slot_count, slot_count, divide, rate_limit_cfg_init}
use warp.Rate.Spread.{sum, spread_rest_total}

pub sum-replicate : (n a : ℕ) → sum (replicate n a) ≡ n * a
sum-replicate zero a = omega arith
sum-replicate (suc n) a = omega (arith, sum-replicate n a)

pub length-replicate_eq : (n a : ℕ) → length (replicate n a) ≡ n
length-replicate_eq zero a = refl
length-replicate_eq (suc n) a = omega (arith, length-replicate_eq n a)

first-replicate : (n a : ℕ) → 0 < n → get_or (replicate n a) 0 0 ≡ a
first-replicate zero a h = omega (arith, h)
first-replicate (suc n) a h = refl

divide_total :
    (count rate : ℕ)
    → 0 < count
    → rate < 2 ^ 32
    → (ys : List ℕ) × (divide count rate ≡ some ys) × (sum ys ≡ rate) × (length ys ≡ count)
unfolding divide
divide_total count rate n b =
    let xs = replicate count (rate / count) in
    let whole : sum xs + rate % count ≡ rate =
      omega (arith, sum-replicate count (rate / count), div_any rate count) in
    let len : length xs ≡ count = length-replicate_eq count (rate / count) in
    elim (Bool-cases (rate % count == 0)) [
      | inl e ↦ (xs, ground arith, ground (arith, whole), len)
      | inr e ↦
          let r =
            spread_rest_total (rate % count) (count / (rate % count)) (rate / count) (rate % count)
              xs (omega (arith, len, n)) (omega (arith, first-replicate count (rate / count) n))
              (omega (arith, whole, b)) (omega arith) in
          (r.0, ground (arith, r.1), omega (arith, r.2, whole), omega (arith, r.3, len))
    ]

slot_count-bounds :
    (rate : ℕ) → 0 < rate → (0 < slot_count rate) × (slot_count rate ≤ max_slot_count)
unfolding slot_count
slot_count-bounds rate p = (ground arith, ground arith)

-- A finite rate is divided in full over at most max_slot_count slots, and over no more than it has units.
pub rate_limit_cfg_init-sum :
    (rate : ℕ)
    → 0 < rate
    → rate < 2 ^ 32
    → (cfg : Cfg) × (rate_limit_cfg_init (some rate) ≡ some cfg)
      × (sum cfg.rlc_slots ≡ rate)
      × (length cfg.rlc_slots ≡ cfg.rlc_count)
      × (cfg.rlc_count ≤ max_slot_count)
unfolding rate_limit_cfg_init
rate_limit_cfg_init-sum rate p b =
    let c = slot_count-bounds rate p in
    let d = divide_total (slot_count rate) rate c.0 b in
    (
      record { rlc_count = slot_count rate; rlc_target = rate; rlc_slots = d.0 },
      ground (arith, d.1),
      d.2,
      d.3,
      c.1,
    )
