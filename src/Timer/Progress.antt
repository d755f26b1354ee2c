-- ===== src/Timer/Progress.antt =====
-- The advance of a wheel ends, and where it ends.
use warp.Prelude.{
  ℕ, zero, suc, ◌+◌, ◌-◌, ◌%◌, ◌<◌, ◌≡◌, refl, ◌⊎◌, inl, inr, Bool-cases, some, List, [], ◌∷◌,
  get_or, leb, ap, ◌≢◌, ◌==◌, ==_iff, if◌then◌else◌, arith,
}
use native.Mathlib.Nat.{mod-lt, mod-eq_of_lt, mod_self}
use native.Mathlib.Decide.{dec_lt}
use warp.Timer.{Timers}
use warp.Timer.Advance.{walk_bucket, bump_current, advance_to}

-- The buckets between the pointer and the bucket of now, in the direction of the pointer.
abbrev pub lag : ℕ → ℕ → ℕ → ℕ
lag size current now_idx =
    if leb current now_idx then now_idx - current else now_idx + size - current

lag-suc :
    (size current now_idx : ℕ)
    → current < size
    → now_idx < size
    → current ≢ now_idx
    → lag size ((current + 1) % size) now_idx < lag size current now_idx
lag-suc size current now_idx h k ne = elim (dec_lt (current + 1) size) [
  | yes p ↦ ground (arith, mod-eq_of_lt p)
  | no p ↦
      let e : current + 1 ≡ size = omega arith in
      ground (arith, mod_self size, ap (λ x. x % size) e)
]

module _ {X : Type 0} (cb : ℕ → Timers × X → Timers × X) (max_run_cnt : ℕ) where
  -- Callbacks leave the pointer and the size of the wheel alone.
  abbrev pub KeepsWheel : Type 0
  KeepsWheel =
      (c : ℕ) (s : Timers × X)
      → ((cb c s).0.wheel.tw_current ≡ s.0.wheel.tw_current)
        × ((cb c s).0.wheel.tw_size ≡ s.0.wheel.tw_size)

  walk_keeps :
      KeepsWheel
      → (cs : List ℕ) (cnt : ℕ) (s : Timers × X)
      → let r = (walk_bucket cb max_run_cnt cs cnt s).0 in
        (r.0.wheel.tw_current ≡ s.0.wheel.tw_current) × (r.0.wheel.tw_size ≡ s.0.wheel.tw_size)
  unfolding walk_bucket
  walk_keeps k [] cnt s = (refl, refl)
  walk_keeps k (c ∷ cs) cnt s = ground (arith, walk_keeps k cs (cnt + 1) (cb c s), k c s)

  advance_total :
      KeepsWheel
      → (fuel now_idx cnt : ℕ) (s : Timers × X) → s.0.wheel.tw_current < s.0.wheel.tw_size
      → now_idx < s.0.wheel.tw_size
      → lag s.0.wheel.tw_size s.0.wheel.tw_current now_idx < fuel
      → (r : (Timers × X) × ℕ) × (advance_to cb max_run_cnt fuel now_idx cnt s ≡ some r)
        × ((r.0.0.wheel.tw_current ≡ now_idx) ⊎ (r.1 ≡ max_run_cnt))
  unfolding advance_to
  advance_total k zero now_idx cnt s h i l = absurd (omega arith)
  advance_total k (suc fuel) now_idx cnt s h i l =
      let w = s.0.wheel in
      let walked = walk_bucket cb max_run_cnt (get_or w.tw_wheel w.tw_current []) cnt s in
      let kept = walk_keeps k (get_or w.tw_wheel w.tw_current []) cnt s in
      elim (Bool-cases (w.tw_current == now_idx)) [
        | inl there ↦ ((s, cnt), rw there, inl ((==_iff _ _).0 there))
        | inr on ↦ elim (Bool-cases (walked.1 == max_run_cnt)) [
          | inl full ↦ (walked, rw (on, full), inr ((==_iff _ _).0 full))
          | inr more ↦
              let v = walked.0.0.wheel in
              let small : v.tw_current < v.tw_size = ground (arith, kept) in
              let near : now_idx < v.tw_size = ground (arith, kept) in
              let apart : v.tw_current ≢ now_idx = ground (arith, kept) in
              let closer = lag-suc v.tw_size v.tw_current now_idx small near apart in
              let ih =
                advance_total k fuel now_idx walked.1 (bump_current cb max_run_cnt walked.0)
                  (mod-lt (v.tw_current + 1) (omega arith)) near (ground (arith, closer, kept)) in
              (ih.0, rw (on, more) ih.1, ih.2)
        ]
      ]

-- From a pointer on the wheel to a bucket of now on the wheel, under callbacks that leave the pointer
-- and the size alone, the loop ends within `tw_size` rounds: with the pointer at the bucket of now, or
-- with as many callbacks counted as one run allows.
pub advance_to_total :
    {X : Type 0} (cb : ℕ → Timers × X → Timers × X) (max_run_cnt now_idx : ℕ) (s : Timers × X)
    → KeepsWheel cb max_run_cnt
    → s.0.wheel.tw_current < s.0.wheel.tw_size
    → now_idx < s.0.wheel.tw_size
    → (r : (Timers × X) × ℕ) × (advance_to cb max_run_cnt s.0.wheel.tw_size now_idx 0 s ≡ some r)
      × ((r.0.0.wheel.tw_current ≡ now_idx) ⊎ (r.1 ≡ max_run_cnt))
advance_to_total cb max_run_cnt now_idx s k h i =
    advance_total cb max_run_cnt k s.0.wheel.tw_size now_idx 0 s h i (ground arith)
