-- ===== src/Prelude/Occ.antt =====
-- Intrusive lists of control blocks: a block is its number, a list is that of its entries in order.
use Prim.Native.Nat.{ℕ, ◌+◌, ◌-◌, ◌<◌}
use mathlib.Core.Path.{◌≡◌, refl}
use mathlib.Core.Bool.{Bool, true, false}
use mathlib.Core.List.{List, [], ◌∷◌, ◌++◌}
use native.Mathlib.Omega.{arith}
use warp.Prelude.Tests.{◌==◌, if◌then◌else◌}

abbrev pub one_if : Bool → ℕ
one_if true = 1
one_if false = 0

-- How often a block stands in a list.
unfoldable pub occ : ℕ → List ℕ → ℕ
occ c [] = 0
occ c (x ∷ xs) = one_if (c == x) + occ c xs

unfoldable pub contains : ℕ → List ℕ → Bool
contains c [] = false
contains c (x ∷ xs) = if c == x then true else contains c xs

-- The list without the first entry for the block.
unfoldable pub remove : ℕ → List ℕ → List ℕ
remove c [] = []
remove c (x ∷ xs) = if c == x then xs else x ∷ remove c xs

pub occ-append : (c : ℕ) (xs ys : List ℕ) → occ c (xs ++ ys) ≡ occ c xs + occ c ys
unfolding occ
occ-append c [] ys = omega arith
occ-append c (x ∷ xs) ys = omega (arith, occ-append c xs ys)

pub occ-snoc : (c d : ℕ) (xs : List ℕ) → occ c (xs ++ d ∷ []) ≡ occ c xs + one_if (c == d)
unfolding occ
occ-snoc c d xs = omega (arith, occ-append c xs (d ∷ []))

pub occ-remove :
    (c d : ℕ) (xs : List ℕ) → occ c (remove d xs) ≡ (if c == d then occ c xs - 1 else occ c xs)
unfolding occ remove
occ-remove c d [] = ground arith
occ-remove c d (x ∷ xs) = ground (arith, occ-remove c d xs)

pub contains_of_occ : (c : ℕ) (xs : List ℕ) → 0 < occ c xs → contains c xs ≡ true
unfolding occ contains
contains_of_occ c [] h = elim h [ ]
contains_of_occ c (x ∷ xs) h = ground (arith, contains_of_occ c xs)

pub not_contains : (c : ℕ) (xs : List ℕ) → occ c xs ≡ 0 → contains c xs ≡ false
unfolding occ contains
not_contains c [] h = refl
not_contains c (x ∷ xs) h = ground (arith, not_contains c xs)
