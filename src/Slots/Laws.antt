-- ===== src/Slots/Laws.antt =====
-- What a write to the chosen slot does to the lookups.
use mathlib.Core.Option
use warp.Prelude.{
  ℕ, ◌+◌, ◌≤◌, length, one_if, ◌↔◌, ◌≡◌, ◌≢◌, refl, Bool, true, false, ◌&&◌, Option, none, some,
  List, [], ◌∷◌, arith,
}
use warp.Slots.{Slot, fresh, old, full, choose, find_entry, change_entry, change_at, write}

module _ {E V : Type 0} (used same other : E → Bool) (val : E → V) where
  -- A successful write is found by a lookup of its key, also one that asks for more than the key.
  pub find-write :
      (g h : E → E) (v : V) (es : List E)
      → ((e : E) → other e ≡ true → same e ≡ true)
      → ((e : E) → (used (g e) && other (g e)) ≡ true)
      → ((e : E) → val (g e) ≡ v)
      → ((e : E) → used e ≡ true → same e ≡ true → (used (h e) && other (h e)) ≡ true)
      → ((e : E) → val (h e) ≡ v)
      → choose used same es ≢ full
      → Option.map val (find_entry used other (write used same g h es)) ≡ some v
  unfolding find_entry change_at choose write
  find-write g h v [] sub kg vg kh vh ne = absurd (ne refl)
  find-write g h v (e ∷ es) sub kg vg kh vh ne =
      ground (arith, sub e, kg e, vg e, kh e, vh e, find-write g h v es sub kg vg kh vh)

-- A write is not seen by a lookup of another key.
pub find-write_ne :
    {E : Type 0} (used same other : E → Bool) (g h : E → E) (es : List E)
    → ((e : E) → (used (g e) && other (g e)) ≡ false)
    → ((e : E) → used e ≡ true → same e ≡ true → (used e && other e) ≡ false)
    → ((e : E) → same e ≡ true → (used (h e) && other (h e)) ≡ false)
    → find_entry used other (write used same g h es) ≡ find_entry used other es
unfolding find_entry change_at choose write
find-write_ne used same other g h [] kg ks kh = refl
find-write_ne used same other g h (e ∷ es) kg ks kh =
    ground (arith, kg e, ks e, kh e, find-write_ne used same other g h es kg ks kh)

-- The entries that pass a test.
unfoldable pub tally : {E : Type 0} → (E → Bool) → List E → ℕ
tally p [] = 0
tally p (e ∷ es) = one_if (p e) + tally p es

abbrev pub found : {E : Type 0} → Option E → Bool
found (some e) = true
found none = false

abbrev pub fresh_count : Slot → ℕ
fresh_count (fresh i) = 1
fresh_count (old i) = 0
fresh_count full = 0

tally_le : {E : Type 0} (p : E → Bool) (es : List E) → tally p es ≤ length es
unfolding tally
tally_le p [] = omega arith
tally_le p (e ∷ es) = ground (arith, tally_le p es)

module _ {E : Type 0} (used same : E → Bool) where
  -- A write to a free slot adds an entry with the key, and no other write does.
  pub tally-write :
      (g h : E → E) (es : List E)
      → ((e : E) → (used (g e) && same (g e)) ≡ true)
      → ((e : E) → used e ≡ true → same e ≡ true → (used (h e) && same (h e)) ≡ true)
      → tally (λ e. used e && same e) (write used same g h es)
        ≡ tally (λ e. used e && same e) es + fresh_count (choose used same es)
  unfolding tally change_at choose write
  tally-write g h [] kg kh = refl
  tally-write g h (e ∷ es) kg kh = ground (arith, kg e, kh e, tally-write g h es kg kh)

  -- The entry that a removal finds is taken away.
  pub tally-change :
      (g : E → E) (es : List E)
      → ((e : E) → used (g e) ≡ false)
      → tally (λ e. used e && same e) (change_entry used same g es)
          + one_if (found (find_entry used same es))
        ≡ tally (λ e. used e && same e) es
  unfolding tally find_entry change_entry
  tally-change g [] kg = refl
  tally-change g (e ∷ es) kg = ground (arith, kg e, tally-change g es kg)

  -- The table is full when every entry is in use and none has the key.
  pub choose-eq-full :
      (es : List E)
      → (choose used same es ≡ full)
        ↔ ((tally used es ≡ length es) × (tally (λ e. used e && same e) es ≡ 0))
  unfolding tally choose
  choose-eq-full [] = ground arith
  choose-eq-full (e ∷ es) = ground (arith, choose-eq-full es, tally_le used es)

-- A write leaves some entry that a search finds, when what it writes passes the test of the search.
pub found-write :
    {E : Type 0} (used same other : E → Bool) (g h : E → E) (es : List E)
    → ((e : E) → (used (g e) && other (g e)) ≡ true)
    → ((e : E) → used e ≡ true → same e ≡ true → (used (h e) && other (h e)) ≡ true)
    → choose used same es ≢ full
    → found (find_entry used other (write used same g h es)) ≡ true
unfolding find_entry change_at choose write
found-write used same other g h [] kg kh ne = absurd (ne refl)
found-write used same other g h (e ∷ es) kg kh ne =
    ground (arith, kg e, kh e, found-write used same other g h es kg kh)

-- A change that keeps the key of the entries keeps their number.
pub tally-change_eq :
    {E : Type 0} (used same : E → Bool) (p : E → Bool) (g : E → E) (es : List E)
    → ((e : E) → p (g e) ≡ p e)
    → tally p (change_entry used same g es) ≡ tally p es
unfolding tally change_entry
tally-change_eq used same p g [] kg = refl
tally-change_eq used same p g (e ∷ es) kg =
    ground (arith, kg e, tally-change_eq used same p g es kg)
