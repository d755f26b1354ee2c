-- ===== src/Slots.antt =====
-- Fixed tables of slots that are in use or free, as `arp_update_entry` (src/tpg_arp.c) and
-- `route_update_entry` (src/tpg_route.c) search them: the loop stops at the entry in use with the key,
-- and notes the first free entry that it passes; a free entry, if there is one, is written.
pub mod Laws
use mathlib.Core.Option
use warp.Prelude.{
  ℕ, zero, suc, Bool, true, false, ◌&&◌, Option, none, some, List, [], ◌∷◌, if◌then◌else◌,
}

-- The slot to write: a free one, the one with the key, or none.
pub data Slot : Type 0 where
  fresh old : ℕ → Slot
  full : Slot

abbrev pub shift : Slot → Slot
shift (fresh i) = fresh (suc i)
shift (old i) = old (suc i)
shift full = full

module _ {E : Type 0} (used same : E → Bool) where
  -- `free_entry` and `update_entry` after the loop, counted from the head of the list.
  unfoldable pub scan : List E → Option ℕ × Option ℕ
  scan [] = (none, none)
  scan (e ∷ es) =
      let rest = scan es in
      let free = Option.map suc rest.0 in
      let found = Option.map suc rest.1 in
      if used e then (if same e then (none, some 0) else (free, found)) else (some 0, found)

  -- `if (free_entry != NULL)`, with the full table before it.
  unfoldable pub choose : List E → Slot
  unfolding scan
  choose es =
      let found = (scan es).1 in
      elim (scan es).0 [ some i ↦ fresh i | none ↦ elim found [ some i ↦ old i | none ↦ full ] ]

  -- The first entry in use with the key, as the lookups search it.
  unfoldable pub find_entry : List E → Option E
  find_entry [] = none
  find_entry (e ∷ es) = if used e && same e then some e else find_entry es

  -- The same loop, with the entry that it finds changed.
  unfoldable pub change_entry : (E → E) → List E → List E
  change_entry g [] = []
  change_entry g (e ∷ es) = if used e && same e then g e ∷ es else e ∷ change_entry g es

-- One slot, by its number, is rewritten.
unfoldable pub change_at : {E : Type 0} → ℕ → (E → E) → List E → List E
change_at i g [] = []
change_at zero g (e ∷ es) = g e ∷ es
change_at (suc i) g (e ∷ es) = e ∷ change_at i g es

module _ {E : Type 0} (used same : E → Bool) where
  -- The slot with that number, rewritten: `g` on a free slot, `h` on the one with the key.
  unfoldable pub write : (E → E) → (E → E) → List E → List E
  write g h es = elim (choose used same es) [
    | fresh i ↦ change_at i g es
    | old i ↦ change_at i h es
    | full ↦ es
  ]
