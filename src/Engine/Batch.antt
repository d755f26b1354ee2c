-- ===== src/Engine/Batch.antt =====
-- How many sessions a runner starts, and what that costs its rate: the loops of src/tpg_tests.c.
use warp.Prelude.{
  ℕ, zero, suc, List, [], ◌∷◌, ◌+◌, ◌≤◌, ◌≡◌, ◌⊎◌, inl, inr, refl, sym, ap, ◌∙◌, arith,
}
use mathlib.Core.Path.{subst}
use warp.Prelude.Outcome.{Outcome, ok, fault, >>=-eq-ok}
use warp.TestSm.{Queue}
use warp.Engine.{Engine, with_first, batch}

first_or_none {ℓ} :
    {P : Type ℓ} (l : List ℕ) (x : Outcome (Engine × ℕ)) (f : ℕ → Outcome (Engine × ℕ))
    {z : Outcome (Engine × ℕ)}
    → with_first l x f ≡ z
    → (l ≡ [] → x ≡ z → P)
    → ((c : ℕ) → f c ≡ z → P)
    → P
unfolding with_first
first_or_none [] x f h empty first = empty refl h
first_or_none (c ∷ cs) x f h empty first = first c h

pub ok_same {ℓ} : {A : Type ℓ} {a b : A} → ok a ≡ ok b → a ≡ b
ok_same {a = a} h = ap (λ (o : Outcome _). elim o [ ok x ↦ x | fault e ↦ a ]) h

module _ (q : Queue) (turn : ℕ → Engine → Outcome Engine) where
  -- What every turn keeps up, the whole batch does.
  pub batch_keeps :
      (P : Engine × ℕ → Type 0)
      → ((c n : ℕ) (e t : Engine) → turn c e ≡ ok t → P (e, n) → P (t, suc n))
      → (turns count : ℕ) (e : Engine) (z : Engine × ℕ) → batch q turn turns count e ≡ ok z
      → P (e, count)
      → P z
  unfolding batch
  batch_keeps P keeps zero count e z h p = subst P (ok_same h) p
  batch_keeps P keeps (suc turns) count e z h p =
      first_or_none (e.sys.cbq q) _ _ h (λ l g. subst P (ok_same g) p)
        (λ c g.
          let u = >>=-eq-ok (turn c e) _ g in
          batch_keeps P keeps turns (suc count) u.0 z u.2 (keeps c count e u.0 u.1 p))

  -- A batch starts as many as it may, or all that there are.
  pub batch_stops :
      (turns count : ℕ) (e : Engine) (z : Engine × ℕ)
      → batch q turn turns count e ≡ ok z
      → (count ≤ z.1) × (z.1 ≤ count + turns) × ((z.1 ≡ count + turns) ⊎ (z.0.sys.cbq q ≡ []))
  unfolding batch
  batch_stops zero count e z h =
      let n = ap (λ (x : Engine × ℕ). x.1) (ok_same h) in
      (omega (arith, n), omega (arith, n), inl (omega (arith, n)))
  batch_stops (suc turns) count e z h =
      first_or_none (e.sys.cbq q) _ _ h
        (λ l g.
          let n = ap (λ (x : Engine × ℕ). x.1) (ok_same g) in
          let empty = ap (λ (x : Engine × ℕ). x.0.sys.cbq q) (ok_same g) in
          (omega (arith, n), omega (arith, n), inr (sym empty ∙ l)))
        (λ c g.
          let u = >>=-eq-ok (turn c e) _ g in
          let r = batch_stops turns (suc count) u.0 z u.2 in
          (
            omega (arith, r.0),
            omega (arith, r.1),
            elim r.2 [ inl full ↦ inl (omega (arith, full)) | inr empty ↦ inr empty ],
          ))
