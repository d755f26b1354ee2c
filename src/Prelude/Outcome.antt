-- ===== src/Prelude/Outcome.antt =====
-- What a step of the program ends in: a new state, or a fault.

use mathlib.Core.Path.{◌≡◌, refl}
use mathlib.Core.Bool.{Bool, true, false}
use warp.Prelude.Tests.{if◌then◌else◌}

-- `assert_false` is a failed assert; `not_on_list` is the removal of a control block from a queue
-- that does not hold it, which sys/queue.h leaves undefined; `null_pointer` is an access through a null pointer; `error_abort` is TPG_ERROR_ABORT;
-- `out_of_fuel` is the model's own.
pub data Fault : Type 0 where
  assert_false not_on_list null_pointer error_abort out_of_fuel : Fault

pub data Outcome {ℓ} (A : Type ℓ) : Type ℓ where
  ok : A → Outcome A
  fault : Fault → Outcome A

-- What goes on after a step, with what it ends in.
infixl 5 ◌>>=◌
abbrev pub ◌>>=◌ {κ μ} : {S : Type κ} {T : Type μ} → Outcome S → (S → Outcome T) → Outcome T
r >>= next = elim r [ fault e ↦ fault e | ok s ↦ next s ]

-- A step that went on to an end without a fault did not fault itself.
pub >>=-eq-ok {κ μ} :
    {T : Type μ} {t : T} {S : Type κ} (r : Outcome S) (next : S → Outcome T)
    → r >>= next ≡ ok t
    → (s : S) × (r ≡ ok s) × (next s ≡ ok t)
>>=-eq-ok (fault e) next h = cc
>>=-eq-ok (ok s) next h = (s, refl, h)

-- Actions on a state, run one after the other until a fault.
infixl 5 ◌>>◌
abbrev pub ◌>>◌ {ℓ} : {S : Type ℓ} → (S → Outcome S) → (S → Outcome S) → S → Outcome S
◌>>◌ f g s = elim (f s) [ ok t ↦ g t | fault e ↦ fault e ]

bind_inv {ℓ} :
    {S : Type ℓ} (r : Outcome S) (g : S → Outcome S) {t : S}
    → (elim r [ ok u ↦ g u | fault e ↦ fault e ]) ≡ ok t
    → (u : S) × (r ≡ ok u) × (g u ≡ ok t)
bind_inv (ok u) g h = (u, refl, h)
bind_inv (fault e) g h = cc

-- Inversion of two actions in a row that end well.
pub >>-eq-ok {ℓ} :
    {S : Type ℓ} (f g : S → Outcome S) (s : S) {t : S}
    → (f >> g) s ≡ ok t
    → (u : S) × (f s ≡ ok u) × (g u ≡ ok t)
>>-eq-ok f g s h = bind_inv (f s) g h

-- What does not fault ends in a state.
pub ok_of_ne_fault {ℓ} :
    {S : Type ℓ} (r : Outcome S) → ((e : Fault) → ¬ (r ≡ fault e)) → (u : S) × (r ≡ ok u)
ok_of_ne_fault (ok u) h = (u, refl)
ok_of_ne_fault (fault e) h = absurd (h e refl)

-- A proof by the two branches of a test.
pub branch {ℓ κ} :
    {A : Type ℓ} {P : Type κ} (b : Bool) {x y z : A}
    → (if b then x else y) ≡ z
    → (x ≡ z → P)
    → (y ≡ z → P)
    → P
branch true h f g = f h
branch false h f g = g h

-- The same with what the test says.
pub branch_on {ℓ κ} :
    {A : Type ℓ} {P : Type κ} (b : Bool) {x y z : A}
    → (if b then x else y) ≡ z
    → (b ≡ true → x ≡ z → P)
    → (b ≡ false → y ≡ z → P)
    → P
branch_on true h f g = f refl h
branch_on false h f g = g refl h

-- The branch that a test takes.
pub if_true {ℓ} : {A : Type ℓ} (b : Bool) (x y : A) → b ≡ true → (if b then x else y) ≡ x
if_true b x y h = rw h refl

pub if_false {ℓ} : {A : Type ℓ} (b : Bool) (x y : A) → b ≡ false → (if b then x else y) ≡ y
if_false b x y h = rw h refl

-- A step that ends well, and what goes on after it.
pub ok_then {κ μ} :
    {S : Type κ} {T : Type μ} (r : Outcome S) (next : S → Outcome T) {s : S} {t : T}
    → r ≡ ok s
    → next s ≡ ok t
    → r >>= next ≡ ok t
ok_then r next h g = rw h g
