-- ===== src/Engine/Sessions.antt =====
-- The runner that opens sessions over the session machine: test_case_run_open_cb of src/tpg_tests.c, with a
-- protocol that tells the session at once that it connects (TEST_NOTIF_SESS_CONNECTING).
use warp.Prelude.{
  ℕ, zero, suc, Bool, true, false, List, [], ◌∷◌, ◌+◌, ◌≡◌, refl, sym, ap, ◌∙◌, ◌==◌, if◌then◌else◌,
  occ, contains, remove, one_if, take, drop, length, arith,
}
use warp.Prelude.Outcome.{Outcome, ok, fault, ◌>>=◌, ◌>>◌, if_false}
use warp.TestSm.{State, cl_to_open, cl_opening, connecting, Config, to_open_cbs, Sys}
use warp.TestSm.Queues.{cbq_rem, set_queue, set_state}
use warp.TestSm.Client.{client_to_open, client_opening, enter}
use warp.TestSm.Machine.{handler, dispatch_event}
use warp.Engine.{Engine, Callbacks, with_sys, with_first, batch, opened, open_turn}

-- A session that has left the queue of those to open.
unfoldable pub goes_on : ℕ → List ℕ → Sys → Sys
goes_on c cs s = record (set_queue to_open_cbs cs s) {
  test_state = λ d. if d == c then cl_opening else s.test_state d;
}

in_a_row : (f g : Sys → Outcome Sys) (s : Sys) {t : Sys} → f s ≡ ok t → (f >> g) s ≡ g t
in_a_row f g s h = ap (λ (o : Outcome Sys). elim o [ ok u ↦ g u | fault e ↦ fault e ]) h

same : (n : ℕ) → (n == n) ≡ true
same n = ground arith

rem_first :
    (c : ℕ) (cs : List ℕ) (s : Sys)
    → s.cbq to_open_cbs ≡ c ∷ cs
    → cbq_rem to_open_cbs c s ≡ ok (set_queue to_open_cbs cs s)
unfolding cbq_rem contains remove
rem_first c cs s h = rw (h, same c) refl

entered :
    (cfg : Config) (n c : ℕ) (s : Sys)
    → enter cfg (dispatch_event (suc n) cfg) c cl_opening s
      ≡ ok (record s { test_state = λ d. if d == c then cl_opening else s.test_state d })
unfolding enter set_state dispatch_event handler client_opening
entered cfg n c s = rw (same c) refl

connects :
    (cfg : Config) (n c : ℕ) (cs : List ℕ) (s : Sys)
    → s.test_state c ≡ cl_to_open
    → s.cbq to_open_cbs ≡ c ∷ cs
    → dispatch_event (suc (suc n)) cfg c connecting s ≡ ok (goes_on c cs s)
unfolding dispatch_event handler client_to_open goes_on set_queue
connects cfg n c cs s e h =
    ap (λ (st : State). handler cfg (dispatch_event (suc n) cfg) st c connecting s) e
    ∙ in_a_row (cbq_rem to_open_cbs c) (enter cfg (dispatch_event (suc n) cfg) c cl_opening) s
        (rem_first c cs s h)
    ∙ entered cfg n c (set_queue to_open_cbs cs s)

abbrev without_error : Outcome Sys → Outcome (Sys × Bool)
without_error o = o >>= (λ t. ok (t, false))

abbrev went_on : ℕ → Engine → Outcome (Sys × Bool) → Outcome Engine
went_on c e o = o >>= (λ r. opened c r.1 (with_sys e r.0))

-- A protocol whose sessions connect without an error.
abbrev pub connect_all : Config → Callbacks → Callbacks
connect_all cfg cb = record cb {
  client_open_cb = λ c s. without_error (dispatch_event 3 cfg c connecting s);
}

turn_opens :
    (cfg : Config) (cb : Callbacks) (c : ℕ) (cs : List ℕ) (e : Engine)
    → e.sys.test_state c ≡ cl_to_open
    → e.sys.cbq to_open_cbs ≡ c ∷ cs
    → open_turn (connect_all cfg cb) c e
      ≡ ok (record e { sys = goes_on c cs e.sys; gs_up = e.gs_up + 1 })
unfolding open_turn with_sys opened
turn_opens cfg cb c cs e h g =
    ap (λ (o : Outcome Sys). went_on c e (without_error o)) (connects cfg 1 c cs e.sys h g)

-- Different sessions that wait to be opened.
unfoldable pub AreWaiting : List ℕ → Sys → Type 0
AreWaiting [] s = Unit
AreWaiting (c ∷ cs) s = (s.test_state c ≡ cl_to_open) × (occ c cs ≡ 0) × AreWaiting cs s

eq_of : (a b : ℕ) → (a == b) ≡ true → a ≡ b
eq_of a b h = ground arith

differ : (c d : ℕ) (l : List ℕ) → one_if (c == d) + occ c l ≡ 0 → (d == c) ≡ false
differ c d l h = ground arith

still-AreWaiting :
    (c : ℕ) (l cs : List ℕ) (s : Sys) → occ c l ≡ 0 → AreWaiting l s → AreWaiting l (goes_on c cs s)
unfolding AreWaiting occ goes_on
still-AreWaiting c [] cs s h w = tt
still-AreWaiting c (d ∷ l) cs s h w = (
  if_false (d == c) cl_opening (s.test_state d) (differ c d l h) ∙ w.0,
  w.1,
  still-AreWaiting c l cs s (omega (arith, h)) w.2,
)

two_tests :
    (x y : Bool) (a b : State)
    → (if y then a else if x then a else b) ≡ (if (if x then true else y) then a else b)
two_tests true true a b = refl
two_tests true false a b = refl
two_tests false true a b = refl
two_tests false false a b = refl

-- A batch opens the first sessions of the queue, as many as it may, and none other.
pub batch-opens :
    (cfg : Config) (cb : Callbacks) (n count : ℕ) (l : List ℕ) (e : Engine)
    → e.sys.cbq to_open_cbs ≡ l
    → AreWaiting l e.sys
    → (t : Engine) × (batch to_open_cbs (open_turn (connect_all cfg cb)) n count e
        ≡ ok (t, count + length (take n l)))
      × (t.sys.cbq to_open_cbs ≡ drop n l)
      × (t.gs_up ≡ e.gs_up + length (take n l))
      × ((d : ℕ)
          → t.sys.test_state d ≡ (if contains d (take n l) then cl_opening else e.sys.test_state d))
unfolding batch with_first AreWaiting goes_on set_queue contains
batch-opens cfg cb zero count l e h w =
    let z : count + 0 ≡ count = omega arith in
    (e, ap (λ (k : ℕ). ok (e, k)) (sym z), h, omega arith, λ d. refl)
batch-opens cfg cb (suc n) count [] e h w =
    let z : count + 0 ≡ count = omega arith in
    let turn = open_turn (connect_all cfg cb) in
    (
      e,
      ap
            (λ (xs : List ℕ).
              with_first xs (ok (e, count))
                (λ c. turn c e >>= batch to_open_cbs turn n (suc count)))
            h
          ∙ ap (λ (k : ℕ). ok (e, k)) (sym z),
      h,
      omega arith,
      λ d. refl,
    )
batch-opens cfg cb (suc n) count (c ∷ cs) e h w =
    let turn = open_turn (connect_all cfg cb) in
    let k = length (take n cs) in
    let z : suc count + k ≡ count + suc k = omega arith in
    let next = record e { sys = goes_on c cs e.sys; gs_up = e.gs_up + 1 } in
    let r =
      batch-opens cfg cb n (suc count) cs next refl (still-AreWaiting c cs cs e.sys w.1 w.2) in
    (
      r.0,
      ap
            (λ (xs : List ℕ).
              with_first xs (ok (e, count))
                (λ c. turn c e >>= batch to_open_cbs turn n (suc count)))
            h
          ∙ ap (λ (o : Outcome Engine). o >>= batch to_open_cbs turn n (suc count))
              (turn_opens cfg cb c cs e w.0 h)
          ∙ r.1
          ∙ ap (λ (k : ℕ). ok (r.0, k)) z,
      r.2,
      omega (arith, r.3),
      λ d. r.4 d ∙ two_tests (d == c) (contains d (take n cs)) cl_opening (e.sys.test_state d),
    )
