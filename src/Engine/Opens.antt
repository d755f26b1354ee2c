-- ===== src/Engine/Opens.antt =====
-- The runner that opens sessions, test_case_run_open_cb of src/tpg_tests.c.
use warp.Prelude.{
  ℕ, suc, Bool, true, false, List, [], ◌+◌, ◌^◌, ◌≤◌, ◌<◌, ◌≡◌, ◌⊎◌, inl, inr, refl, sym, ap, ◌∙◌,
  ◌==◌, ◌||◌, if◌then◌else◌, arith,
}
use warp.Prelude.Outcome.{ok, >>=-eq-ok}
use warp.Rate.{Limit}
use warp.Rate.Interval.{
  Answer, done, again, rate_limit_available, test_case_rate_limit_update, update-available,
}
use warp.TestSm.{to_open_cbs, trmt_open}
use warp.TestSm.Queues.{add_to_open}
use warp.Engine.{
  Engine, Callbacks, with_sys, on_sys, batch, opened, open_turn, is_empty, update_after, run_batch,
  test_case_run_open_cb,
}
use warp.Engine.Batch.{batch_keeps, batch_stops, ok_same}

-- What a turn keeps: the rate, and that each session is counted as opened or as failed.
unfoldable Counted : Limit → ℕ → Engine × ℕ → Type 0
Counted rl before z = (z.0.limits trmt_open ≡ rl) × (z.0.gs_up + z.0.gs_failed ≡ before + z.1)

opened-Counted :
    (rl : Limit) (before n c : ℕ) (error : Bool) (e t : Engine)
    → opened c error e ≡ ok t
    → Counted rl before (e, n)
    → Counted rl before (t, suc n)
unfolding opened on_sys with_sys Counted
opened-Counted rl before n c false e t h p =
    let up = ap (λ (x : Engine). x.gs_up + x.gs_failed) (ok_same h) in
    let limits = ap (λ (x : Engine). x.limits trmt_open) (ok_same h) in
    (sym limits ∙ p.0, omega (arith, up, p.1))
opened-Counted rl before n c true e t h p =
    let u = >>=-eq-ok (add_to_open c e.sys) _ h in
    let failed = ap (λ (x : Engine). x.gs_up + x.gs_failed) (ok_same u.2) in
    let limits = ap (λ (x : Engine). x.limits trmt_open) (ok_same u.2) in
    (sym limits ∙ p.0, omega (arith, failed, p.1))

open_turn-Counted :
    (cb : Callbacks) (rl : Limit) (before c n : ℕ) (e t : Engine)
    → open_turn cb c e ≡ ok t
    → Counted rl before (e, n)
    → Counted rl before (t, suc n)
unfolding open_turn with_sys Counted
open_turn-Counted cb rl before c n e t h p =
    let u = >>=-eq-ok (cb.client_open_cb c e.sys) _ h in
    opened-Counted rl before n c u.0.1 (with_sys e u.0.0) t u.2 p

-- A runner that opens takes from its rate what it has started, at most what was available and less only
-- when no session is left, counts each as opened or failed, and is called again just when it has
-- something left of its rate and of its queue.
pub run_open-spends :
    (cb : Callbacks) (e t : Engine) (a : Answer)
    → test_case_run_open_cb cb e ≡ ok (t, a)
    → (e.limits trmt_open).rl_current_rate < 2 ^ 32
    → (k : ℕ) × (k ≤ rate_limit_available (e.limits trmt_open))
      × ((k ≡ rate_limit_available (e.limits trmt_open)) ⊎ (t.sys.cbq to_open_cbs ≡ []))
      × ((t.limits trmt_open).rl_current_rate + k ≡ (e.limits trmt_open).rl_current_rate)
      × (t.gs_up + t.gs_failed ≡ e.gs_up + e.gs_failed + k)
      × (a ≡ (
          if (k == (e.limits trmt_open).rl_current_rate) || is_empty (t.sys.cbq to_open_cbs)
          then done
          else again))
unfolding test_case_run_open_cb run_batch update_after Counted
run_open-spends cb e t a h b =
    let rl = e.limits trmt_open in
    let turn = open_turn cb in
    let u = >>=-eq-ok (batch to_open_cbs turn (rate_limit_available rl) 0 e) _ h in
    let z = u.0 in
    let start : e.gs_up + e.gs_failed ≡ e.gs_up + e.gs_failed + 0 = omega arith in
    let kept =
      batch_keeps to_open_cbs turn (Counted rl (e.gs_up + e.gs_failed))
        (λ c n x y g p. open_turn-Counted cb rl (e.gs_up + e.gs_failed) c n x y g p)
        (rate_limit_available rl) 0 e z u.1 (refl, start) in
    let stops = batch_stops to_open_cbs turn (rate_limit_available rl) 0 e z u.1 in
    let same = ok_same u.2 in
    let spent =
      update-available (z.0.sys.run_flags trmt_open) rl (is_empty (z.0.sys.cbq to_open_cbs)) z.1 b
        (omega (arith, stops.1)) in
    let flags = z.0.sys.run_flags trmt_open in
    let upd =
      λ (l : Limit). test_case_rate_limit_update flags l (is_empty (z.0.sys.cbq to_open_cbs)) z.1 in
    let queue = ap (λ (x : Engine × Answer). x.0.sys.cbq to_open_cbs) same in
    let rate =
      ap (λ (l : Limit). (upd l).1.rl_current_rate) (sym kept.0)
      ∙ ap (λ (x : Engine × Answer). (x.0.limits trmt_open).rl_current_rate) same in
    let counts = ap (λ (x : Engine × Answer). x.0.gs_up + x.0.gs_failed) same in
    let answer =
      ap (λ (l : Limit). (upd l).2) (sym kept.0) ∙ ap (λ (x : Engine × Answer). x.1) same in
    (
      z.1,
      omega (arith, stops.1),
      elim stops.2 [ inl full ↦ inl (omega (arith, full)) | inr empty ↦ inr (sym queue ∙ empty) ],
      omega (arith, spent.0, rate),
      omega (arith, kept.1, counts),
      sym answer
          ∙ spent.1
          ∙ ap (λ (xs : List ℕ). if (z.1 == rl.rl_current_rate) || is_empty xs then done else again)
              queue,
    )
