-- ===== src/TestSm/Frame/Rules.antt =====
-- When an action concerns one session only, and the actions of which that holds.
use warp.Prelude.{
  ℕ, ◌≡◌, ◌≢◌, refl, ◌∙◌, arith, occ, contains, remove, occ-snoc, occ-remove, Bool-cases, ◌||◌, inl,
  inr, List, [], ◌∷◌, ◌++◌,
}
use warp.Prelude.Outcome.{Outcome, ok, fault, Fault, ◌>>◌}
use warp.Timer.{Timers, timer_set, timer_cancel}
use warp.TestSm.{
  State, Sys, Delay, Queue, to_open_cbs, to_close_cbs, to_send_cbs, Run, trmt_open, trmt_close,
  trmt_send, AppCall,
}
use warp.TestSm.Queues.{
  Act, skip, set_queue, cbq_add, cbq_rem, resched_runner, add_to_open, add_to_close, add_to_send,
  test_tmr_set, tmr_set_unless_inf, tmr_cancel_if_set, set_state, app_call, delay_us,
}
use warp.TestSm.Client.{refuse}

-- What one session sees of the state of its test case is the same in both.
pub record SameFor (d : ℕ) (s t : Sys) : Type 0 where
  pub same_state : t.test_state d ≡ s.test_state d
  pub same_timer : t.timers.on_list d ≡ s.timers.on_list d
  pub same_queues : (p : Queue) → occ d (t.cbq p) ≡ occ d (s.cbq p)

pub SameFor-refl : (d : ℕ) (s : Sys) → SameFor d s s
SameFor-refl d s = record { same_state = refl; same_timer = refl; same_queues = λ p. refl }

SameFor-trans : {d : ℕ} {s t u : Sys} → SameFor d s t → SameFor d t u → SameFor d s u
SameFor-trans h k = record {
  same_state = k.same_state ∙ h.same_state;
  same_timer = k.same_timer ∙ h.same_timer;
  same_queues = λ p. k.same_queues p ∙ h.same_queues p;
}

pub data Frames (d : ℕ) (s : Sys) : Outcome Sys → Type 0 where
  kept : {t : Sys} → SameFor d s t → Frames d s (ok t)
  stopped : {f : Fault} → Frames d s (fault f)

pub data IsLocal (d : ℕ) (f : Act) : Type 0 where
  local : ((s : Sys) → Frames d s (f s)) → IsLocal d f

pub Frames-at : {d : ℕ} {f : Act} → IsLocal d f → (s : Sys) → Frames d s (f s)
Frames-at (local h) = h

Frames-trans : {d : ℕ} {s t : Sys} {r : Outcome Sys} → SameFor d s t → Frames d t r → Frames d s r
Frames-trans h (kept k) = kept (SameFor-trans h k)
Frames-trans h stopped = stopped

Frames->> :
    {d : ℕ} {s : Sys} {r : Outcome Sys} (g : Act)
    → Frames d s r
    → IsLocal d g
    → Frames d s (elim r [ ok t ↦ g t | fault e ↦ fault e ])
Frames->> g (kept {t = t} h) k = Frames-trans h (Frames-at k t)
Frames->> g stopped k = stopped

pub >>-IsLocal : {d : ℕ} {f g : Act} → IsLocal d f → IsLocal d g → IsLocal d (f >> g)
>>-IsLocal {g = g} h k = local (λ s. Frames->> g (Frames-at h s) k)

pub skip-IsLocal : {d : ℕ} → IsLocal d skip
skip-IsLocal {d} = local (λ s. kept (SameFor-refl d s))

pub refuse-IsLocal : {d : ℕ} → IsLocal d refuse
refuse-IsLocal = local (λ s. stopped)

on_list-set_ne :
    (t : Timers) (now c us d : ℕ) → c ≢ d → (timer_set t now c us).0.on_list d ≡ t.on_list d
unfolding timer_set
on_list-set_ne t now c us d h = ground arith

on_list-cancel_ne : (t : Timers) (c d : ℕ) → c ≢ d → (timer_cancel t c).0.on_list d ≡ t.on_list d
unfolding timer_cancel
on_list-cancel_ne t c d h = ground arith

occ-set_queue :
    (d : ℕ) (q p : Queue) (l : List ℕ) (s : Sys)
    → occ d l ≡ occ d (s.cbq q)
    → occ d ((set_queue q l s).cbq p) ≡ occ d (s.cbq p)
unfolding set_queue
occ-set_queue d q p l s h = ground arith

same_queue :
    (d : ℕ) (q : Queue) (l : List ℕ) (s : Sys)
    → occ d l ≡ occ d (s.cbq q)
    → SameFor d s (set_queue q l s)
unfolding set_queue
same_queue d q l s h = record {
  same_state = refl;
  same_timer = refl;
  same_queues = λ p. unfold set_queue in occ-set_queue d q p l s h;
}

same_timers :
    (d : ℕ) (t : Timers) (s : Sys)
    → t.on_list d ≡ s.timers.on_list d
    → SameFor d s (record s { timers = t })
same_timers d t s h = record { same_state = refl; same_timer = h; same_queues = λ p. refl }

module _ (c d : ℕ) (ne : c ≢ d) where
  pub add-IsLocal : (q : Queue) → IsLocal d (cbq_add q c)
  unfolding cbq_add
  add-IsLocal q =
      local
        (λ s. kept (same_queue d q (s.cbq q ++ c ∷ []) s (ground (arith, occ-snoc d c (s.cbq q)))))

  rem-Frames : (q : Queue) (s : Sys) → Frames d s (cbq_rem q c s)
  unfolding cbq_rem
  rem-Frames q s = elim (Bool-cases (contains c (s.cbq q))) [
    | inl e ↦
        rw e
          (kept (same_queue d q (remove c (s.cbq q)) s (ground (arith, occ-remove d c (s.cbq q)))))
    | inr e ↦ rw e stopped
  ]

  pub rem-IsLocal : (q : Queue) → IsLocal d (cbq_rem q c)
  rem-IsLocal q = local (λ s. rem-Frames q s)

  pub state-IsLocal : (st : State) → IsLocal d (set_state c st)
  unfolding set_state
  state-IsLocal st =
      local (λ s.
        kept (record { same_state = ground arith; same_timer = refl; same_queues = λ p. refl }))

  pub set-IsLocal : (us : ℕ) → IsLocal d (test_tmr_set c us)
  unfolding test_tmr_set
  set-IsLocal us = local (λ s. kept (
      same_timers d (timer_set s.timers s.now_us c us).0 s
        (on_list-set_ne s.timers s.now_us c us d ne)))

  pub unless_inf-IsLocal : (v : Delay) → IsLocal d (tmr_set_unless_inf c v)
  unfolding tmr_set_unless_inf
  unless_inf-IsLocal v = local (λ s.
      kept
        (same_timers d _ s (ground (arith, on_list-set_ne s.timers s.now_us c (delay_us v) d ne))))

  pub cancel-IsLocal : IsLocal d (tmr_cancel_if_set c)
  unfolding tmr_cancel_if_set
  cancel-IsLocal =
      local (λ s. kept (same_timers d _ s (ground (arith, on_list-cancel_ne s.timers c d ne))))

resched-Frames : (d : ℕ) (r : Run) (s : Sys) → Frames d s (resched_runner r s)
unfolding resched_runner
resched-Frames d r s =
    elim (Bool-cases ((s.run_flags r).in_progress || (s.run_flags r).rate_reached)) [
      | inl e ↦ rw e (kept (SameFor-refl d s))
      | inr e ↦
          rw e (kept (record { same_state = refl; same_timer = refl; same_queues = λ p. refl }))
    ]

pub resched-IsLocal : {d : ℕ} (r : Run) → IsLocal d (resched_runner r)
resched-IsLocal {d} r = local (λ s. resched-Frames d r s)

pub call-IsLocal : {d : ℕ} (a : AppCall) → IsLocal d (app_call a)
unfolding app_call
call-IsLocal a =
    local (λ s. kept (record { same_state = refl; same_timer = refl; same_queues = λ p. refl }))

-- What the handlers are made of.
module _ (c d : ℕ) (ne : c ≢ d) where
  pub open-IsLocal : IsLocal d (add_to_open c)
  unfolding add_to_open
  open-IsLocal = >>-IsLocal (add-IsLocal c d ne to_open_cbs) (resched-IsLocal trmt_open)

  pub close-IsLocal : IsLocal d (add_to_close c)
  unfolding add_to_close
  close-IsLocal = >>-IsLocal (add-IsLocal c d ne to_close_cbs) (resched-IsLocal trmt_close)

  pub send-IsLocal : IsLocal d (add_to_send c)
  unfolding add_to_send
  send-IsLocal = >>-IsLocal (add-IsLocal c d ne to_send_cbs) (resched-IsLocal trmt_send)

-- What `search` builds the locality of a handler from.
pub ruleset local_parts = (
  >>-IsLocal, skip-IsLocal, refuse-IsLocal, call-IsLocal, add-IsLocal, rem-IsLocal, cancel-IsLocal,
  unless_inf-IsLocal, set-IsLocal, open-IsLocal, close-IsLocal, send-IsLocal,
)
