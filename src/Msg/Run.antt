-- ===== src/Msg/Run.antt =====
-- Cores in any order keep the messages sound: the polls, the ends of waits and the steps of Msg/Steps
-- (src/tpg_msg.c).
use warp.Prelude.{
  ℕ, Bool, false, List, [], ◌∷◌, ◌≤◌, ◌<◌, ◌≡◌, refl, sym, ap, ◌∙◌, ◌==◌, inl, inr, occ, occ-remove,
  remove, one_if, Bool-cases, arith,
}
use mathlib.Core.Path.{subst}
use warp.Prelude.Outcome.{Outcome, ok}
use warp.Msg.{
  Env, Bus, Sent, queued, dequeued, is_queued, done, waits, set_msg, set_state, set_queue, end_wait,
  Processed, answered, polled, msg_poll_queue,
}
use warp.Msg.Steps.{
  Sys, IsOwned, IsSound, Step, Steps, sends, awaits, polls, ends_wait, step, none_left, wait_for,
  stop_waiting,
}
use warp.Msg.Sound.{
  eq_of, pop, freed_bus, pop-IsSound, popped, was_there, freed-IsSound, set-IsSound,
}
use warp.Msg.Safe.{
  SentWell, LeftWell, EndsWell, send-SentWell, process-EndsWell, true_ne_false, zero_of,
}

poll-EndsWell :
    (env : Env) (s : Sys) (q : ℕ) (ms : List ℕ)
    → IsSound s
    → s.bus.queues q ≡ ms
    → EndsWell s (polled env q ms s.bus)
unfolding polled EndsWell LeftWell pop set_queue
poll-EndsWell env s q [] i h = i
poll-EndsWell env s q (m ∷ ms) i h =
    process-EndsWell env (pop q ms s) (pop-IsSound s i q m ms h) m (popped s i q m ms h)
      (i.alive q m (was_there s i q m ms h))

less_waiting : (m n : ℕ) (xs : List ℕ) → occ n (remove m xs) ≤ occ n xs
less_waiting m n xs = let e = occ-remove n m xs in ground arith

none_waiting : (m : ℕ) (xs : List ℕ) → occ m xs ≤ 1 → occ m (remove m xs) ≡ 0
none_waiting m xs h = let e = occ-remove m m xs in ground arith

drop_wait : ℕ → Sys → Sys
drop_wait m s = record s { waiting = remove m s.waiting }

drop_wait-IsSound : (m : ℕ) (s : Sys) → IsSound s → IsSound (drop_wait m s)
unfolding drop_wait
drop_wait-IsSound m s i = record {
  once = i.once;
  one_queue = i.one_queue;
  alive = i.alive;
  marked = i.marked;
  kept = λ n h. let e = less_waiting m n s.waiting in i.kept n (omega arith);
  left = λ n h. let e = less_waiting m n s.waiting in i.left n (omega arith);
  waits_once = λ n. let e = less_waiting m n s.waiting in let f = i.waits_once n in omega arith;
  freed_once = i.freed_once;
}

queued_not : ¬ (queued ≡ dequeued)
queued_not e = true_ne_false (ap is_queued e)

end_wait-IsSound :
    (m : ℕ) (s : Sys)
    → IsSound s
    → 0 < occ m s.waiting
    → (s.bus.msgs m).msg_state ≡ dequeued
    → IsSound (stop_waiting m s)
unfolding stop_waiting end_wait drop_wait freed_bus set_state set_msg
end_wait-IsSound m s i h g =
    let free =
      λ (k : ℕ). zero_of (occ m (s.bus.queues k)) (λ o. queued_not (sym (i.marked k m o) ∙ g)) in
    let k = drop_wait-IsSound m s i in
    elim (Bool-cases (s.captured m)) [
      | inl e ↦ rw e (
          freed-IsSound (drop_wait m s) k m free s.bus.stats (i.kept m h)
            (none_waiting m s.waiting (i.waits_once m)))
      | inr e ↦ rw e (set-IsSound (drop_wait m s) k m free s.bus.stats _ (λ o. i.left m h))
    ]

sent_by : (s : Sys) (m : ℕ) (r t : Bus × Sent) → r ≡ t → SentWell s m r → SentWell s m t
sent_by s m r t e h = subst (λ (x : Bus × Sent). SentWell s m x) e h

ended_by : (s : Sys) (r t : Outcome Processed) → r ≡ t → EndsWell s r → EndsWell s t
ended_by s r t e h = subst (λ (x : Outcome Processed). EndsWell s x) e h

wait_for-IsSound :
    (m : ℕ) (t : Bool) (s : Sys)
    → IsSound s
    → s.bus.freed m ≡ 0
    → (s.bus.msgs m).to_free ≡ false
    → occ m s.waiting ≡ 0
    → IsSound (wait_for m t s)
unfolding wait_for occ
wait_for-IsSound m t s i there gives new = record {
  once = i.once;
  one_queue = i.one_queue;
  alive = i.alive;
  marked = i.marked;
  kept = λ n h. elim (Bool-cases (n == m)) [
    | inl e ↦ ap s.bus.freed (eq_of n m e) ∙ there
    | inr e ↦ let f = ap one_if e in i.kept n (omega (arith, f, h))
  ];
  left = λ n h. elim (Bool-cases (n == m)) [
    | inl e ↦ ap (λ (k : ℕ). (s.bus.msgs k).to_free) (eq_of n m e) ∙ gives
    | inr e ↦ let f = ap one_if e in i.left n (omega (arith, f, h))
  ];
  waits_once = λ n. elim (Bool-cases (n == m)) [
    | inl e ↦
        let f = ap one_if e in
        let g = ap (λ (k : ℕ). occ k s.waiting) (eq_of n m e) in omega (arith, f, g)
    | inr e ↦ let f = ap one_if e in let g = i.waits_once n in omega (arith, f, g)
  ];
  freed_once = i.freed_once;
}

owned_keeps : (s : Sys) (m : ℕ) → IsOwned s m → 0 < occ m s.waiting → (s.bus.msgs m).to_free ≡ false
owned_keeps s m o h = let e = o.unawaited in absurd (omega arith)

-- Any step of any core keeps the messages sound.
Step-IsSound : {env : Env} {s t : Sys} → Step env s t → IsSound s → IsSound t
unfolding SentWell EndsWell LeftWell msg_poll_queue polled
Step-IsSound {env = env} {s = s} (sends m noblock nowait b c o e) i =
    sent_by s m _ (b, done c) e
      (send-SentWell env s i m o.unqueued o.there (owned_keeps s m o) noblock nowait)
Step-IsSound {env = env} {s = s} (awaits m noblock nowait b t o e) i =
    let w =
      sent_by s m _ (b, waits t) e
        (send-SentWell env s i m o.unqueued o.there (owned_keeps s m o) noblock nowait) in
    wait_for-IsSound m t (record s { bus = b }) w.0 w.2 w.1 o.unawaited
Step-IsSound {env = env} {s = s} (polls q b c e) i =
    ended_by s _ (ok (answered b c)) e (poll-EndsWell env s q (s.bus.queues q) i refl)
Step-IsSound {s = s} (ends_wait m h g) i = end_wait-IsSound m s i h g

-- Whatever the cores do, a message in a ring is in one place and still there, and no message is given
-- back twice.
pub Steps-IsSound : {env : Env} {s t : Sys} → Steps env s t → IsSound s → IsSound t
Steps-IsSound none_left i = i
Steps-IsSound (step a rest) i = Steps-IsSound rest (Step-IsSound a i)
