-- ===== src/Msg/Steps.antt =====
-- Cores that send, poll and wait in any order (src/tpg_msg.c). A core that waits for room in a ring makes
-- its step when there is room; one that waits for its message makes another one when that is processed.
use warp.Prelude.{ℕ, Bool, false, List, ◌∷◌, ◌≤◌, ◌<◌, ◌≡◌, ◌==◌, if◌then◌else◌, occ, remove}
use warp.Prelude.Outcome.{ok}
use warp.Msg.{
  Env, Bus, Code, queued, dequeued, done, waits, msg_send, msg_poll_queue, answered, end_wait,
}

-- The bus with the messages that a sender waits for, and the flag that each had.
pub record Sys : Type 0 where
  pub bus : Bus
  pub waiting : List ℕ
  pub captured : ℕ → Bool

-- A message that its sender may send: it is in no ring, nobody waits for it, and its memory is there.
pub record IsOwned (s : Sys) (m : ℕ) : Type 0 where
  pub unqueued : (q : ℕ) → occ m (s.bus.queues q) ≡ 0
  pub there : s.bus.freed m ≡ 0
  pub unawaited : occ m s.waiting ≡ 0

unfoldable pub wait_for : ℕ → Bool → Sys → Sys
wait_for m to_free s = record s {
  waiting = m ∷ s.waiting;
  captured = λ n. if m == n then to_free else s.captured n;
}

unfoldable pub stop_waiting : ℕ → Sys → Sys
stop_waiting m s = record s { bus = end_wait m (s.captured m) s.bus; waiting = remove m s.waiting }

pub data Step (env : Env) : Sys → Sys → Type 0 where
  sends :
      {s : Sys} (m : ℕ) (noblock nowait : Bool) (b : Bus) (c : Code)
      → IsOwned s m
      → msg_send env m noblock nowait s.bus ≡ (b, done c)
      → Step env s (record s { bus = b })
  awaits :
      {s : Sys} (m : ℕ) (noblock nowait : Bool) (b : Bus) (t : Bool)
      → IsOwned s m
      → msg_send env m noblock nowait s.bus ≡ (b, waits t)
      → Step env s (wait_for m t (record s { bus = b }))
  polls :
      {s : Sys} (q : ℕ) (b : Bus) (c : Code)
      → msg_poll_queue env q s.bus ≡ ok (answered b c)
      → Step env s (record s { bus = b })
  ends_wait :
      {s : Sys} (m : ℕ)
      → 0 < occ m s.waiting
      → (s.bus.msgs m).msg_state ≡ dequeued
      → Step env s (stop_waiting m s)

pub data Steps (env : Env) : Sys → Sys → Type 0 where
  none_left : {s : Sys} → Steps env s s
  step : {s t u : Sys} → Step env s t → Steps env t u → Steps env s u

-- A message that is in a ring is in one place, is there, and is marked as queued; one that is awaited is
-- there and is not freed by its receiver; no memory is given back twice.
pub record IsSound (s : Sys) : Type 0 where
  pub once : (q m : ℕ) → occ m (s.bus.queues q) ≤ 1
  pub one_queue : (q r m : ℕ) → 0 < occ m (s.bus.queues q) → 0 < occ m (s.bus.queues r) → q ≡ r
  pub alive : (q m : ℕ) → 0 < occ m (s.bus.queues q) → s.bus.freed m ≡ 0
  pub marked : (q m : ℕ) → 0 < occ m (s.bus.queues q) → (s.bus.msgs m).msg_state ≡ queued
  pub kept : (m : ℕ) → 0 < occ m s.waiting → s.bus.freed m ≡ 0
  pub left : (m : ℕ) → 0 < occ m s.waiting → (s.bus.msgs m).to_free ≡ false
  pub waits_once : (m : ℕ) → occ m s.waiting ≤ 1
  pub freed_once : (m : ℕ) → s.bus.freed m ≤ 1
