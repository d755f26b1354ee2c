-- ===== src/TestSm/React.antt =====
-- Every handler reacts as the diagram and the list of the other transitions in TestSm/Spec say.
use warp.Prelude.{
  ℕ, suc, ◌<◌, [], ◌∷◌, ◌++◌, remove, ◌≡◌, ◌≢◌, ◌∙◌, refl, arith, occ, contains_of_occ,
  not_contains,
}
use warp.Prelude.Outcome.{ok}
use warp.TestSm.{
  State, cl_to_init, cl_to_close, Event, enter_state, closing, purge, Config, Sys, to_init_cbs,
  to_open_cbs, to_send_cbs, to_close_cbs, closed_cbs, Queue, cl_closing, conn_down,
}
use warp.TestSm.Queues.{
  set_queue, cbq_add, cbq_rem, resched_runner, add_to_open, add_to_close, add_to_send, test_tmr_set,
  tmr_set_unless_inf, tmr_cancel_if_set, set_state, app_call,
}
use warp.TestSm.Machine.{dispatch_event}
use warp.TestSm.Spec.{home, stands, next, reaction, report, goes}

-- A session stands in the queue of its state, once, and in no other.
pub record IsQueued (s : Sys) (c : ℕ) : Type 0 where
  pub in_to_init : occ c (s.cbq to_init_cbs) ≡ stands (home (s.test_state c)) to_init_cbs
  pub in_to_open : occ c (s.cbq to_open_cbs) ≡ stands (home (s.test_state c)) to_open_cbs
  pub in_to_close : occ c (s.cbq to_close_cbs) ≡ stands (home (s.test_state c)) to_close_cbs
  pub in_to_send : occ c (s.cbq to_send_cbs) ≡ stands (home (s.test_state c)) to_send_cbs
  pub in_closed : occ c (s.cbq closed_cbs) ≡ stands (home (s.test_state c)) closed_cbs

-- A removal from a queue that holds the session.
pub cbq_rem_held :
    (p : Queue) (c : ℕ) (s : Sys)
    → 0 < occ c (s.cbq p)
    → cbq_rem p c s ≡ ok (set_queue p (remove c (s.cbq p)) s)
unfolding cbq_rem
cbq_rem_held p c s h = rw (contains_of_occ c (s.cbq p) h)

module _ (n : ℕ) (cfg : Config) (c : ℕ) (s : Sys) (q : IsQueued s c) where
  react_at-to_close_closing :
      s.test_state c ≡ cl_to_close
      → report c (dispatch_event (suc (suc (suc n))) cfg c closing s) ≡ goes cl_closing
  unfolding dispatch_event app_call set_state set_queue
  react_at-to_close_closing h =
      let t : Sys = record s { app_calls = s.app_calls ++ conn_down c ∷ [] } in
      ground (arith, cbq_rem_held to_close_cbs c t (ground arith))

  react_at :
      (st : State) (e : Event)
      → s.test_state c ≡ st
      → e ≢ enter_state
      → report c (dispatch_event (suc (suc (suc n))) cfg c e s) ≡ next cfg c st e
  unfolding dispatch_event cbq_add cbq_rem resched_runner add_to_open add_to_close add_to_send
      test_tmr_set tmr_set_unless_inf tmr_cancel_if_set set_state app_call
  react_at cl_to_close closing h ne = react_at-to_close_closing h
  react_at cl_to_close purge h ne = ground (arith, not_contains c (s.cbq closed_cbs))
  react_at cl_to_close e h ne = ground arith
  react_at cl_to_init e h ne = ground (arith, contains_of_occ c (s.cbq to_init_cbs))
  react_at _ e h ne = ground (
    arith,
    contains_of_occ c (s.cbq to_open_cbs),
    contains_of_occ c (s.cbq to_send_cbs),
    contains_of_occ c (s.cbq closed_cbs),
  )

pub dispatch_event_lem :
    (n : ℕ) (cfg : Config) (c : ℕ) (e : Event) (s : Sys)
    → IsQueued s c
    → e ≢ enter_state
    → report c (dispatch_event (suc (suc (suc n))) cfg c e s) ≡ next cfg c (s.test_state c) e
dispatch_event_lem n cfg c e s q ne = react_at n cfg c s q (s.test_state c) e refl ne

next-reaction :
    (cfg : Config) (c : ℕ) (st : State) (e : Event) → next cfg c st e ≡ reaction cfg c st e
next-reaction cfg c st e = ground arith

-- A control block that stands in the queue of its state reacts to every event that the outside raises
-- as `reaction` says: along the edges of the diagram, but for that from opening to closed, which the code
-- refuses with a failed assert, with a removal from a queue that does not hold it on a purge in to_close,
-- and beside the diagram as listed there. Three nested calls are all that a handler makes.
pub dispatch_event-reaction :
    (n : ℕ) (cfg : Config) (c : ℕ) (e : Event) (s : Sys)
    → IsQueued s c
    → e ≢ enter_state
    → report c (dispatch_event (suc (suc (suc n))) cfg c e s) ≡ reaction cfg c (s.test_state c) e
dispatch_event-reaction n cfg c e s q ne =
    dispatch_event_lem n cfg c e s q ne ∙ next-reaction cfg c (s.test_state c) e
