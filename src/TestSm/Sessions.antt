-- ===== src/TestSm/Sessions.antt =====
-- All the sessions of a test case: how they start (inc/tpg_tests_sm.h), and any interleaving of
-- their events.
use warp.Prelude.{
  ℕ, suc, ◌≡◌, ◌≢◌, ◌==◌, if◌then◌else◌, arith, List, [], ◌∷◌, occ, occ-snoc, ==_iff, Bool-cases,
  inl, inr,
}
use mathlib.Core.Path.{subst}
use warp.Prelude.Outcome.{ok, fault, ◌>>◌, >>-eq-ok, Fault, ok_of_ne_fault}
use warp.TestSm.{
  cl_to_init, cl_to_open, srv_opening, listen, Event, enter_state, Config, Sys, Queue, to_init_cbs,
  to_open_cbs, to_close_cbs, to_send_cbs, closed_cbs,
}
use warp.TestSm.Queues.{Act, skip, cbq_add, test_tmr_set, set_state}
use warp.TestSm.Client.{enter}
use warp.TestSm.Machine.{dispatch_event}
use warp.TestSm.React.{IsQueued}
use warp.TestSm.Keep.{dispatch_event-IsQueued}
use warp.TestSm.Frame.{dispatch_event_frame}

-- `test_sm_client_initialize`
unfoldable pub client_initialize : ℕ → Config → ℕ → Act
unfolding enter
client_initialize n cfg c = enter cfg (dispatch_event n cfg) c cl_to_init

-- `test_sm_server_initialize`
unfoldable pub server_initialize : ℕ → Config → ℕ → Act
unfolding enter
server_initialize n cfg c = enter cfg (dispatch_event n cfg) c srv_opening

-- `test_sm_listen_initialize`
unfoldable pub listen_initialize : ℕ → Config → ℕ → Act
unfolding enter
listen_initialize n cfg c = enter cfg (dispatch_event n cfg) c listen

-- A control block that is new stands in no queue.
abbrev pub IsUnqueued : Sys → ℕ → Type 0
IsUnqueued s c =
    (occ c (s.cbq to_init_cbs) ≡ 0)
    × (occ c (s.cbq to_open_cbs) ≡ 0)
    × (occ c (s.cbq to_close_cbs) ≡ 0)
    × (occ c (s.cbq to_send_cbs) ≡ 0)
    × (occ c (s.cbq closed_cbs) ≡ 0)

init_at :
    (n : ℕ) (cfg : Config) (c : ℕ) (s s' : Sys)
    → IsUnqueued s c
    → client_initialize (suc (suc n)) cfg c s ≡ ok s'
    → (s'.test_state c ≡ (if cfg.tc_init_delay.d_value == 0 then cl_to_open else cl_to_init))
      × IsQueued s' c
unfolding client_initialize dispatch_event cbq_add set_state test_tmr_set
init_at n cfg c s s' h r =
    ground (arith, occ-snoc c c (s.cbq to_init_cbs), occ-snoc c c (s.cbq to_open_cbs))

init-ne-fault :
    (n : ℕ) (cfg : Config) (c : ℕ) (s : Sys) (f : Fault)
    → ¬ (client_initialize (suc (suc n)) cfg c s ≡ fault f)
unfolding client_initialize dispatch_event cbq_add set_state test_tmr_set
init-ne-fault n cfg c s f = ground arith

-- A new client waits for its initial delay, or is queued to be opened when it has none; it stands
-- in the queue of that state.
client_initialize-IsQueued :
    (n : ℕ) (cfg : Config) (c : ℕ) (s : Sys)
    → IsUnqueued s c
    → (s' : Sys) × (client_initialize (suc (suc n)) cfg c s ≡ ok s')
      × (s'.test_state c ≡ (if cfg.tc_init_delay.d_value == 0 then cl_to_open else cl_to_init))
      × IsQueued s' c
client_initialize-IsQueued n cfg c s h =
    let (s', r) =
      ok_of_ne_fault (client_initialize (suc (suc n)) cfg c s) (init-ne-fault n cfg c s) in
    let (state, queued) = init_at n cfg c s s' h r in (s', r, state, queued)

-- The steps of several sessions, in the order in which they happen.
unfoldable pub run : ℕ → Config → List (ℕ × Event) → Act
run n cfg [] = skip
run n cfg ((c, e) ∷ es) = dispatch_event n cfg c e >> run n cfg es

-- Every event of the list is for a live session, and none is the machine's own.
abbrev pub AllOutside : (ℕ → Type 0) → List (ℕ × Event) → Type 0
AllOutside Live [] = Unit
AllOutside Live ((c, e) ∷ es) = Live c × (e ≢ enter_state) × AllOutside Live es

IsQueued-of_frame :
    (d : ℕ) (s t : Sys)
    → IsQueued s d
    → t.test_state d ≡ s.test_state d
    → ((p : Queue) → occ d (t.cbq p) ≡ occ d (s.cbq p))
    → IsQueued t d
IsQueued-of_frame d s t q e h = record {
  in_to_init = ground (arith, h to_init_cbs, q.in_to_init);
  in_to_open = ground (arith, h to_open_cbs, q.in_to_open);
  in_to_close = ground (arith, h to_close_cbs, q.in_to_close);
  in_to_send = ground (arith, h to_send_cbs, q.in_to_send);
  in_closed = ground (arith, h closed_cbs, q.in_closed);
}

step-IsQueued :
    (n : ℕ) (cfg : Config) (c d : ℕ) (e : Event) (s t : Sys)
    → IsQueued s c
    → IsQueued s d
    → e ≢ enter_state
    → dispatch_event (suc (suc (suc n))) cfg c e s ≡ ok t
    → IsQueued t d
step-IsQueued n cfg c d e s t qc qd ne r = elim (Bool-cases (c == d)) [
  | inl y ↦
      subst (λ x. IsQueued t x) ((==_iff c d).0 y) (dispatch_event-IsQueued n cfg c e s t qc ne r)
  | inr no_eq ↦
      let f = dispatch_event_frame (suc (suc (suc n))) cfg c d e s t (λ y. ground arith) r in
      IsQueued-of_frame d s t qd f.0 f.2
]

-- However the events of the live sessions interleave, as long as each is accepted: if every live
-- session stands in the queue of its state at the start, every one does at the end.
pub run-IsQueued :
    (n : ℕ) (cfg : Config) (Live : ℕ → Type 0) (es : List (ℕ × Event)) (s t : Sys)
    → ((d : ℕ) → Live d → IsQueued s d)
    → AllOutside Live es
    → run (suc (suc (suc n))) cfg es s ≡ ok t
    → (d : ℕ) → Live d
    → IsQueued t d
unfolding run
run-IsQueued n cfg Live [] s t q o r d l =
    subst (λ r. elim r [ ok u ↦ IsQueued u d | fault e ↦ IsQueued s d ]) r (q d l)
run-IsQueued n cfg Live ((c, e) ∷ es) s t q o r d l =
    let first =
      >>-eq-ok (dispatch_event (suc (suc (suc n))) cfg c e) (run (suc (suc (suc n))) cfg es) s r in
    run-IsQueued n cfg Live es first.0 t
      (λ x lx. step-IsQueued n cfg c x e s first.0 (q c o.0) (q x lx) o.1 first.1) o.2 first.2 d l
