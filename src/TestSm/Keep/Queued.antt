-- ===== src/TestSm/Keep/Queued.antt =====
-- The client states with a queue: their events leave the session in the queue of its new state.
use warp.Prelude.{
  ℕ, suc, ◌≡◌, ◌≢◌, refl, [], ◌∷◌, ◌++◌, arith, occ-snoc, occ-remove, contains_of_occ, not_contains,
  if◌then◌else◌,
}
use warp.Prelude.Outcome.{ok}
use warp.Timer.{timer_cancel}
use warp.TestSm.{
  cl_to_init, cl_to_open, cl_sending, cl_to_close, cl_closed, Event, enter_state, tmr_to, closing,
  connected, purge, Config, Sys, to_init_cbs, to_open_cbs, to_send_cbs, to_close_cbs, closed_cbs,
  conn_down,
}
use warp.TestSm.Queues.{
  set_queue, cbq_add, cbq_rem, resched_runner, add_to_open, add_to_close, add_to_send, test_tmr_set,
  tmr_set_unless_inf, tmr_cancel_if_set, set_state, app_call,
}
use warp.TestSm.Machine.{dispatch_event}
use warp.TestSm.React.{IsQueued, cbq_rem_held}

module _ (n : ℕ) (cfg : Config) (c : ℕ) (s : Sys) (q : IsQueued s c) where
  keep-to_close_closing :
      (s' : Sys)
      → s.test_state c ≡ cl_to_close
      → dispatch_event (suc (suc (suc n))) cfg c closing s ≡ ok s'
      → IsQueued s' c
  unfolding dispatch_event app_call set_state set_queue
  keep-to_close_closing s' h r =
      let t : Sys = record s { app_calls = s.app_calls ++ conn_down c ∷ [] } in
      ground
        (arith, cbq_rem_held to_close_cbs c t (ground arith), occ-remove c c (s.cbq to_close_cbs))

  keep-connected :
      (s' : Sys)
      → s.test_state c ≡ cl_to_open
      → dispatch_event (suc (suc (suc n))) cfg c connected s ≡ ok s'
      → IsQueued s' c
  unfolding dispatch_event cbq_add resched_runner add_to_send tmr_set_unless_inf test_tmr_set
      set_state app_call set_queue
  keep-connected s' h r = ground (
    arith,
    cbq_rem_held to_open_cbs c s (ground arith),
    occ-remove c c (s.cbq to_open_cbs),
    occ-snoc c c (s.cbq to_send_cbs),
  )

  keep-init_over :
      (s' : Sys)
      → s.test_state c ≡ cl_to_init
      → dispatch_event (suc (suc (suc n))) cfg c tmr_to s ≡ ok s'
      → IsQueued s' c
  unfolding dispatch_event cbq_add resched_runner add_to_open set_state set_queue
  keep-init_over s' h r = ground (
    arith,
    cbq_rem_held to_init_cbs c s (ground arith),
    occ-remove c c (s.cbq to_init_cbs),
    occ-snoc c c (s.cbq to_open_cbs),
  )

  keep-init_purge :
      (s' : Sys)
      → s.test_state c ≡ cl_to_init
      → dispatch_event (suc (suc (suc n))) cfg c purge s ≡ ok s'
      → IsQueued s' c
  unfolding dispatch_event tmr_cancel_if_set set_state set_queue
  keep-init_purge s' h r =
      ground
        (arith, cbq_rem_held to_init_cbs c s (ground arith), occ-remove c c (s.cbq to_init_cbs))

  keep-sending_over :
      (s' : Sys)
      → s.test_state c ≡ cl_sending
      → dispatch_event (suc (suc (suc n))) cfg c tmr_to s ≡ ok s'
      → IsQueued s' c
  unfolding dispatch_event cbq_add resched_runner add_to_close set_state set_queue
  keep-sending_over s' h r = ground (
    arith,
    cbq_rem_held to_send_cbs c s (ground arith),
    occ-remove c c (s.cbq to_send_cbs),
    occ-snoc c c (s.cbq to_close_cbs),
  )

  keep-closed_over :
      (s' : Sys)
      → s.test_state c ≡ cl_closed
      → dispatch_event (suc (suc (suc n))) cfg c tmr_to s ≡ ok s'
      → IsQueued s' c
  unfolding dispatch_event cbq_add resched_runner add_to_open set_state set_queue
  keep-closed_over s' h r = ground (
    arith,
    cbq_rem_held closed_cbs c s (ground arith),
    occ-remove c c (s.cbq closed_cbs),
    occ-snoc c c (s.cbq to_open_cbs),
  )

  keep-sending_closing :
      (s' : Sys)
      → s.test_state c ≡ cl_sending
      → dispatch_event (suc (suc (suc n))) cfg c closing s ≡ ok s'
      → IsQueued s' c
  unfolding dispatch_event tmr_cancel_if_set app_call set_state set_queue
  keep-sending_closing s' h r =
      let t : Sys = record s {
        timers = if s.timers.on_list c then (timer_cancel s.timers c).0 else s.timers;
      } in
      ground
        (arith, cbq_rem_held to_send_cbs c t (ground arith), occ-remove c c (s.cbq to_send_cbs))

  pub keep-cl_to_init :
      (e : Event) (s' : Sys)
      → s.test_state c ≡ cl_to_init
      → e ≢ enter_state
      → dispatch_event (suc (suc (suc n))) cfg c e s ≡ ok s'
      → IsQueued s' c
  unfolding dispatch_event cbq_add cbq_rem resched_runner add_to_open add_to_close add_to_send
      test_tmr_set tmr_set_unless_inf tmr_cancel_if_set set_state app_call
  keep-cl_to_init tmr_to s' h ne r = keep-init_over s' h r
  keep-cl_to_init enter_state s' h ne r = absurd (ne refl)
  keep-cl_to_init purge s' h ne r = keep-init_purge s' h r
  keep-cl_to_init e s' h ne r = ground arith

  pub keep-cl_to_open :
      (e : Event) (s' : Sys)
      → s.test_state c ≡ cl_to_open
      → e ≢ enter_state
      → dispatch_event (suc (suc (suc n))) cfg c e s ≡ ok s'
      → IsQueued s' c
  unfolding dispatch_event cbq_add cbq_rem resched_runner add_to_open add_to_close add_to_send
      test_tmr_set tmr_set_unless_inf tmr_cancel_if_set set_state app_call
  keep-cl_to_open connected s' h ne r = keep-connected s' h r
  keep-cl_to_open e s' h ne r =
      ground (arith, contains_of_occ c (s.cbq to_open_cbs), occ-remove c c (s.cbq to_open_cbs))

  pub keep-cl_sending :
      (e : Event) (s' : Sys)
      → s.test_state c ≡ cl_sending
      → e ≢ enter_state
      → dispatch_event (suc (suc (suc n))) cfg c e s ≡ ok s'
      → IsQueued s' c
  unfolding dispatch_event cbq_add cbq_rem resched_runner add_to_open add_to_close add_to_send
      test_tmr_set tmr_set_unless_inf tmr_cancel_if_set set_state app_call
  keep-cl_sending tmr_to s' h ne r = keep-sending_over s' h r
  keep-cl_sending closing s' h ne r = keep-sending_closing s' h r
  keep-cl_sending e s' h ne r =
      ground (arith, contains_of_occ c (s.cbq to_send_cbs), occ-remove c c (s.cbq to_send_cbs))

  pub keep-cl_to_close :
      (e : Event) (s' : Sys)
      → s.test_state c ≡ cl_to_close
      → e ≢ enter_state
      → dispatch_event (suc (suc (suc n))) cfg c e s ≡ ok s'
      → IsQueued s' c
  unfolding dispatch_event cbq_add cbq_rem resched_runner add_to_open add_to_close add_to_send
      test_tmr_set tmr_set_unless_inf tmr_cancel_if_set set_state app_call
  keep-cl_to_close closing s' h ne r = keep-to_close_closing s' h r
  keep-cl_to_close purge s' h ne r = ground (arith, not_contains c (s.cbq closed_cbs))
  keep-cl_to_close e s' h ne r = ground arith

  pub keep-cl_closed :
      (e : Event) (s' : Sys)
      → s.test_state c ≡ cl_closed
      → e ≢ enter_state
      → dispatch_event (suc (suc (suc n))) cfg c e s ≡ ok s'
      → IsQueued s' c
  unfolding dispatch_event cbq_add cbq_rem resched_runner add_to_open add_to_close add_to_send
      test_tmr_set tmr_set_unless_inf tmr_cancel_if_set set_state app_call
  keep-cl_closed tmr_to s' h ne r = keep-closed_over s' h r
  keep-cl_closed e s' h ne r =
      ground (arith, contains_of_occ c (s.cbq closed_cbs), occ-remove c c (s.cbq closed_cbs))
