-- ===== src/TestSm/Keep/Free.antt =====
-- The same for the states without a queue, and for a server that sends.
use warp.Prelude.{ℕ, suc, ◌≡◌, ◌≢◌, refl, arith, occ-snoc, occ-remove, contains_of_occ}
use warp.Prelude.Outcome.{ok}
use warp.TestSm.{
  srv_closing, srv_closed, listen, purged, cl_no_snd_win, cl_open, cl_opening, cl_closing,
  srv_no_snd_win, srv_open, srv_opening, srv_sending, Event, enter_state, closed, snd_win,
  app_send_start, tmr_to, connected, Config, Sys, to_send_cbs, to_close_cbs, closed_cbs,
}
use warp.TestSm.Queues.{
  cbq_add, cbq_rem, resched_runner, add_to_open, add_to_close, add_to_send, test_tmr_set,
  tmr_set_unless_inf, tmr_cancel_if_set, set_state, app_call,
}
use warp.TestSm.Machine.{dispatch_event}
use warp.TestSm.React.{IsQueued}

module _ (n : ℕ) (cfg : Config) (c : ℕ) (s : Sys) (q : IsQueued s c) where
  pub keep-cl_opening :
      (e : Event) (s' : Sys)
      → s.test_state c ≡ cl_opening
      → e ≢ enter_state
      → dispatch_event (suc (suc (suc n))) cfg c e s ≡ ok s'
      → IsQueued s' c
  unfolding dispatch_event cbq_add cbq_rem resched_runner add_to_open add_to_close add_to_send
      test_tmr_set tmr_set_unless_inf tmr_cancel_if_set set_state app_call
  keep-cl_opening connected s' h ne r = ground (arith, occ-snoc c c (s.cbq to_send_cbs))
  keep-cl_opening e s' h ne r = ground arith

  pub keep-cl_open :
      (e : Event) (s' : Sys)
      → s.test_state c ≡ cl_open
      → e ≢ enter_state
      → dispatch_event (suc (suc (suc n))) cfg c e s ≡ ok s'
      → IsQueued s' c
  unfolding dispatch_event cbq_add cbq_rem resched_runner add_to_open add_to_close add_to_send
      test_tmr_set tmr_set_unless_inf tmr_cancel_if_set set_state app_call
  keep-cl_open tmr_to s' h ne r = ground (arith, occ-snoc c c (s.cbq to_close_cbs))
  keep-cl_open app_send_start s' h ne r = ground (arith, occ-snoc c c (s.cbq to_send_cbs))
  keep-cl_open e s' h ne r = ground arith

  pub keep-cl_no_snd_win :
      (e : Event) (s' : Sys)
      → s.test_state c ≡ cl_no_snd_win
      → e ≢ enter_state
      → dispatch_event (suc (suc (suc n))) cfg c e s ≡ ok s'
      → IsQueued s' c
  unfolding dispatch_event cbq_add cbq_rem resched_runner add_to_open add_to_close add_to_send
      test_tmr_set tmr_set_unless_inf tmr_cancel_if_set set_state app_call
  keep-cl_no_snd_win tmr_to s' h ne r = ground (arith, occ-snoc c c (s.cbq to_close_cbs))
  keep-cl_no_snd_win snd_win s' h ne r = ground (arith, occ-snoc c c (s.cbq to_send_cbs))
  keep-cl_no_snd_win e s' h ne r = ground arith

  pub keep-cl_closing :
      (e : Event) (s' : Sys)
      → s.test_state c ≡ cl_closing
      → e ≢ enter_state
      → dispatch_event (suc (suc (suc n))) cfg c e s ≡ ok s'
      → IsQueued s' c
  unfolding dispatch_event cbq_add cbq_rem resched_runner add_to_open add_to_close add_to_send
      test_tmr_set tmr_set_unless_inf tmr_cancel_if_set set_state app_call
  keep-cl_closing closed s' h ne r = ground (arith, occ-snoc c c (s.cbq closed_cbs))
  keep-cl_closing e s' h ne r = ground arith

  pub keep-srv_opening :
      (e : Event) (s' : Sys)
      → s.test_state c ≡ srv_opening
      → e ≢ enter_state
      → dispatch_event (suc (suc (suc n))) cfg c e s ≡ ok s'
      → IsQueued s' c
  unfolding dispatch_event cbq_add cbq_rem resched_runner add_to_open add_to_close add_to_send
      test_tmr_set tmr_set_unless_inf tmr_cancel_if_set set_state app_call
  keep-srv_opening enter_state s' h ne r = absurd (ne refl)
  keep-srv_opening e s' h ne r = ground arith

  pub keep-srv_open :
      (e : Event) (s' : Sys)
      → s.test_state c ≡ srv_open
      → e ≢ enter_state
      → dispatch_event (suc (suc (suc n))) cfg c e s ≡ ok s'
      → IsQueued s' c
  unfolding dispatch_event cbq_add cbq_rem resched_runner add_to_open add_to_close add_to_send
      test_tmr_set tmr_set_unless_inf tmr_cancel_if_set set_state app_call
  keep-srv_open app_send_start s' h ne r = ground (arith, occ-snoc c c (s.cbq to_send_cbs))
  keep-srv_open e s' h ne r = ground arith

  pub keep-srv_sending :
      (e : Event) (s' : Sys)
      → s.test_state c ≡ srv_sending
      → e ≢ enter_state
      → dispatch_event (suc (suc (suc n))) cfg c e s ≡ ok s'
      → IsQueued s' c
  unfolding dispatch_event cbq_add cbq_rem resched_runner add_to_open add_to_close add_to_send
      test_tmr_set tmr_set_unless_inf tmr_cancel_if_set set_state app_call
  keep-srv_sending e s' h ne r =
      ground (arith, contains_of_occ c (s.cbq to_send_cbs), occ-remove c c (s.cbq to_send_cbs))

  pub keep-srv_no_snd_win :
      (e : Event) (s' : Sys)
      → s.test_state c ≡ srv_no_snd_win
      → e ≢ enter_state
      → dispatch_event (suc (suc (suc n))) cfg c e s ≡ ok s'
      → IsQueued s' c
  unfolding dispatch_event cbq_add cbq_rem resched_runner add_to_open add_to_close add_to_send
      test_tmr_set tmr_set_unless_inf tmr_cancel_if_set set_state app_call
  keep-srv_no_snd_win snd_win s' h ne r = ground (arith, occ-snoc c c (s.cbq to_send_cbs))
  keep-srv_no_snd_win e s' h ne r = ground arith

  pub keep-srv_closing :
      (e : Event) (s' : Sys)
      → s.test_state c ≡ srv_closing
      → e ≢ enter_state
      → dispatch_event (suc (suc (suc n))) cfg c e s ≡ ok s'
      → IsQueued s' c
  unfolding dispatch_event cbq_add cbq_rem resched_runner add_to_open add_to_close add_to_send
      test_tmr_set tmr_set_unless_inf tmr_cancel_if_set set_state app_call
  keep-srv_closing enter_state s' h ne r = absurd (ne refl)
  keep-srv_closing e s' h ne r = ground arith

  pub keep-srv_closed :
      (e : Event) (s' : Sys)
      → s.test_state c ≡ srv_closed
      → e ≢ enter_state
      → dispatch_event (suc (suc (suc n))) cfg c e s ≡ ok s'
      → IsQueued s' c
  unfolding dispatch_event cbq_add cbq_rem resched_runner add_to_open add_to_close add_to_send
      test_tmr_set tmr_set_unless_inf tmr_cancel_if_set set_state app_call
  keep-srv_closed enter_state s' h ne r = absurd (ne refl)
  keep-srv_closed e s' h ne r = ground arith

  pub keep-listen :
      (e : Event) (s' : Sys)
      → s.test_state c ≡ listen
      → e ≢ enter_state
      → dispatch_event (suc (suc (suc n))) cfg c e s ≡ ok s'
      → IsQueued s' c
  unfolding dispatch_event cbq_add cbq_rem resched_runner add_to_open add_to_close add_to_send
      test_tmr_set tmr_set_unless_inf tmr_cancel_if_set set_state app_call
  keep-listen enter_state s' h ne r = absurd (ne refl)
  keep-listen e s' h ne r = ground arith

  pub keep-purged :
      (e : Event) (s' : Sys)
      → s.test_state c ≡ purged
      → e ≢ enter_state
      → dispatch_event (suc (suc (suc n))) cfg c e s ≡ ok s'
      → IsQueued s' c
  unfolding dispatch_event cbq_add cbq_rem resched_runner add_to_open add_to_close add_to_send
      test_tmr_set tmr_set_unless_inf tmr_cancel_if_set set_state app_call
  keep-purged enter_state s' h ne r = absurd (ne refl)
  keep-purged e s' h ne r = ground arith
