-- ===== src/TestSm/Frame.antt =====
-- An event of one session leaves every other session alone.
mod Rules
mod Handlers
use warp.Prelude.{
  ℕ, zero, suc, ◌+◌, ◌≡◌, ◌≢◌, refl, ◌∙◌, Bool, true, false, arith, occ, contains, remove, occ-snoc,
  occ-remove, ◌==◌, Bool-cases, ◌||◌, inl, inr, ap, if◌then◌else◌, map, List, [], ◌∷◌, ◌++◌,
}
use warp.Prelude.Outcome.{Outcome, ok, fault, Fault, ◌>>◌}
use warp.Timer.{Timers, timer_set, timer_cancel}
use warp.TestSm.{
  State, cl_to_init, cl_to_open, cl_opening, Event, enter_state, tmr_to, app_send_start, Config,
  Sys, Delay, Queue, to_open_cbs, to_close_cbs, to_send_cbs, Run, trmt_open, trmt_close, trmt_send,
  AppCall,
}
use warp.TestSm.Queues.{
  Act, skip, set_queue, cbq_add, cbq_rem, resched_runner, add_to_open, add_to_close, add_to_send,
  test_tmr_set, tmr_set_unless_inf, tmr_cancel_if_set, set_state, app_call, delay_us,
}
use warp.TestSm.Client.{
  enter, call_conn_up, refuse, client_to_init, client_to_open, client_opening, client_open,
  client_sending, client_no_snd_win, client_to_close, client_closing, client_closed,
}
use warp.TestSm.Server.{
  server_opening, server_open, server_sending, server_no_snd_win, server_closing, server_closed,
  listening, after_purge,
}
use warp.TestSm.Machine.{handler, dispatch_event}
use mathlib.Core.Path.{subst}
use Rules.{SameFor, Frames, kept, stopped, IsLocal, local, Frames-at}
use Handlers.{
  client_to_init-IsLocal, client_to_open-IsLocal, client_opening-IsLocal, client_open-IsLocal,
  client_sending-IsLocal, client_no_snd_win-IsLocal, client_to_close-IsLocal,
  client_closing-IsLocal, client_closed-IsLocal, server_opening-IsLocal, server_open-IsLocal,
  server_sending-IsLocal, server_no_snd_win-IsLocal, server_closing-IsLocal, server_closed-IsLocal,
  listening-IsLocal, after_purge-IsLocal,
}
use warp.TestSm.{
  cl_open, cl_sending, cl_no_snd_win, cl_to_close, cl_closing, cl_closed, srv_opening, srv_open,
  srv_sending, srv_no_snd_win, srv_closing, srv_closed, listen, purged,
}

handler-IsLocal :
    (cfg : Config) (dispatch : ℕ → Event → Act) (c d : ℕ) (ne : c ≢ d)
    (ih : (e : Event) → IsLocal d (dispatch c e)) (st : State) (e : Event)
    → IsLocal d (handler cfg dispatch st c e)
unfolding handler
handler-IsLocal cfg f c d ne ih cl_to_init e = client_to_init-IsLocal cfg f c d ne ih e
handler-IsLocal cfg f c d ne ih cl_to_open e = client_to_open-IsLocal cfg f c d ne ih e
handler-IsLocal cfg f c d ne ih cl_opening e = client_opening-IsLocal cfg f c d ne ih e
handler-IsLocal cfg f c d ne ih cl_open e = client_open-IsLocal cfg f c d ne ih e
handler-IsLocal cfg f c d ne ih cl_sending e = client_sending-IsLocal cfg f c d ne ih e
handler-IsLocal cfg f c d ne ih cl_no_snd_win e = client_no_snd_win-IsLocal cfg f c d ne ih e
handler-IsLocal cfg f c d ne ih cl_to_close e = client_to_close-IsLocal cfg f c d ne ih e
handler-IsLocal cfg f c d ne ih cl_closing e = client_closing-IsLocal cfg f c d ne ih e
handler-IsLocal cfg f c d ne ih cl_closed e = client_closed-IsLocal cfg f c d ne ih e
handler-IsLocal cfg f c d ne ih srv_opening e = server_opening-IsLocal cfg f c d ne ih e
handler-IsLocal cfg f c d ne ih srv_open e = server_open-IsLocal cfg f c d ne ih e
handler-IsLocal cfg f c d ne ih srv_sending e = server_sending-IsLocal cfg f c d ne ih e
handler-IsLocal cfg f c d ne ih srv_no_snd_win e = server_no_snd_win-IsLocal cfg f c d ne ih e
handler-IsLocal cfg f c d ne ih srv_closing e = server_closing-IsLocal cfg f c d ne ih e
handler-IsLocal cfg f c d ne ih srv_closed e = server_closed-IsLocal cfg f c d ne ih e
handler-IsLocal cfg f c d ne ih listen e = listening-IsLocal cfg f c d ne ih e
handler-IsLocal cfg f c d ne ih purged e = after_purge-IsLocal cfg f c d ne ih e

dispatch-IsLocal :
    (n : ℕ) (cfg : Config) (c d : ℕ) (e : Event) → c ≢ d → IsLocal d (dispatch_event n cfg c e)
unfolding dispatch_event
dispatch-IsLocal zero cfg c d e ne = local (λ s. stopped)
dispatch-IsLocal (suc n) cfg c d e ne = local (λ s.
    Frames-at
      (handler-IsLocal cfg (dispatch_event n cfg) c d ne (λ f. dispatch-IsLocal n cfg c d f ne)
        (s.test_state c) e)
      s)

abbrev SameAfter : ℕ → Sys → Outcome Sys → Type 0
SameAfter d s (ok t) = SameFor d s t
SameAfter d s (fault f) = Unit

SameAfter-of_Frames : {d : ℕ} {s : Sys} {r : Outcome Sys} → Frames d s r → SameAfter d s r
SameAfter-of_Frames (kept h) = h
SameAfter-of_Frames stopped = tt

-- Whatever its handler does on an event, at any depth of calls, one session leaves the state, the
-- timer flag and the queue entries of every other session as they were.
pub dispatch_event_frame :
    (n : ℕ) (cfg : Config) (c d : ℕ) (e : Event) (s t : Sys)
    → c ≢ d
    → dispatch_event n cfg c e s ≡ ok t
    → (t.test_state d ≡ s.test_state d)
      × (t.timers.on_list d ≡ s.timers.on_list d)
      × ((p : Queue) → occ d (t.cbq p) ≡ occ d (s.cbq p))
dispatch_event_frame n cfg c d e s t ne r =
    let framed = SameAfter-of_Frames (Frames-at (dispatch-IsLocal n cfg c d e ne) s) in
    let h = subst (λ x. SameAfter d s x) r framed in (h.same_state, h.same_timer, h.same_queues)
