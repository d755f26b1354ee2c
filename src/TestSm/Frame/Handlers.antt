-- ===== src/TestSm/Frame/Handlers.antt =====
-- Every handler concerns one session only, if the calls that it makes do.
use warp.Prelude.{ℕ, ◌≢◌, ◌==◌, Bool-cases, inl, inr, if◌then◌else◌}
use warp.Prelude.Outcome.{ok}
use warp.TestSm.{
  State, cl_to_open, Event, enter_state, tmr_to, app_send_start, Config, Sys, to_init_cbs,
  to_open_cbs,
}
use warp.TestSm.Queues.{Act, delay_us}
use warp.TestSm.Client.{
  enter, call_conn_up, client_to_init, client_to_open, client_opening, client_open, client_sending,
  client_no_snd_win, client_to_close, client_closing, client_closed,
}
use warp.TestSm.Server.{
  server_opening, server_open, server_sending, server_no_snd_win, server_closing, server_closed,
  listening, after_purge,
}
use warp.TestSm.Frame.Rules.{
  SameFor-refl, Frames, kept, IsLocal, local, Frames-at, >>-IsLocal, call-IsLocal, add-IsLocal,
  set-IsLocal, state-IsLocal, local_parts,
}

module _ (cfg : Config) (dispatch : ℕ → Event → Act) (c d : ℕ) (ne : c ≢ d)
    (ih : (e : Event) → IsLocal d (dispatch c e)) where
  enter-IsLocal : (st : State) → IsLocal d (enter cfg dispatch c st)
  unfolding enter
  enter-IsLocal st = >>-IsLocal (state-IsLocal c d ne st) (ih enter_state)

  up-Frames :
      (s : Sys) → Frames d s (if cfg.conn_up_sends c then dispatch c app_send_start s else ok s)
  up-Frames s = elim (Bool-cases (cfg.conn_up_sends c)) [
    | inl e ↦ rw e (Frames-at (ih app_send_start) s)
    | inr e ↦ rw e (kept (SameFor-refl d s))
  ]

  up-IsLocal : IsLocal d (call_conn_up cfg dispatch c)
  unfolding call_conn_up
  up-IsLocal = >>-IsLocal (call-IsLocal _) (local up-Frames)

  init-Frames : (s : Sys) → Frames d s (client_to_init cfg dispatch c enter_state s)
  unfolding client_to_init
  init-Frames s = elim (Bool-cases (cfg.tc_init_delay.d_value == 0)) [
    | inl e ↦
        rw e (Frames-at (>>-IsLocal (add-IsLocal c d ne to_open_cbs) (enter-IsLocal cl_to_open)) s)
    | inr e ↦ rw e (
        Frames-at
          (>>-IsLocal (add-IsLocal c d ne to_init_cbs)
            (set-IsLocal c d ne (delay_us cfg.tc_init_delay)))
          s)
  ]

  pub client_to_init-IsLocal : (e : Event) → IsLocal d (client_to_init cfg dispatch c e)
  unfolding client_to_init
  client_to_init-IsLocal enter_state = local init-Frames
  client_to_init-IsLocal _ = search (local_parts, enter-IsLocal, up-IsLocal)

  pub client_to_open-IsLocal : (e : Event) → IsLocal d (client_to_open cfg dispatch c e)
  unfolding client_to_open
  client_to_open-IsLocal tmr_to = search (local_parts, enter-IsLocal, up-IsLocal)
  client_to_open-IsLocal _ = search (local_parts, enter-IsLocal, up-IsLocal)

  pub client_opening-IsLocal : (e : Event) → IsLocal d (client_opening cfg dispatch c e)
  unfolding client_opening
  client_opening-IsLocal tmr_to = search (local_parts, enter-IsLocal, up-IsLocal)
  client_opening-IsLocal _ = search (local_parts, enter-IsLocal, up-IsLocal)

  pub client_open-IsLocal : (e : Event) → IsLocal d (client_open cfg dispatch c e)
  unfolding client_open
  client_open-IsLocal tmr_to = search (local_parts, enter-IsLocal, up-IsLocal)
  client_open-IsLocal _ = search (local_parts, enter-IsLocal, up-IsLocal)

  pub client_sending-IsLocal : (e : Event) → IsLocal d (client_sending cfg dispatch c e)
  unfolding client_sending
  client_sending-IsLocal tmr_to = search (local_parts, enter-IsLocal, up-IsLocal)
  client_sending-IsLocal _ = search (local_parts, enter-IsLocal, up-IsLocal)

  pub client_no_snd_win-IsLocal : (e : Event) → IsLocal d (client_no_snd_win cfg dispatch c e)
  unfolding client_no_snd_win
  client_no_snd_win-IsLocal tmr_to = search (local_parts, enter-IsLocal, up-IsLocal)
  client_no_snd_win-IsLocal _ = search (local_parts, enter-IsLocal, up-IsLocal)

  pub client_to_close-IsLocal : (e : Event) → IsLocal d (client_to_close cfg dispatch c e)
  unfolding client_to_close
  client_to_close-IsLocal tmr_to = search (local_parts, enter-IsLocal, up-IsLocal)
  client_to_close-IsLocal _ = search (local_parts, enter-IsLocal, up-IsLocal)

  pub client_closing-IsLocal : (e : Event) → IsLocal d (client_closing cfg dispatch c e)
  unfolding client_closing
  client_closing-IsLocal tmr_to = search (local_parts, enter-IsLocal, up-IsLocal)
  client_closing-IsLocal _ = search (local_parts, enter-IsLocal, up-IsLocal)

  pub client_closed-IsLocal : (e : Event) → IsLocal d (client_closed cfg dispatch c e)
  unfolding client_closed
  client_closed-IsLocal tmr_to = search (local_parts, enter-IsLocal, up-IsLocal)
  client_closed-IsLocal _ = search (local_parts, enter-IsLocal, up-IsLocal)

  pub server_opening-IsLocal : (e : Event) → IsLocal d (server_opening cfg dispatch c e)
  unfolding server_opening
  server_opening-IsLocal tmr_to = search (local_parts, enter-IsLocal, up-IsLocal)
  server_opening-IsLocal _ = search (local_parts, enter-IsLocal, up-IsLocal)

  pub server_open-IsLocal : (e : Event) → IsLocal d (server_open cfg dispatch c e)
  unfolding server_open
  server_open-IsLocal tmr_to = search (local_parts, enter-IsLocal, up-IsLocal)
  server_open-IsLocal _ = search (local_parts, enter-IsLocal, up-IsLocal)

  pub server_sending-IsLocal : (e : Event) → IsLocal d (server_sending cfg dispatch c e)
  unfolding server_sending
  server_sending-IsLocal tmr_to = search (local_parts, enter-IsLocal, up-IsLocal)
  server_sending-IsLocal _ = search (local_parts, enter-IsLocal, up-IsLocal)

  pub server_no_snd_win-IsLocal : (e : Event) → IsLocal d (server_no_snd_win cfg dispatch c e)
  unfolding server_no_snd_win
  server_no_snd_win-IsLocal tmr_to = search (local_parts, enter-IsLocal, up-IsLocal)
  server_no_snd_win-IsLocal _ = search (local_parts, enter-IsLocal, up-IsLocal)

  pub server_closing-IsLocal : (e : Event) → IsLocal d (server_closing cfg dispatch c e)
  unfolding server_closing
  server_closing-IsLocal tmr_to = search (local_parts, enter-IsLocal, up-IsLocal)
  server_closing-IsLocal _ = search (local_parts, enter-IsLocal, up-IsLocal)

  pub server_closed-IsLocal : (e : Event) → IsLocal d (server_closed cfg dispatch c e)
  unfolding server_closed
  server_closed-IsLocal tmr_to = search (local_parts, enter-IsLocal, up-IsLocal)
  server_closed-IsLocal _ = search (local_parts, enter-IsLocal, up-IsLocal)

  pub listening-IsLocal : (e : Event) → IsLocal d (listening cfg dispatch c e)
  unfolding listening
  listening-IsLocal tmr_to = search (local_parts, enter-IsLocal, up-IsLocal)
  listening-IsLocal _ = search (local_parts, enter-IsLocal, up-IsLocal)

  pub after_purge-IsLocal : (e : Event) → IsLocal d (after_purge cfg dispatch c e)
  unfolding after_purge
  after_purge-IsLocal tmr_to = search (local_parts, enter-IsLocal, up-IsLocal)
  after_purge-IsLocal _ = search (local_parts, enter-IsLocal, up-IsLocal)
