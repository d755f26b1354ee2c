-- ===== src/Msg/Tests.antt =====
-- Runs of the message system, and the witnesses of its theorems: core 2 has rings for three messages.
use warp.Prelude.{
  ℕ, true, false, none, some, [], ◌∷◌, ◌≡◌, refl, ◌==◌, ltb, if◌then◌else◌, length, occ, arith,
}
use warp.Prelude.Outcome.{ok}
use warp.Msg.{
  Env, Bus, Msg, success, eagain, init, dequeued, set_msg, set_state, set_queue, start_send,
  msg_do_send, send_at_local, msg_send_local, send_at_remote, msg_send_remote, msg_send, dest_index,
  end_process, keep_msg, answered, stuck, reposted, handled, call_handler, msg_process, polled,
  msg_poll_queue,
}
use warp.Msg.Steps.{
  Sys, IsOwned, IsSound, Steps, awaits, polls, ends_wait, step, none_left, wait_for, stop_waiting,
}
use warp.Msg.Run.{Steps-IsSound}
use warp.Msg.Handlers.{poll-dequeued}

-- Message 1 of the routes is answered, message 2 is to be posted again.
abbrev env : Env
env = record {
  has_room = λ xs. ltb (length xs) 3;
  lcore_index = λ n. some n;
  has_queue = λ n. true;
  handler_of = λ i j. if i == 3 then some (λ v. if j == 2 then eagain else success) else none;
}

abbrev blank : Msg
blank = record { msg_id = 769; to_free = true; local = false; msg_dest_lcore = 2; msg_state = init }

-- Message 5 is to be posted again.
abbrev bus : Bus
bus = record {
  msgs = λ m. if m == 5 then record blank { msg_id = 770 } else blank;
  queues = λ q. [];
  freed = λ m. 0;
  stats = record { ms_snd = 0; ms_err = 0; ms_free = 0 };
}

abbrev idle : Sys
idle = record { bus = bus; waiting = []; captured = λ m. false }

idle-IsSound : IsSound idle
unfolding occ
idle-IsSound = record {
  once = λ q m. omega arith;
  one_queue = λ q r m h g. absurd (omega arith);
  alive = λ q m h. refl;
  marked = λ q m h. absurd (omega arith);
  kept = λ m h. refl;
  left = λ m h. absurd (omega arith);
  waits_once = λ m. omega arith;
  freed_once = λ m. omega arith;
}

idle-IsOwned : (m : ℕ) → IsOwned idle m
unfolding occ
idle-IsOwned m = record { unqueued = λ q. refl; there = refl; unawaited = refl }

-- A sender waits for message 1.
abbrev posted : Bus
posted = (msg_send env 1 false false bus).0

abbrev busy : Sys
busy = wait_for 1 true (record idle { bus = posted })

sending : Steps env idle busy
unfolding msg_send msg_send_remote send_at_remote dest_index msg_do_send start_send set_queue
    set_msg
sending = step (awaits 1 false false posted true (idle-IsOwned 1) refl) none_left

busy-IsSound : IsSound busy
busy-IsSound = Steps-IsSound sending idle-IsSound

-- The ring of core 2 for the others is 4.
processed :
    (msg_poll_queue env 4 posted)
    ≡ ok (answered (set_state 1 dequeued (set_queue 4 [] posted)) success)
unfolding msg_send msg_send_remote send_at_remote dest_index msg_do_send start_send set_queue
    set_msg set_state msg_poll_queue polled msg_process call_handler handled end_process
processed = refl

-- A message that is posted again goes to the ring of its own core, and is no longer freed.
again :
    (msg_poll_queue env 4 (msg_send env 5 false true bus).0)
    ≡ ok (
        answered
          (msg_do_send env 5 5 false true
            (keep_msg 5 (set_queue 4 [] (msg_send env 5 false true bus).0))).0
          success)
unfolding msg_send msg_send_remote send_at_remote dest_index msg_do_send start_send set_queue
    set_msg set_state msg_poll_queue polled msg_process call_handler handled end_process keep_msg
    reposted msg_send_local send_at_local
again = refl

-- With a full local ring the core spins in the repost, though nobody else empties that ring.
full :
    (msg_poll_queue env 4 (set_queue 5 (6 ∷ 7 ∷ 8 ∷ []) (msg_send env 5 false true bus).0))
    ≡ ok (
        stuck (
          start_send 5 true (
            keep_msg 5
              (set_queue 4 [] (set_queue 5 (6 ∷ 7 ∷ 8 ∷ []) (msg_send env 5 false true bus).0)))))
unfolding msg_send msg_send_remote send_at_remote dest_index msg_do_send start_send set_queue
    set_msg set_state msg_poll_queue polled msg_process call_handler handled end_process keep_msg
    reposted msg_send_local send_at_local
full = refl

round :
    Steps env idle
      (stop_waiting 1 (record busy { bus = set_state 1 dequeued (set_queue 4 [] posted) }))
unfolding msg_send msg_send_remote send_at_remote dest_index msg_do_send start_send set_queue
    set_msg set_state wait_for occ
round = step (awaits 1 false false posted true (idle-IsOwned 1) refl) (
    step (polls 4 (set_state 1 dequeued (set_queue 4 [] posted)) success processed)
      (step (ends_wait 1 (omega arith) refl) none_left))

Steps-IsSound_example :
    IsSound (stop_waiting 1 (record busy { bus = set_state 1 dequeued (set_queue 4 [] posted) }))
Steps-IsSound_example = Steps-IsSound round idle-IsSound

poll-dequeued_example :
    (b : Bus) × (msg_poll_queue env 4 busy.bus ≡ ok (answered b success))
    × ((b.msgs 1).msg_state ≡ dequeued)
    × (b.queues 4 ≡ [])
unfolding msg_send msg_send_remote send_at_remote dest_index msg_do_send start_send set_queue
    set_msg wait_for occ
poll-dequeued_example =
    poll-dequeued env busy 4 1 [] (λ v. success) busy-IsSound (omega arith) refl refl refl (λ e. cc)
