-- ===== src/Msg/Handlers.antt =====
-- The handlers of messages: msg_register_handler, and what a poll does for a message (src/tpg_msg.c).
use warp.Prelude.{
  ℕ, Bool, true, false, Option, none, some, List, [], ◌∷◌, ◌<◌, ◌≡◌, ◌≢◌, refl, ap, ◌∙◌, ◌&&◌, ◌==◌,
  leb, if◌then◌else◌, occ, arith,
}
use warp.Prelude.Outcome.{Outcome, ok, if_true, if_false}
use warp.Msg.{
  Env, Bus, Msg, Code, success, eagain, einval, enoent, eexist, enobufs, eaddrnotavail, other,
  queued, dequeued, is_queued, set_msg, set_state, set_queue, end_process, Processed, answered,
  handled, call_handler, msg_process, polled, msg_poll_queue, module_max, max_msgids, msgid2module,
  msgid2id,
}
use warp.Msg.Steps.{Sys, IsSound}
use warp.Msg.Sound.{was_there}

-- `msg_register_handler` on `msg_handler_map`, by module and id.
unfoldable pub put_handler : {H : Type 0} → ℕ → ℕ → H → (ℕ → ℕ → Option H) → ℕ → ℕ → Option H
put_handler owner id h map i j = if (owner == i) && (id == j) then some h else map i j

unfoldable pub register_at :
    {H : Type 0} → ℕ → ℕ → H → (ℕ → ℕ → Option H) → Option H → (ℕ → ℕ → Option H) × Code
register_at owner id h map (some g) = (map, eexist)
register_at owner id h map none = (put_handler owner id h map, success)

unfoldable pub msg_register_handler :
    {H : Type 0} → ℕ → H → (ℕ → ℕ → Option H) → (ℕ → ℕ → Option H) × Code
msg_register_handler msgid h map =
    let owner = msgid2module msgid in
    let id = msgid2id msgid in
    if leb module_max owner
    then (map, einval)
    else if leb max_msgids id
    then (map, einval)
    else register_at owner id h map (map owner id)

id_in_range : (msgid : ℕ) → leb max_msgids (msgid2id msgid) ≡ false
id_in_range msgid = ground arith

here : (a b : ℕ) → ((a == a) && (b == b)) ≡ true
here a b = ground arith

-- A handler is registered once for a message: the first one stays, and the second is refused.
register-again :
    {H : Type 0} (msgid : ℕ) (g h : H) (map : ℕ → ℕ → Option H)
    → leb module_max (msgid2module msgid) ≡ false
    → map (msgid2module msgid) (msgid2id msgid) ≡ none
    → (once : ℕ → ℕ → Option H) × (msg_register_handler msgid g map ≡ (once, success))
      × (once (msgid2module msgid) (msgid2id msgid) ≡ some g)
      × (msg_register_handler msgid h once ≡ (once, eexist))
unfolding msg_register_handler register_at put_handler
register-again msgid g h map in_range free =
    let owner = msgid2module msgid in
    let id = msgid2id msgid in
    let once = put_handler owner id g map in
    let found : once owner id ≡ some g = if_true _ _ _ (here owner id) in
    (
      once,
      if_false _ _ _ in_range
          ∙ if_false _ _ _ (id_in_range msgid)
          ∙ ap (register_at owner id g map) free,
      found,
      if_false _ _ _ in_range
          ∙ if_false _ _ _ (id_in_range msgid)
          ∙ ap (register_at owner id h once) found,
    )

-- The poll ended without the assert.
unfoldable pub Ends : Outcome Processed → Type 0
Ends o = (p : Processed) × (o ≡ ok p)

either-Ends : (b : Bool) (x y : Outcome Processed) → Ends x → Ends y → Ends (if b then x else y)
either-Ends true x y h g = h
either-Ends false x y h g = g

call-Ends :
    (env : Env) (m : ℕ) (b : Bus) (o : Option (Msg → Code))
    → (b.msgs m).msg_state ≡ queued
    → Ends (call_handler env m b o)
unfolding call_handler Ends
call-Ends env m b none h = (_, refl)
call-Ends env m b (some f) h = (_, if_true _ _ _ (ap is_queued h))

process-Ends :
    (env : Env) (m : ℕ) (b : Bus) → (b.msgs m).msg_state ≡ queued → Ends (msg_process env m b)
unfolding msg_process Ends
process-Ends env m b h =
    let id = (b.msgs m).msg_id in
    either-Ends (leb module_max (msgid2module id)) _ _ (_, refl)
      (either-Ends (leb max_msgids (msgid2id id)) _ _ (_, refl)
        (call-Ends env m b (env.handler_of (msgid2module id) (msgid2id id)) h))

polled-Ends :
    (env : Env) (s : Sys) (q : ℕ) (ms : List ℕ)
    → IsSound s
    → s.bus.queues q ≡ ms
    → Ends (polled env q ms s.bus)
unfolding polled Ends set_queue
polled-Ends env s q [] i h = (_, refl)
polled-Ends env s q (m ∷ ms) i h =
    process-Ends env m (set_queue q ms s.bus) (i.marked q m (was_there s i q m ms h))

-- A poll of a sound system never meets the failed assert.
poll-Ends : (env : Env) (s : Sys) (q : ℕ) → IsSound s → Ends (msg_poll_queue env q s.bus)
unfolding msg_poll_queue
poll-Ends env s q i = polled-Ends env s q (s.bus.queues q) i refl

same : (n : ℕ) → (n == n) ≡ true
same n = ground arith

answered_msg :
    (env : Env) (m : ℕ) (b : Bus) (c : Code)
    → (b.msgs m).to_free ≡ false
    → c ≢ eagain
    → handled env m c b ≡ answered (set_state m dequeued b) c
unfolding handled end_process
answered_msg env m b eagain e h = absurd (h refl)
answered_msg env m b success e h = rw e refl
answered_msg env m b einval e h = rw e refl
answered_msg env m b enoent e h = rw e refl
answered_msg env m b eexist e h = rw e refl
answered_msg env m b enobufs e h = rw e refl
answered_msg env m b eaddrnotavail e h = rw e refl
answered_msg env m b (other n) e h = rw e refl

-- The oldest message of a ring, which its sender waits for, is marked as processed by the next poll.
pub poll-dequeued :
    (env : Env) (s : Sys) (q m : ℕ) (ms : List ℕ) (f : Msg → Code)
    → IsSound s
    → 0 < occ m s.waiting
    → s.bus.queues q ≡ m ∷ ms
    → leb module_max (msgid2module (s.bus.msgs m).msg_id) ≡ false
    → env.handler_of (msgid2module (s.bus.msgs m).msg_id) (msgid2id (s.bus.msgs m).msg_id) ≡ some f
    → f (s.bus.msgs m) ≢ eagain
    → (b : Bus) × (msg_poll_queue env q s.bus ≡ ok (answered b (f (s.bus.msgs m))))
      × ((b.msgs m).msg_state ≡ dequeued)
      × (b.queues q ≡ ms)
unfolding msg_poll_queue polled msg_process call_handler set_queue set_state set_msg
poll-dequeued env s q m ms f i w h in_range known answers =
    let b = set_queue q ms s.bus in
    let v = s.bus.msgs m in
    let id = v.msg_id in
    let is_q = ap is_queued (i.marked q m (was_there s i q m ms h)) in
    (
      set_state m dequeued b,
      ap (λ (xs : List ℕ). polled env q xs s.bus) h
          ∙ if_false _ _ _ in_range
          ∙ if_false _ _ _ (id_in_range id)
          ∙ ap (call_handler env m b) known
          ∙ if_true _ _ _ is_q
          ∙ ap ok (answered_msg env m b (f v) (i.left m w) answers),
      ap (λ (x : Msg). x.msg_state) (if_true (m == m) _ _ (same m)),
      if_true (q == q) ms (s.bus.queues q) (same q),
    )
