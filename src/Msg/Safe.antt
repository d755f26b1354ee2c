-- ===== src/Msg/Safe.antt =====
-- The steps of Msg/Steps keep the messages sound: the calls of src/tpg_msg.c one by one.
use warp.Prelude.{
  ℕ, Bool, true, false, Option, none, some, ◌<◌, ◌≡◌, refl, sym, ap, ◌∙◌, ◌==◌, leb, if◌then◌else◌,
  occ, arith,
}
use warp.Prelude.Outcome.{Outcome, ok, fault}
use warp.Msg.{
  Env, Bus, Msg, Code, success, eagain, einval, enoent, eexist, enobufs, eaddrnotavail, other, Sent,
  is_queued, done, waits, spins, set_msg, set_state, set_queue, msg_free, start_send, msg_do_send,
  msg_send_local, msg_send_remote, msg_send, dest_index, end_process, keep_msg, Processed, answered,
  stuck, reposted, handled, call_handler, send_at_local, send_at_remote, msg_process, local_queue,
  remote_queue, module_max, max_msgids, msgid2module, msgid2id,
}
use warp.Msg.Steps.{Sys, IsSound}
use warp.Msg.Sound.{freed_bus, put-IsSound, freed-IsSound, set-IsSound}

-- A send that came to an end left the messages sound, and a message that is awaited is not freed by its
-- receiver.
unfoldable pub SentWell : Sys → ℕ → Bus × Sent → Type 0
SentWell s m r = elim r.1 [
  | done c ↦ IsSound (record s { bus = r.0 })
  | waits t ↦ IsSound (record s { bus = r.0 }) × ((r.0.msgs m).to_free ≡ false) × (r.0.freed m ≡ 0)
  | spins ↦ Unit
]

either_sent :
    (s : Sys) (m : ℕ) (b : Bool) (x y : Bus × Sent)
    → SentWell s m x
    → SentWell s m y
    → SentWell s m (if b then x else y)
either_sent s m true x y h g = h
either_sent s m false x y h g = g

self_msg : (m : ℕ) (v w : Msg) → (if m == m then v else w) ≡ v
self_msg m v w = ground arith

module _ (env : Env) (s : Sys) (i : IsSound s) (m : ℕ) (free : (k : ℕ) → occ m (s.bus.queues k) ≡ 0)
    (there : s.bus.freed m ≡ 0) (keeps : 0 < occ m s.waiting → (s.bus.msgs m).to_free ≡ false) where
  do_send-SentWell :
      (q : ℕ) (noblock nowait : Bool) → SentWell s m (msg_do_send env m q noblock nowait s.bus)
  unfolding SentWell msg_do_send start_send set_queue set_msg
  do_send-SentWell q noblock true =
      either_sent s m (env.has_room (s.bus.queues q)) _ _
        (put-IsSound s i m _ q _ free there refl keeps)
        (either_sent s m noblock _ _ (set-IsSound s i m free _ _ keeps) tt)
  do_send-SentWell q noblock false =
      either_sent s m (env.has_room (s.bus.queues q)) _ _
        (
          put-IsSound s i m _ q _ free there refl (λ h. refl),
          ap (λ (w : Msg). w.to_free) (self_msg m _ (s.bus.msgs m)),
          there,
        )
        (either_sent s m noblock _ _ (set-IsSound s i m free _ _ (λ h. refl)) tt)

  local-SentWell :
      (noblock nowait : Bool) (o : Option ℕ)
      → SentWell s m (send_at_local env m noblock nowait s.bus o)
  unfolding SentWell send_at_local
  local-SentWell noblock nowait none = i
  local-SentWell noblock nowait (some k) = do_send-SentWell (local_queue k) noblock nowait

  remote-SentWell :
      (noblock nowait : Bool) (o : Option ℕ)
      → SentWell s m (send_at_remote env m noblock nowait s.bus o)
  unfolding SentWell send_at_remote
  remote-SentWell noblock nowait none = i
  remote-SentWell noblock nowait (some k) =
      either_sent s m (env.has_queue k) _ _ (do_send-SentWell (remote_queue k) noblock nowait) i

  pub send-SentWell : (noblock nowait : Bool) → SentWell s m (msg_send env m noblock nowait s.bus)
  unfolding msg_send msg_send_local msg_send_remote
  send-SentWell noblock nowait =
      let o = dest_index env (s.bus.msgs m) in
      either_sent s m (s.bus.msgs m).local _ _ (local-SentWell noblock nowait o)
        (remote-SentWell noblock nowait o)

-- What the processing of a message leaves.
unfoldable pub LeftWell : Sys → Processed → Type 0
LeftWell s (answered b c) = IsSound (record s { bus = b })
LeftWell s (stuck b) = Unit

unfoldable pub EndsWell : Sys → Outcome Processed → Type 0
EndsWell s (ok p) = LeftWell s p
EndsWell s (fault e) = Unit

either_left :
    (s : Sys) (b : Bool) (x y : Outcome Processed)
    → EndsWell s x
    → EndsWell s y
    → EndsWell s (if b then x else y)
either_left s true x y h g = h
either_left s false x y h g = g

either_repost :
    (s : Sys) (m : ℕ) (t b : Bool) (x y : Bus × Sent)
    → LeftWell s (reposted m t x)
    → LeftWell s (reposted m t y)
    → LeftWell s (reposted m t (if b then x else y))
either_repost s m t true x y h g = h
either_repost s m t false x y h g = g

module _ (env : Env) (s : Sys) (i : IsSound s) (m : ℕ) (free : (k : ℕ) → occ m (s.bus.queues k) ≡ 0)
    (there : s.bus.freed m ≡ 0) where
  -- The end of a message that is not awaited if it is freed.
  end_process-IsSound :
      (to_free : Bool)
      → (to_free ≡ true → occ m s.waiting ≡ 0)
      → (0 < occ m s.waiting → (s.bus.msgs m).to_free ≡ false)
      → IsSound (record s { bus = end_process m to_free s.bus })
  unfolding end_process msg_free freed_bus set_state set_msg
  end_process-IsSound true unawaited keeps = freed-IsSound s i m free _ there (unawaited refl)
  end_process-IsSound false unawaited keeps = set-IsSound s i m free s.bus.stats _ keeps

pub zero_of : (n : ℕ) → ¬ (0 < n) → n ≡ 0
zero_of n h = ground arith

pub true_ne_false : ¬ (true ≡ false)
true_ne_false e = cc

module _ (env : Env) (s : Sys) (i : IsSound s) (m : ℕ) (free : (k : ℕ) → occ m (s.bus.queues k) ≡ 0)
    (there : s.bus.freed m ≡ 0) where
  -- A message with the flag is not awaited.
  unawaited_of : (s.bus.msgs m).to_free ≡ true → occ m s.waiting ≡ 0
  unawaited_of e = zero_of (occ m s.waiting) (λ h. true_ne_false (sym e ∙ i.left m h))

  ended : (c : Code) → LeftWell s (answered (end_process m (s.bus.msgs m).to_free s.bus) c)
  unfolding LeftWell
  ended c = end_process-IsSound env s i m free there (s.bus.msgs m).to_free unawaited_of (i.left m)

  -- The repost, when a freed message is not awaited.
  reposted-LeftWell :
      (to_free : Bool)
      → (to_free ≡ true → occ m s.waiting ≡ 0)
      → (o : Option ℕ) → LeftWell s (reposted m to_free (send_at_local env m false true s.bus o))
  unfolding LeftWell reposted send_at_local msg_do_send start_send set_queue set_msg
  reposted-LeftWell to_free unawaited none =
      end_process-IsSound env s i m free there to_free unawaited (i.left m)
  reposted-LeftWell to_free unawaited (some k) =
      either_repost s m to_free (env.has_room (s.bus.queues (local_queue k))) _ _
        (put-IsSound s i m _ (local_queue k) _ free there refl (i.left m)) tt

module _ (env : Env) (s : Sys) (i : IsSound s) (m : ℕ) (free : (k : ℕ) → occ m (s.bus.queues k) ≡ 0)
    (there : s.bus.freed m ≡ 0) where
  handled-LeftWell : (c : Code) → LeftWell s (handled env m c s.bus)
  unfolding handled keep_msg msg_send_local set_msg LeftWell
  handled-LeftWell eagain =
      let k = record s { bus = keep_msg m s.bus } in
      reposted-LeftWell env k (set-IsSound s i m free s.bus.stats _ (λ h. refl)) m free there
        (s.bus.msgs m).to_free (unawaited_of env s i m free there)
        (dest_index env ((keep_msg m s.bus).msgs m))
  handled-LeftWell success = ended env s i m free there success
  handled-LeftWell einval = ended env s i m free there einval
  handled-LeftWell enoent = ended env s i m free there enoent
  handled-LeftWell eexist = ended env s i m free there eexist
  handled-LeftWell enobufs = ended env s i m free there enobufs
  handled-LeftWell eaddrnotavail = ended env s i m free there eaddrnotavail
  handled-LeftWell (other n) = ended env s i m free there (other n)

  called-EndsWell : (o : Option (Msg → Code)) → EndsWell s (call_handler env m s.bus o)
  unfolding call_handler EndsWell LeftWell
  called-EndsWell none = i
  called-EndsWell (some h) =
      either_left s (is_queued (s.bus.msgs m).msg_state) _ _ (handled-LeftWell (h (s.bus.msgs m)))
        tt

  pub process-EndsWell : EndsWell s (msg_process env m s.bus)
  unfolding msg_process EndsWell LeftWell
  process-EndsWell =
      let id = (s.bus.msgs m).msg_id in
      either_left s (leb module_max (msgid2module id)) _ _ i (
        either_left s (leb max_msgids (msgid2id id)) _ _ i
          (called-EndsWell (env.handler_of (msgid2module id) (msgid2id id))))
