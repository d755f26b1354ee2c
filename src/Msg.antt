-- ===== src/Msg.antt =====
-- The messages between cores: src/tpg_msg.c and inc/tpg_msg.h. A message is its number, as a pointer;
-- a queue is that of the messages in a ring, the oldest first. The children hold the steps that the cores
-- make in any order, and what is proved of them.
pub mod Steps
pub mod Sound
pub mod Safe
pub mod Run
pub mod Handlers
mod Tests
use warp.Prelude.{
  ℕ, Bool, true, false, Option, none, some, List, [], ◌∷◌, ◌++◌, ◌+◌, ◌*◌, ◌/◌, ◌%◌, not, ◌&&◌, ltb,
  leb, ◌==◌, if◌then◌else◌,
}
use warp.Prelude.Outcome.{Outcome, ok, fault, assert_false}

-- `msg_states_t`
pub data MsgState : Type 0 where
  init queued dequeued : MsgState

abbrev pub is_queued : MsgState → Bool
is_queued queued = true
is_queued _ = false

abbrev pub is_dequeued : MsgState → Bool
is_dequeued dequeued = true
is_dequeued _ = false

-- `msg_t`, with its flags one by one.
pub record Msg : Type 0 where
  pub msg_id : ℕ
  pub to_free : Bool
  pub local : Bool
  pub msg_dest_lcore : ℕ
  pub msg_state : MsgState

-- 0, -EAGAIN and the other answers.
pub data Code : Type 0 where
  success eagain einval enoent eexist enobufs eaddrnotavail : Code
  other : ℕ → Code

-- The counters of `tpg_msg_statistics_t`; those of the polls and of the allocator are left out.
pub record Stats : Type 0 where
  pub ms_snd : ℕ
  pub ms_err : ℕ
  pub ms_free : ℕ

-- The messages, the rings, and how often the memory of a message was given back.
pub record Bus : Type 0 where
  pub msgs : ℕ → Msg
  pub queues : ℕ → List ℕ
  pub freed : ℕ → ℕ
  pub stats : Stats

-- What is outside: whether a ring takes one more, the index of a core, whether it has rings, and what
-- the handler for a module and an id answers, when there is one.
pub record Env : Type 0 where
  pub has_room : List ℕ → Bool
  pub lcore_index : ℕ → Option ℕ
  pub has_queue : ℕ → Bool
  pub handler_of : ℕ → ℕ → Option (Msg → Code)

-- RTE_MAX_LCORE, MSG_MODULE_MAX and MSG_PER_MODULE_MAX_MSGIDS
abbrev max_lcore : ℕ
max_lcore = 128

abbrev pub module_max : ℕ
module_max = 7

abbrev pub max_msgids : ℕ
max_msgids = 256

-- MSGID2MODULE and MSGID2ID
abbrev pub msgid2module : ℕ → ℕ
msgid2module msgid = msgid / 256

abbrev pub msgid2id : ℕ → ℕ
msgid2id msgid = msgid % 256

-- The ring of a core for the messages of others, and that for its own.
abbrev pub remote_queue : ℕ → ℕ
remote_queue core_idx = 2 * core_idx

abbrev pub local_queue : ℕ → ℕ
local_queue core_idx = 2 * core_idx + 1

unfoldable pub set_msg : ℕ → Msg → Bus → Bus
set_msg m v b = record b { msgs = λ n. if m == n then v else b.msgs n }

unfoldable pub set_state : ℕ → MsgState → Bus → Bus
set_state m s b = set_msg m (record (b.msgs m) { msg_state = s }) b

unfoldable pub set_queue : ℕ → List ℕ → Bus → Bus
set_queue q ms b = record b { queues = λ r. if q == r then ms else b.queues r }

-- `msg_free`
unfoldable pub msg_free : ℕ → Bus → Bus
msg_free m b = record b {
  freed = λ n. if m == n then b.freed n + 1 else b.freed n;
  stats = record b.stats { ms_free = b.stats.ms_free + 1 };
}

-- How a send goes on: it is done with an answer, it waits for the message to be processed, with the
-- flag that it had, or it spins at a ring without room.
pub data Sent : Type 0 where
  done : Code → Sent
  waits : Bool → Sent
  spins : Sent

-- `msg_do_send` up to the loop over the ring.
unfoldable pub start_send : ℕ → (nowait : Bool) → Bus → Bus
start_send m nowait b =
    let v = b.msgs m in
    record (set_msg m
      (record v { to_free = if nowait then v.to_free else false; msg_state = queued }) b) {
        stats = record b.stats { ms_snd = b.stats.ms_snd + 1 };
      }

-- `msg_do_send` up to the wait for the other core.
unfoldable pub msg_do_send : Env → ℕ → (q : ℕ) → (noblock nowait : Bool) → Bus → Bus × Sent
msg_do_send env m q noblock nowait b =
    let s = start_send m nowait b in
    if env.has_room (s.queues q)
    then (
      set_queue q (s.queues q ++ m ∷ []) s,
      if nowait then done success else waits (b.msgs m).to_free,
    )
    else if noblock
    then (record s { stats = record s.stats { ms_err = s.stats.ms_err + 1 } }, done enobufs)
    else (s, spins)

-- `msg_do_send` from the end of the wait on.
unfoldable pub end_wait : ℕ → (to_free : Bool) → Bus → Bus
end_wait m to_free b =
    if to_free
    then record b { freed = λ n. if m == n then b.freed n + 1 else b.freed n }
    else set_state m init b

-- The checks of the destination.
unfoldable pub dest_index : Env → Msg → Option ℕ
dest_index env v = if ltb max_lcore v.msg_dest_lcore then none else env.lcore_index v.msg_dest_lcore

-- After the checks, with the index of the core.
unfoldable pub send_at_local : Env → ℕ → (noblock nowait : Bool) → Bus → Option ℕ → Bus × Sent
send_at_local env m noblock nowait b none = (b, done einval)
send_at_local env m noblock nowait b (some i) = msg_do_send env m (local_queue i) noblock nowait b

unfoldable pub msg_send_local : Env → ℕ → (noblock nowait : Bool) → Bus → Bus × Sent
msg_send_local env m noblock nowait b =
    send_at_local env m noblock nowait b (dest_index env (b.msgs m))

unfoldable pub send_at_remote : Env → ℕ → (noblock nowait : Bool) → Bus → Option ℕ → Bus × Sent
send_at_remote env m noblock nowait b none = (b, done einval)
send_at_remote env m noblock nowait b (some i) =
    if env.has_queue i
    then msg_do_send env m (remote_queue i) noblock nowait b
    else (b, done eaddrnotavail)

unfoldable pub msg_send_remote : Env → ℕ → (noblock nowait : Bool) → Bus → Bus × Sent
msg_send_remote env m noblock nowait b =
    send_at_remote env m noblock nowait b (dest_index env (b.msgs m))

unfoldable pub msg_send : Env → ℕ → (noblock nowait : Bool) → Bus → Bus × Sent
msg_send env m noblock nowait b =
    if (b.msgs m).local
    then msg_send_local env m noblock nowait b
    else msg_send_remote env m noblock nowait b

-- The end of `msg_process`.
unfoldable pub end_process : ℕ → (to_free : Bool) → Bus → Bus
end_process m to_free b = if to_free then msg_free m b else set_state m dequeued b

-- What comes of a message: the handler answered it, or its repost spins at the ring of its own core.
pub data Processed : Type 0 where
  answered : Bus → Code → Processed
  stuck : Bus → Processed

-- The repost of a message, at the request of its handler.
unfoldable pub reposted : ℕ → (to_free : Bool) → Bus × Sent → Processed
reposted m to_free (b, done success) = answered b success
reposted m to_free (b, done c) = answered (end_process m to_free b) c
reposted m to_free (b, waits t) = answered b success
reposted m to_free (b, spins) = stuck b

unfoldable pub keep_msg : ℕ → Bus → Bus
keep_msg m b = set_msg m (record (b.msgs m) { to_free = false }) b

unfoldable pub handled : Env → ℕ → Code → Bus → Processed
handled env m eagain b =
    reposted m (b.msgs m).to_free (msg_send_local env m false true (keep_msg m b))
handled env m c b = answered (end_process m (b.msgs m).to_free b) c

-- The handler of a message, when there is one.
unfoldable pub call_handler : Env → ℕ → Bus → Option (Msg → Code) → Outcome Processed
call_handler env m b none = ok (answered b enoent)
call_handler env m b (some h) =
    if is_queued (b.msgs m).msg_state
    then ok (handled env m (h (b.msgs m)) b)
    else fault assert_false

-- `msg_process`
unfoldable pub msg_process : Env → ℕ → Bus → Outcome Processed
msg_process env m b =
    let v = b.msgs m in
    if leb module_max (msgid2module v.msg_id)
    then ok (answered b einval)
    else if leb max_msgids (msgid2id v.msg_id)
    then ok (answered b einval)
    else call_handler env m b (env.handler_of (msgid2module v.msg_id) (msgid2id v.msg_id))

unfoldable pub polled : Env → ℕ → List ℕ → Bus → Outcome Processed
polled env q [] b = ok (answered b success)
polled env q (m ∷ ms) b = msg_process env m (set_queue q ms b)

-- `msg_poll_queue`
unfoldable pub msg_poll_queue : Env → ℕ → Bus → Outcome Processed
msg_poll_queue env q b = polled env q (b.queues q) b
