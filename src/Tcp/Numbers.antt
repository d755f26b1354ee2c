-- ===== src/Tcp/Numbers.antt =====
-- The numbers of a connection that is opened: of a SYN and of its acknowledgment (src/tpg_tcp_sm.c).
use warp.Prelude.{ℕ, ◌<◌, ◌≡◌, ap, Bool, true, false, ◌||◌, ltb, ◌==◌, arith}
use warp.Prelude.Outcome.{ok, if_true}
use warp.Tcp.{
  State, ts_established, Segment, Snd, Rcv, Tcb, Env, Event, sess_connected, ts_recv_syn,
}
use warp.Tcp.Seq.{seq_mod, seg_add, seg_lt, seg_le, seg_diff, is_between, acceptance_test}
use warp.Tcp.Send.{count, notify, tcp_timer_rto_cancel}
use warp.Tcp.Data.{tsm_cleanup_retrans_queu}
use warp.Tcp.Enter.{move, step_una}
use warp.Tcp.Opening.{start_rcv, first_window}
use warp.Tcp.Machine.{state_function, tsm_dispatch_event}

-- SND of a block whose SYN is sent, and RCV of one that received a SYN.
abbrev pub snd_started : Snd → Snd
snd_started s = record s { una = s.iss; nxt = seg_add s.iss 1 }

abbrev pub rcv_started : ℕ → Rcv → Rcv
rcv_started iss r = record r { nxt = seg_add iss 1; irs = iss }

-- The number after another one.
pub next_tests :
    (i : ℕ)
    → i < seq_mod
    → (seg_le (seg_add i 1) i ≡ false)
      × (seg_le i (seg_add i 1) ≡ true)
      × (seg_lt i (seg_add i 1) ≡ true)
next_tests i p = (ground arith, ground arith, ground arith)

pub seg_lt_self : (n : ℕ) → n < seq_mod → seg_lt n n ≡ false
seg_lt_self n p = ground arith

pub seg_le_self : (n : ℕ) → seg_le n n ≡ true
seg_le_self n = ground arith

-- The number that is awaited is in the window, and stands for the whole of it when it is closed.
pub accepts_next : (n w : ℕ) → n < seq_mod → w < 2147483648 → acceptance_test n w 0 n ≡ true
unfolding acceptance_test is_between
accepts_next n w p q = ground arith

pub cleanup_nothing :
    (n : ℕ) (c : Tcb) → n < seq_mod → c.tcb_snd.una ≡ n → tsm_cleanup_retrans_queu n c ≡ ok c
unfolding tsm_cleanup_retrans_queu
cleanup_nothing n c p e =
    let none : (seg_diff n c.tcb_snd.una == 0) ≡ true = ground arith in
    if_true ((seg_diff n c.tcb_snd.una == 0) || ltb c.tr_total_size (seg_diff n c.tcb_snd.una)) _ _
      (ap (λ (b : Bool). b || ltb c.tr_total_size (seg_diff n c.tcb_snd.una)) none)

-- The block of a client when the SYN of the listener is read, and when it is established.
abbrev pub synchronized : Tcb → Segment → Tcb
synchronized c k = step_una (start_rcv k (count ts_recv_syn c))

abbrev pub joined : Tcb → Segment → Tcb
joined c k =
    move ts_established
      (tcp_timer_rto_cancel (notify sess_connected (first_window k (synchronized c k))))

-- The established block of the other side.
abbrev pub completed : Tcb → Segment → Tcb
completed c k = move ts_established (tcp_timer_rto_cancel (first_window k (step_una c)))

pub at_state :
    (env : Env) (c : Tcb) (e : Event) {s : State}
    → c.tcb_state ≡ s
    → tsm_dispatch_event env c e ≡ state_function s env c e
unfolding tsm_dispatch_event
at_state env c e at = ap (λ (s : State). state_function s env c e) at
