-- ===== src/Tcp/Seq.antt =====
-- Sequence numbers: the comparisons of inc/tpg_tcp.h on uint32_t, and the test of an incoming segment
-- against the receive window in src/tpg_tcp_sm.c.
use warp.Prelude.{
  ℕ, zero, suc, ◌+◌, ◌-◌, ◌%◌, ◌≤◌, ◌<◌, ◌≡◌, ◌↔◌, Bool, true, false, ◌&&◌, ◌||◌, ltb, leb, ◌==◌,
  if◌then◌else◌, Bool-cases, inl, inr, arith,
}

-- 2 ^ 32.
abbrev pub seq_mod : ℕ
seq_mod = 4294967296

-- SEG_LT.
abbrev pub seg_lt : ℕ → ℕ → Bool
seg_lt a b =
    (ltb b 2147483648 && (ltb a b || leb (b + 2147483648) a))
    || (leb 2147483648 b && ltb a b && leb (b - 2147483648) a)

-- SEG_LE, SEG_GT and SEG_GE.
abbrev pub seg_le : ℕ → ℕ → Bool
seg_le a b = (a == b) || seg_lt a b

abbrev pub seg_gt : ℕ → ℕ → Bool
seg_gt a b = seg_lt b a

abbrev pub seg_ge : ℕ → ℕ → Bool
seg_ge a b = seg_le b a

-- SEG_DIFF, and the sum of two uint32_t.
abbrev pub seg_diff : ℕ → ℕ → ℕ
seg_diff a b = (a + seq_mod - b) % seq_mod

abbrev pub seg_add : ℕ → ℕ → ℕ
seg_add a b = (a + b) % seq_mod

-- SEG_GE(x, nxt) and SEG_LT(x, nxt + wnd).
unfoldable pub is_between : (x nxt wnd : ℕ) → Bool
is_between x n w = seg_ge x n && seg_lt x (seg_add n w)

-- `tsm_do_receive_acceptance_test`, with RCV.NXT and RCV.WND.
unfoldable pub acceptance_test : (rcv_nxt rcv_wnd seg_len seg_seq : ℕ) → Bool
acceptance_test rcv_nxt rcv_wnd seg_len seg_seq =
    let seg_last = seg_diff (seg_add seg_seq seg_len) 1 in
    if (seg_len == 0) && (rcv_wnd == 0)
    then seg_seq == rcv_nxt
    else if (seg_len == 0) && ltb 0 rcv_wnd
    then is_between seg_seq rcv_nxt rcv_wnd
    else if rcv_wnd == 0
    then false
    else is_between seg_seq rcv_nxt rcv_wnd || is_between seg_last rcv_nxt rcv_wnd

-- One number comes before another one when the way to it is at most half of the circle.
seg_lt_iff :
    (a b : ℕ)
    → a < seq_mod
    → b < seq_mod
    → (seg_lt a b ≡ true) ↔ ((0 < seg_diff b a) × (seg_diff b a ≤ 2147483648))
seg_lt_iff a b p q = ground arith

-- A number is in a window of less than half of the circle when its way from the start is shorter than
-- the window.
pub is_between_lem :
    (x n w : ℕ)
    → x < seq_mod
    → n < seq_mod
    → 0 < w
    → w < 2147483648
    → is_between x n w ≡ ltb (seg_diff x n) w
unfolding is_between
is_between_lem x n w p q o r = ground arith

-- The cases of RFC 793 for a segment that is acceptable, by the way of a number from RCV.NXT.
abbrev pub is_acceptable : (rcv_nxt rcv_wnd seg_len seg_seq : ℕ) → Bool
is_acceptable n w zero x = if w == 0 then x == n else ltb (seg_diff x n) w
is_acceptable n w (suc k) x = ltb (seg_diff x n) w || ltb (seg_diff (seg_add x k) n) w

-- The test accepts what RFC 793 accepts: an empty segment in the window, or at its start when the window
-- is closed, and one with text whose first or last number is in the window.
pub acceptance_test_rfc :
    (n w len x : ℕ)
    → n < seq_mod
    → x < seq_mod
    → w < 2147483648
    → len < 2147483648
    → acceptance_test n w len x ≡ is_acceptable n w len x
unfolding acceptance_test
acceptance_test_rfc n w zero x p q r l = ground (arith, is_between_lem x n w)
acceptance_test_rfc n w (suc k) x p q r l =
    let last : seg_diff (seg_add x (suc k)) 1 ≡ seg_add x k = omega arith in
    let in_range : seg_add x k < seq_mod = omega arith in
    rw last (elim (Bool-cases (w == 0)) [
      | inl e ↦ ground arith
      | inr e ↦
          let o : 0 < w = ground arith in
          rw (is_between_lem x n w q p o r)
            (rw (is_between_lem (seg_add x k) n w in_range p o r) (ground arith))
    ])
