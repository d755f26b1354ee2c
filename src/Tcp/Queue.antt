-- ===== src/Tcp/Queue.antt =====
-- The queue of the bytes that are not acknowledged yet (`tsm_cleanup_retrans_queu` of
-- src/tpg_tcp_sm.c): an acknowledgment takes just the acknowledged bytes from its front.
use warp.Prelude.{
  ℕ, zero, suc, ◌-◌, ◌≤◌, ◌<◌, ◌≡◌, ◌∙◌, refl, sym, ap, inl, inr, Bool, Bool-cases, false, ◌&&◌,
  ◌||◌, not, List, [], ◌∷◌, length, drop, join, ltb, leb, ◌==◌, length-append, drop-append,
  drop-append_past, length-drop, if◌then◌else◌, arith,
}
use warp.Prelude.Outcome.{ok, if_true, if_false, ok_then}
use warp.Tcp.{Tcb}
use warp.Tcp.Seq.{seg_diff}
use warp.Tcp.Send.{tcp_timer_rto_cancel}
use warp.Tcp.Data.{let_go, keep_data, settle, tcp_snd_win_full, tsm_cleanup_retrans_queu}

-- What is left of a chain after some of its first bytes.
let_go_lem :
    (n : ℕ) (ms : List (List ℕ))
    → n ≤ length (join ms)
    → (rs : List (List ℕ)) × (let_go n ms ≡ ok rs) × (join rs ≡ drop n (join ms))
unfolding let_go
let_go_lem zero [] h = ([], refl, refl)
let_go_lem (suc n) [] h = absurd (omega arith)
let_go_lem n (m ∷ ms) h = elim (Bool-cases (not (n == 0) && leb (length m) n)) [
  | inl e ↦
      let past : length m ≤ n = ground arith in
      let l = length-append m (join ms) in
      let ih = let_go_lem (n - length m) ms (omega (arith, l)) in
      (
        ih.0,
        if_true (not (n == 0) && leb (length m) n) _ _ e ∙ ih.1,
        ih.2 ∙ sym (drop-append_past n m (join ms) past),
      )
  | inr e ↦
      let here = if length m == 0 then ok ms else ok (drop n m ∷ ms) in
      let stays = if_false (not (n == 0) && leb (length m) n) (let_go (n - length m) ms) here e in
      elim (Bool-cases (length m == 0)) [
        | inl f ↦
            let none : n ≡ 0 = ground arith in
            let past : length m ≤ n = ground arith in
            let rest : n - length m ≡ 0 = omega arith in
            (
              ms,
              stays ∙ if_true (length m == 0) _ _ f,
              sym (drop-append_past n m (join ms) past ∙ ap (λ (k : ℕ). drop k (join ms)) rest),
            )
        | inr f ↦
            let within : n ≤ length m = ground arith in
            (
              drop n m ∷ ms,
              stays ∙ if_false (length m == 0) _ _ f,
              sym (drop-append n m (join ms) within),
            )
      ]
]

-- Everything that `tsm_cleanup_retrans_queu` leaves of a block besides its data and its numbers.
data-settle : (b : Bool) (n : ℕ) (t : Tcb) → (settle b n t).tr_data_mbufs ≡ t.tr_data_mbufs
unfolding settle
data-settle b n t = ground arith

una-settle : (b : Bool) (n : ℕ) (t : Tcb) → (settle b n t).tcb_snd.una ≡ n
unfolding settle
una-settle b n t = ground arith

total-settle : (b : Bool) (n : ℕ) (t : Tcb) → (settle b n t).tr_total_size ≡ t.tr_total_size
unfolding settle
total-settle b n t = ground arith

data-keep_data : (n : ℕ) (c : Tcb) (ms : List (List ℕ)) → (keep_data n c ms).tr_data_mbufs ≡ ms
unfolding keep_data tcp_timer_rto_cancel
data-keep_data n c [] = ground arith
data-keep_data n c (m ∷ ms) = refl

total-keep_data :
    (n : ℕ) (c : Tcb) (ms : List (List ℕ)) → (keep_data n c ms).tr_total_size ≡ c.tr_total_size - n
unfolding keep_data tcp_timer_rto_cancel
total-keep_data n c [] = ground arith
total-keep_data n c (m ∷ ms) = refl

-- When a block counts the bytes that it stores, an acknowledgment that is new, and of no more than they
-- are, is handled without a fault: the acknowledged bytes and no others are gone from the front, the
-- count is right again, and SND.UNA is the number that was acknowledged.
pub cleanup-data :
    (n : ℕ) (c : Tcb)
    → c.tr_total_size ≡ length (join c.tr_data_mbufs)
    → 0 < seg_diff n c.tcb_snd.una
    → seg_diff n c.tcb_snd.una ≤ c.tr_total_size
    → (t : Tcb) × (tsm_cleanup_retrans_queu n c ≡ ok t)
      × (join t.tr_data_mbufs ≡ drop (seg_diff n c.tcb_snd.una) (join c.tr_data_mbufs))
      × (t.tr_total_size ≡ length (join t.tr_data_mbufs))
      × (t.tcb_snd.una ≡ n)
unfolding tsm_cleanup_retrans_queu
cleanup-data n c counts is_new known =
    let acked = seg_diff n c.tcb_snd.una in
    let w = tcp_snd_win_full c in
    let x = let_go_lem acked c.tr_data_mbufs (omega arith) in
    let k = keep_data acked c x.0 in
    let t = settle w n k in
    let test : ((acked == 0) || ltb c.tr_total_size acked) ≡ false = ground arith in
    let mbufs = data-settle w n k ∙ data-keep_data acked c x.0 in
    let rest : join t.tr_data_mbufs ≡ drop acked (join c.tr_data_mbufs) =
      ap (λ (m : List (List ℕ)). join m) mbufs ∙ x.2 in
    let size = total-settle w n k ∙ total-keep_data acked c x.0 in
    (
      t,
      if_false ((acked == 0) || ltb c.tr_total_size acked) _ _ test
          ∙ ok_then (let_go acked c.tr_data_mbufs) _ x.1 refl,
      rest,
      size
          ∙ ap (λ (s : ℕ). s - acked) counts
          ∙ sym (length-drop acked (join c.tr_data_mbufs))
          ∙ ap (λ (m : List ℕ). length m) (sym rest),
      una-settle w n k,
    )
