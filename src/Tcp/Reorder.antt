-- ===== src/Tcp/Reorder.antt =====
-- Segments that arrive out of order (`tcp_data_handle` of src/tpg_tcp_data.c).
use warp.Prelude.{
  ℕ, ◌+◌, ◌<◌, ◌≡◌, ◌∙◌, refl, ap, Bool, true, false, ◌&&◌, List, [], ◌∷◌, length, ◌==◌, arith,
}
use warp.Prelude.Outcome.{if_true, if_false}
use warp.Tcp.{Tcb, Env, RcvBuf}
use warp.Tcp.Seq.{seq_mod, seg_lt, seg_le, seg_gt, seg_ge, seg_add, seg_diff}
use warp.Tcp.Receive.{
  seg_end, is_contained, adj, consume, store, deliver_data, trim, take_in, tcp_data_handle,
}

-- A number and one that comes after it, less than half of the circle away.
later :
    (a n : ℕ)
    → a < seq_mod
    → 0 < n
    → n < 2147483648
    → (seg_lt a (seg_add a n) ≡ true)
      × (seg_lt (seg_add a n) a ≡ false)
      × (seg_le (seg_add a n) a ≡ false)
later a n p o q = (ground arith, ground arith, ground arith)

-- What ends in a block and the number of the bytes that it delivered.
abbrev received : Tcb → List RcvBuf × ℕ × ℕ → Tcb × ℕ
received c r = (record c { tcb_rcv_buf = r.0; tcb_rcv = record c.tcb_rcv { nxt = r.1 } }, r.2)

handles :
    (env : Env) (seg_seq : ℕ) (bytes : List ℕ) (c : Tcb)
    → seg_le (seg_add seg_seq (length bytes)) c.tcb_rcv.nxt ≡ false
    → tcp_data_handle env seg_seq bytes c
      ≡ received c (take_in env.deliver c.tcb_rcv.nxt seg_seq bytes c.tcb_rcv_buf)
unfolding tcp_data_handle
handles env seg_seq bytes c h =
    if_false (seg_le (seg_add seg_seq (length bytes)) c.tcb_rcv.nxt) _ _ h

trim_new :
    (a s : ℕ) (bytes : List ℕ)
    → seg_lt s a ≡ false
    → trim a s bytes ≡ record { seg_seq = s; seg_text = bytes }
unfolding trim
trim_new a s bytes h =
    if_false (seg_lt s a && seg_gt (seg_add s (length bytes)) a) _ _
      (ap (λ (b : Bool). b && seg_gt (seg_add s (length bytes)) a) h)

module _ (deliver : List ℕ → ℕ) (takes_all : (b : List ℕ) → deliver b ≡ length b) (a : ℕ)
    (p : a < seq_mod) where
  -- The text that comes too early is kept.
  early :
      (n : ℕ) (bytes : List ℕ)
      → 0 < n
      → n < 2147483648
      → take_in deliver a (seg_add a n) bytes []
        ≡ (record { seg_seq = seg_add a n; seg_text = bytes } ∷ [], a, 0)
  unfolding take_in store
  early n bytes o q =
      let apart : (a == seg_add a n) ≡ false = ground arith in
      ap (λ (b : RcvBuf). deliver_data deliver a (b ∷ []))
        (trim_new a (seg_add a n) bytes (later a n p o q).1)
      ∙ unfold deliver_data in if_false (a == seg_add a n) _ _ apart

  -- The text that was missing goes before the one that is kept.
  stored_before :
      (first second : List ℕ)
      → 0 < length first
      → 0 < length second
      → length first + length second < 2147483648
      → store
          (record { seg_seq = a; seg_text = first })
          (record { seg_seq = seg_add a (length first); seg_text = second } ∷ [])
        ≡ record { seg_seq = a; seg_text = first }
          ∷ record { seg_seq = seg_add a (length first); seg_text = second }
          ∷ []
  unfolding store consume
  stored_before first second o o' q =
      let n = length first in
      let new : RcvBuf = record { seg_seq = a; seg_text = first } in
      let cur : RcvBuf = record { seg_seq = seg_add a n; seg_text = second } in
      let l = later a n p o (omega arith) in
      let l' = later (seg_add a n) (length second) (omega arith) o' (omega arith) in
      let none : seg_diff (seg_add a n) (seg_add a n) ≡ 0 = omega arith in
      let starts : seg_ge (seg_add a n) (seg_add a n) ≡ true = ground arith in
      if_false (is_contained new cur) _ _
        (ap (λ (b : Bool). b && seg_le (seg_end new) (seg_end cur)) l.2)
      ∙ if_true (seg_lt a (seg_add a n)) _ _ l.0
      ∙ ap (λ (r : List RcvBuf). new ∷ r)
          (if_true (seg_ge (seg_end new) cur.seg_seq) _ _ starts
            ∙ if_true (seg_lt (seg_end new) (seg_end cur)) _ _ l'.0
            ∙ ap (λ (i : ℕ). adj cur i ∷ []) none)

  -- A buffer whose turn it is.
  delivered_head :
      (s : ℕ) (bytes : List ℕ) (bs : List RcvBuf)
      → deliver_data deliver s (record { seg_seq = s; seg_text = bytes } ∷ bs) ≡ (
          let rest = deliver_data deliver (seg_add s (length bytes)) bs in
          (rest.0, rest.1, seg_add (length bytes) rest.2))
  unfolding deliver_data
  delivered_head s bytes bs =
      let all : (deliver bytes == length bytes) ≡ true = ground (arith, takes_all bytes) in
      if_true (s == s) _ _ (ground arith)
      ∙ if_true (deliver bytes == length bytes) _ _ all
      ∙ ap
          (λ (k : ℕ).
            let rest = deliver_data deliver (seg_add s k) bs in (rest.0, rest.1, seg_add k rest.2))
          (takes_all bytes)

  nothing_left : (n : ℕ) → deliver_data deliver n [] ≡ ([], n, 0)
  unfolding deliver_data
  nothing_left n = refl

  both_delivered :
      (first second : List ℕ)
      → deliver_data deliver a (
          record { seg_seq = a; seg_text = first }
          ∷ record { seg_seq = seg_add a (length first); seg_text = second }
          ∷ [])
        ≡ (
          [],
          seg_add (seg_add a (length first)) (length second),
          seg_add (length first) (seg_add (length second) 0),
        )
  both_delivered first second =
      let s2 = seg_add a (length first) in
      delivered_head a first (record { seg_seq = s2; seg_text = second } ∷ [])
      ∙ ap (λ (r : List RcvBuf × ℕ × ℕ). (r.0, r.1, seg_add (length first) r.2))
          (delivered_head s2 second []
            ∙ ap (λ (r : List RcvBuf × ℕ × ℕ). (r.0, r.1, seg_add (length second) r.2))
                (nothing_left (seg_add s2 (length second))))

  late :
      (first second : List ℕ)
      → 0 < length first
      → 0 < length second
      → length first + length second < 2147483648
      → take_in deliver a a first
          (record { seg_seq = seg_add a (length first); seg_text = second } ∷ [])
        ≡ ([], seg_add a (length first + length second), length first + length second)
  unfolding take_in
  late first second o o' q =
      let here : seg_lt a a ≡ false = ground arith in
      let nxt : seg_add (seg_add a (length first)) (length second)
          ≡ seg_add a (length first + length second) =
        omega arith in
      let all : seg_add (length first) (seg_add (length second) 0) ≡ length first + length second =
        omega arith in
      ap
        (λ (b : RcvBuf).
          deliver_data deliver a
            (store b (record { seg_seq = seg_add a (length first); seg_text = second } ∷ [])))
        (trim_new a a first here)
      ∙ ap (λ (bs : List RcvBuf). deliver_data deliver a bs) (stored_before first second o o' q)
      ∙ both_delivered first second
      ∙ (λ i. ([], nxt i, all i))

-- Two segments with text that follow each other, of less than half of the circle together, arrive in the
-- wrong order at a connection that is missing nothing, and whose application takes all of a text: the
-- second one is kept and nothing delivered; with the first one both are delivered, RCV.NXT comes after
-- them, and nothing is kept.
pub handle-reordered :
    (env : Env) (first second : List ℕ) (c : Tcb)
    → ((b : List ℕ) → env.deliver b ≡ length b)
    → c.tcb_rcv.nxt < seq_mod
    → c.tcb_rcv_buf ≡ []
    → 0 < length first
    → 0 < length second
    → length first + length second < 2147483648
    → (p : Tcb × ℕ) × (q : Tcb × ℕ) × (tcp_data_handle env
          (seg_add c.tcb_rcv.nxt (length first))
          second
          c
        ≡ p)
      × (tcp_data_handle env c.tcb_rcv.nxt first p.0 ≡ q)
      × (p.1 ≡ 0)
      × (p.0.tcb_rcv.nxt ≡ c.tcb_rcv.nxt)
      × (q.1 ≡ length first + length second)
      × (q.0.tcb_rcv.nxt ≡ seg_add c.tcb_rcv.nxt (length first + length second))
      × (q.0.tcb_rcv_buf ≡ [])
handle-reordered env first second c takes_all p empty o o' q =
    let a = c.tcb_rcv.nxt in
    let n = length first in
    let kept = record { seg_seq = seg_add a n; seg_text = second } ∷ [] in
    let c1 = (received c (kept, a, 0)).0 in
    let c2 = (received c1 ([], seg_add a (n + length second), n + length second)).0 in
    let sum : seg_add (seg_add a n) (length second) ≡ seg_add a (n + length second) = omega arith in
    let past : seg_le (seg_add (seg_add a n) (length second)) a ≡ false =
      ap (λ (x : ℕ). seg_le x a) sum ∙ (later a (n + length second) p (omega arith) q).2 in
    (
      (c1, 0),
      (c2, n + length second),
      handles env (seg_add a n) second c past
          ∙ ap (λ (bs : List RcvBuf). received c (take_in env.deliver a (seg_add a n) second bs))
              empty
          ∙ ap (λ (r : List RcvBuf × ℕ × ℕ). received c r)
              (early env.deliver takes_all a p n second o (omega arith)),
      handles env a first c1 (later a n p o (omega arith)).2
          ∙ ap (λ (r : List RcvBuf × ℕ × ℕ). received c1 r)
              (late env.deliver takes_all a p first second o o' q),
      refl,
      refl,
      refl,
      refl,
      refl,
    )
