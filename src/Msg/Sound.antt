-- ===== src/Msg/Sound.antt =====
-- No message is given back twice, and none while it is in a ring: the steps of Msg/Steps.
use warp.Prelude.{
  ℕ, Bool, true, false, List, [], ◌∷◌, ◌++◌, ◌+◌, ◌≤◌, ◌<◌, ◌≡◌, ◌≢◌, sym, ap, ◌∙◌, ◌⊎◌, inl, inr,
  ◌==◌, if◌then◌else◌, occ, occ-snoc, one_if, Bool-cases, arith,
}
use warp.Prelude.Outcome.{if_true, if_false}
use warp.Msg.{Bus, Msg, Stats, queued, set_msg, set_queue}
use warp.Msg.Steps.{Sys, IsSound}

-- A message put at the end of a ring, with its new flags.
abbrev pub put : Stats → ℕ → ℕ → Msg → Bus → Bus
put st q m v b = record (set_queue q (b.queues q ++ m ∷ []) (set_msg m v b)) { stats = st }

pub eq_of : (a b : ℕ) → (a == b) ≡ true → a ≡ b
eq_of a b h = ground arith

ne_of : (a b : ℕ) → (a == b) ≡ false → a ≢ b
ne_of a b h = ground arith

occ-put :
    (st : Stats) (q m : ℕ) (v : Msg) (b : Bus) (r n : ℕ)
    → occ n ((put st q m v b).queues r)
      ≡ occ n (b.queues r) + (if q == r then one_if (n == m) else 0)
unfolding set_queue set_msg
occ-put st q m v b r n = elim (Bool-cases (q == r)) [
  | inl e ↦
      ap (occ n) (if_true (q == r) (b.queues q ++ m ∷ []) (b.queues r) e)
      ∙ occ-snoc n m (b.queues q)
      ∙ ap (λ (k : ℕ). occ n (b.queues k) + one_if (n == m)) (eq_of q r e)
      ∙ ap (λ (k : ℕ). occ n (b.queues r) + k) (sym (if_true (q == r) (one_if (n == m)) 0 e))
  | inr e ↦
      let none_here = if_false (q == r) (one_if (n == m)) 0 e in
      ap (occ n) (if_false (q == r) (b.queues q ++ m ∷ []) (b.queues r) e)
      ∙ omega (arith, none_here)
]

-- Where the message is after it was put there.
put_where :
    (st : Stats) (q m : ℕ) (v : Msg) (b : Bus) (r n : ℕ)
    → ((k : ℕ) → occ m (b.queues k) ≡ 0)
    → 0 < occ n ((put st q m v b).queues r)
    → ((n ≡ m) × (q ≡ r)) ⊎ ((n ≢ m) × (0 < occ n (b.queues r)))
put_where st q m v b r n free h =
    let e = occ-put st q m v b r n in
    elim (Bool-cases (n == m)) [
      | inl f ↦ elim (Bool-cases (q == r)) [
        | inl g ↦ inl (eq_of n m f, eq_of q r g)
        | inr g ↦
            let none_here = if_false (q == r) (one_if (n == m)) 0 g in
            let gone = ap (λ (k : ℕ). occ k (b.queues r)) (eq_of n m f) ∙ free r in
            absurd (omega (arith, e, none_here, gone))
      ]
      | inr f ↦ elim (Bool-cases (q == r)) [
        | inl g ↦
            let none_here = if_true (q == r) (one_if (n == m)) 0 g ∙ ap one_if f in
            inr (ne_of n m f, omega (arith, e, none_here))
        | inr g ↦
            let none_here = if_false (q == r) (one_if (n == m)) 0 g in
            inr (ne_of n m f, omega (arith, e, none_here))
      ]
    ]

put_once :
    (x y : Bool) (o k : ℕ)
    → k ≡ o + (if x then one_if y else 0)
    → o ≤ 1
    → (y ≡ true → o ≡ 0)
    → k ≤ 1
put_once x y o k e h g = ground arith

put_msg :
    (st : Stats) (q m : ℕ) (v : Msg) (b : Bus) (n : ℕ)
    → (n ≡ m → (put st q m v b).msgs n ≡ v) × (n ≢ m → (put st q m v b).msgs n ≡ b.msgs n)
unfolding set_queue set_msg
put_msg st q m v b n = (λ e. ground arith, λ e. ground arith)

module _ (s : Sys) (i : IsSound s) (m : ℕ) where
  pub put-IsSound :
      (st : Stats) (q : ℕ) (v : Msg)
      → ((k : ℕ) → occ m (s.bus.queues k) ≡ 0)
      → s.bus.freed m ≡ 0
      → v.msg_state ≡ queued
      → (0 < occ m s.waiting → v.to_free ≡ false)
      → IsSound (record s { bus = put st q m v s.bus })
  unfolding set_queue set_msg
  put-IsSound st q v free there is_q keeps = record {
    once = λ r n.
        put_once (q == r) (n == m) (occ n (s.bus.queues r)) _ (occ-put st q m v s.bus r n)
          (i.once r n) (λ e. ap (λ (k : ℕ). occ k (s.bus.queues r)) (eq_of n m e) ∙ free r);
    one_queue = λ r t n h g. elim (put_where st q m v s.bus r n free h) [
      | inl a ↦ elim (put_where st q m v s.bus t n free g) [
        | inl b ↦ sym a.1 ∙ b.1
        | inr b ↦ absurd (b.0 a.0)
      ]
      | inr a ↦ elim (put_where st q m v s.bus t n free g) [
        | inl b ↦ absurd (a.0 b.0)
        | inr b ↦ i.one_queue r t n a.1 b.1
      ]
    ];
    alive = λ r n h. elim (put_where st q m v s.bus r n free h) [
      | inl a ↦ ap s.bus.freed a.0 ∙ there
      | inr a ↦ i.alive r n a.1
    ];
    marked = λ r n h. elim (put_where st q m v s.bus r n free h) [
      | inl a ↦ ap (λ (w : Msg). w.msg_state) ((put_msg st q m v s.bus n).0 a.0) ∙ is_q
      | inr a ↦ ap (λ (w : Msg). w.msg_state) ((put_msg st q m v s.bus n).1 a.0) ∙ i.marked r n a.1
    ];
    kept = i.kept;
    left = λ n h. elim (Bool-cases (n == m)) [
      | inl e ↦
          ap (λ (w : Msg). w.to_free) ((put_msg st q m v s.bus n).0 (eq_of n m e))
          ∙ keeps (awaited n e h)
      | inr e ↦
          ap (λ (w : Msg). w.to_free) ((put_msg st q m v s.bus n).1 (ne_of n m e)) ∙ i.left n h
    ];
    waits_once = i.waits_once;
    freed_once = i.freed_once;
  }
    where
      awaited : (n : ℕ) → (n == m) ≡ true → 0 < occ n s.waiting → 0 < occ m s.waiting
      awaited n e h = let f = ap (λ (k : ℕ). occ k s.waiting) (eq_of n m e) in omega arith

-- The oldest message of a ring is taken out.
unfoldable pub pop : ℕ → List ℕ → Sys → Sys
pop q ms s = record s { bus = set_queue q ms s.bus }

occ-pop :
    (q m : ℕ) (ms : List ℕ) (b : Bus) (r n : ℕ)
    → b.queues q ≡ m ∷ ms
    → occ n ((set_queue q ms b).queues r) + (if q == r then one_if (n == m) else 0)
      ≡ occ n (b.queues r)
unfolding set_queue occ
occ-pop q m ms b r n h = elim (Bool-cases (q == r)) [
  | inl e ↦
      let now = ap (occ n) (if_true (q == r) ms (b.queues r) e) in
      let one = if_true (q == r) (one_if (n == m)) 0 e in
      let was = ap (occ n) (ap b.queues (sym (eq_of q r e)) ∙ h) in omega (arith, now, one, was)
  | inr e ↦
      let now = ap (occ n) (if_false (q == r) ms (b.queues r) e) in
      let one = if_false (q == r) (one_if (n == m)) 0 e in omega (arith, now, one)
]

zero_or_more : (n : ℕ) → (n ≡ 0) ⊎ (0 < n)
zero_or_more n = ground arith

module _ (s : Sys) (i : IsSound s) (q m : ℕ) (ms : List ℕ) (h : s.bus.queues q ≡ m ∷ ms) where
  occ_less : (r n : ℕ) → occ n ((pop q ms s).bus.queues r) ≤ occ n (s.bus.queues r)
  unfolding pop
  occ_less r n = let e = occ-pop q m ms s.bus r n h in omega arith

  pub pop-IsSound : IsSound (pop q ms s)
  unfolding pop set_queue
  pop-IsSound = record {
    once = λ r n. let e = occ_less r n in let f = i.once r n in omega arith;
    one_queue = λ r t n g k.
        let e = occ_less r n in
        let f = occ_less t n in i.one_queue r t n (omega arith) (omega arith);
    alive = λ r n g. let e = occ_less r n in i.alive r n (omega arith);
    marked = λ r n g. let e = occ_less r n in i.marked r n (omega arith);
    kept = i.kept;
    left = i.left;
    waits_once = i.waits_once;
    freed_once = i.freed_once;
  }

  pub was_there : 0 < occ m (s.bus.queues q)
  unfolding occ
  was_there =
      let e = ap (occ m) h in let f : one_if (m == m) ≡ 1 = ground arith in omega (arith, e, f)

  pub popped : (r : ℕ) → occ m ((pop q ms s).bus.queues r) ≡ 0
  unfolding pop
  popped r =
      let e = occ-pop q m ms s.bus r m h in
      let f : one_if (m == m) ≡ 1 = ground arith in
      let l = i.once r m in
      elim (Bool-cases (q == r)) [
        | inl g ↦ let one = if_true (q == r) (one_if (m == m)) 0 g in omega (arith, e, f, one, l)
        | inr g ↦ elim (zero_or_more (occ m ((pop q ms s).bus.queues r))) [
          | inl z ↦ z
          | inr z ↦ absurd (
              ne_of q r g
                (i.one_queue q r m was_there (let less = occ_less r m in omega (arith, less, z))))
        ]
      ]

unfoldable pub freed_bus : Stats → ℕ → Bus → Bus
freed_bus st m b = record b { freed = λ n. if m == n then b.freed n + 1 else b.freed n; stats = st }

module _ (s : Sys) (i : IsSound s) (m : ℕ) (free : (k : ℕ) → occ m (s.bus.queues k) ≡ 0) where
  other : (r n : ℕ) → 0 < occ n (s.bus.queues r) → (m == n) ≡ false
  other r n h = elim (Bool-cases (m == n)) [
    | inl e ↦
        let f = ap (λ (k : ℕ). occ k (s.bus.queues r)) (sym (eq_of m n e)) in
        let z = free r in absurd (omega (arith, f, z))
    | inr e ↦ e
  ]

  pub freed-IsSound :
      (st : Stats)
      → s.bus.freed m ≡ 0
      → occ m s.waiting ≡ 0
      → IsSound (record s { bus = freed_bus st m s.bus })
  unfolding freed_bus
  freed-IsSound st there unawaited = record {
    once = i.once;
    one_queue = i.one_queue;
    alive = λ r n h.
        if_false (m == n) (s.bus.freed n + 1) (s.bus.freed n) (other r n h) ∙ i.alive r n h;
    marked = i.marked;
    kept = λ n h. elim (Bool-cases (m == n)) [
      | inl e ↦
          let f = ap (λ (k : ℕ). occ k s.waiting) (sym (eq_of m n e)) in absurd (omega (arith, f))
      | inr e ↦ if_false (m == n) (s.bus.freed n + 1) (s.bus.freed n) e ∙ i.kept n h
    ];
    left = i.left;
    waits_once = i.waits_once;
    freed_once = λ n. elim (Bool-cases (m == n)) [
      | inl e ↦
          let f = if_true (m == n) (s.bus.freed n + 1) (s.bus.freed n) e in
          let z = ap s.bus.freed (sym (eq_of m n e)) in omega (arith, f, z, there)
      | inr e ↦
          let f = if_false (m == n) (s.bus.freed n + 1) (s.bus.freed n) e in
          let z = i.freed_once n in omega (arith, f, z)
    ];
  }

  pub set-IsSound :
      (st : Stats) (v : Msg)
      → (0 < occ m s.waiting → v.to_free ≡ false)
      → IsSound (record s { bus = record (set_msg m v s.bus) { stats = st } })
  unfolding set_msg
  set-IsSound st v keeps = record {
    once = i.once;
    one_queue = i.one_queue;
    alive = i.alive;
    marked = λ r n h.
        ap (λ (w : Msg). w.msg_state) (if_false (m == n) v (s.bus.msgs n) (other r n h))
        ∙ i.marked r n h;
    kept = i.kept;
    left = λ n h. elim (Bool-cases (m == n)) [
      | inl e ↦
          let f = ap (λ (k : ℕ). occ k s.waiting) (sym (eq_of m n e)) in
          ap (λ (w : Msg). w.to_free) (if_true (m == n) v (s.bus.msgs n) e)
          ∙ keeps (omega (arith, f))
      | inr e ↦ ap (λ (w : Msg). w.to_free) (if_false (m == n) v (s.bus.msgs n) e) ∙ i.left n h
    ];
    waits_once = i.waits_once;
    freed_once = i.freed_once;
  }
