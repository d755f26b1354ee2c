-- ===== src/Lookup/Refine.antt =====
-- The hash table of src/tpg_lookup.c as the list of the blocks that are in it, the newest first.
use warp.Prelude.{
  ℕ, Bool, true, false, Option, some, List, [], ◌∷◌, ◌≤◌, ◌<◌, ◌≡◌, refl, sym, ap, ◌∙◌, ◌&&◌, ◌==◌,
  if◌then◌else◌, Bool-cases, inl, inr, remove, occ, occ-remove, arith,
}
use warp.Prelude.Outcome.{if_true, if_false}
use warp.Lookup.{
  Cb, Table, Key, hash_mod, tlkp_get_hash_bucket, is_match, find_first, tlkp_find_v4_cb, put_at,
  bucket_of, tlkp_add_cb, tlkp_delete_cb, tlkp_tcp_lcore_init,
}

-- The blocks of one bucket.
unfoldable pub in_bucket : (ℕ → Cb) → ℕ → List ℕ → List ℕ
in_bucket cbs b [] = []
in_bucket cbs b (c ∷ cs) =
    if bucket_of (cbs c) == b then c ∷ in_bucket cbs b cs else in_bucket cbs b cs

-- The table that holds a list of blocks.
pub record IsTable (t : Table) (l : List ℕ) : Type 0 where
  pub holds : (b : ℕ) → t.buckets b ≡ in_bucket t.cbs b l

-- A block has the key with its port.
unfoldable pub has_key : Key → Cb → Bool
has_key k cb = (k.phys_port == cb.l4cb_interface) && is_match k cb

pub same : (n : ℕ) → (n == n) ≡ true
same n = ground arith

pub eq_of : (a b : ℕ) → (a == b) ≡ true → a ≡ b
eq_of a b h = ground arith

remove_this : (c d : ℕ) (l : List ℕ) → (c == d) ≡ true → remove c (d ∷ l) ≡ l
unfolding remove
remove_this c d l h = if_true _ _ _ h

remove_other : (c d : ℕ) (l : List ℕ) → (c == d) ≡ false → remove c (d ∷ l) ≡ d ∷ remove c l
unfolding remove
remove_other c d l h = if_false _ _ _ h

module _ (cbs : ℕ → Cb) (b : ℕ) where
  unfoldable is_here : ℕ → Bool
  is_here c = bucket_of (cbs c) == b

  here : (c : ℕ) (l : List ℕ) → is_here c ≡ true → in_bucket cbs b (c ∷ l) ≡ c ∷ in_bucket cbs b l
  unfolding in_bucket is_here
  here c l h = if_true _ _ _ h

  elsewhere : (c : ℕ) (l : List ℕ) → is_here c ≡ false → in_bucket cbs b (c ∷ l) ≡ in_bucket cbs b l
  unfolding in_bucket is_here
  elsewhere c l h = if_false _ _ _ h

  differ : (c d : ℕ) → is_here c ≡ false → is_here d ≡ true → (c == d) ≡ false
  differ c d h g = elim (Bool-cases (c == d)) [
    | inl e ↦ cc (sym h ∙ ap is_here (eq_of c d e) ∙ g)
    | inr e ↦ e
  ]

  -- A block of another bucket is not there to be removed.
  remove_elsewhere :
      (c : ℕ) (l : List ℕ) → is_here c ≡ false → remove c (in_bucket cbs b l) ≡ in_bucket cbs b l
  unfolding remove in_bucket
  remove_elsewhere c [] h = refl
  remove_elsewhere c (d ∷ l) h = elim (Bool-cases (is_here d)) [
    | inl e ↦
        ap (remove c) (here d l e)
        ∙ remove_other c d (in_bucket cbs b l) (differ c d h e)
        ∙ ap (λ (xs : List ℕ). d ∷ xs) (remove_elsewhere c l h)
        ∙ sym (here d l e)
    | inr e ↦ ap (remove c) (elsewhere d l e) ∙ remove_elsewhere c l h ∙ sym (elsewhere d l e)
  ]

  in_bucket-remove :
      (c : ℕ) (l : List ℕ) → in_bucket cbs b (remove c l) ≡ remove c (in_bucket cbs b l)
  unfolding remove in_bucket
  in_bucket-remove c [] = refl
  in_bucket-remove c (d ∷ l) = elim (Bool-cases (c == d)) [
    | inl e ↦ elim (Bool-cases (is_here d)) [
      | inl h ↦
          ap (in_bucket cbs b) (remove_this c d l e)
          ∙ sym (remove_this c d (in_bucket cbs b l) e)
          ∙ ap (remove c) (sym (here d l h))
      | inr h ↦
          ap (in_bucket cbs b) (remove_this c d l e)
          ∙ sym (remove_elsewhere c l (ap is_here (eq_of c d e) ∙ h))
          ∙ ap (remove c) (sym (elsewhere d l h))
    ]
    | inr e ↦ elim (Bool-cases (is_here d)) [
      | inl h ↦
          ap (in_bucket cbs b) (remove_other c d l e)
          ∙ here d (remove c l) h
          ∙ ap (λ (xs : List ℕ). d ∷ xs) (in_bucket-remove c l)
          ∙ sym (remove_other c d (in_bucket cbs b l) e)
          ∙ ap (remove c) (sym (here d l h))
      | inr h ↦
          ap (in_bucket cbs b) (remove_other c d l e)
          ∙ elsewhere d (remove c l) h
          ∙ in_bucket-remove c l
          ∙ ap (remove c) (sym (elsewhere d l h))
    ]
  ]

delete-IsTable :
    (c : ℕ) (t : Table) (l : List ℕ)
    → IsTable t l
    → IsTable (tlkp_delete_cb (some c) t).0 (remove c l)
unfolding tlkp_delete_cb
delete-IsTable c t l i = record {
  holds = λ b. ap (remove c) (i.holds b) ∙ sym (in_bucket-remove t.cbs b c l);
}

add-IsTable :
    (c : ℕ) (t : Table) (l : List ℕ) → IsTable t l → IsTable (tlkp_add_cb (some c) t).0 (c ∷ l)
unfolding tlkp_add_cb put_at is_here
add-IsTable c t l i = record {
  holds = λ b. elim (Bool-cases (bucket_of (t.cbs c) == b)) [
    | inl e ↦ if_true _ _ _ e ∙ ap (λ (xs : List ℕ). c ∷ xs) (i.holds b) ∙ sym (here t.cbs b c l e)
    | inr e ↦ if_false _ _ _ e ∙ i.holds b ∙ sym (elsewhere t.cbs b c l e)
  ];
}

-- The number of a port tells apart the buckets, as long as the product does not wrap.
bucket_port :
    (p q h g : ℕ)
    → p < 4096
    → q < 4096
    → tlkp_get_hash_bucket p h ≡ tlkp_get_hash_bucket q g
    → p ≡ q
unfolding tlkp_get_hash_bucket hash_mod
bucket_port p q h g small_p small_q e = omega arith

first_none :
    (test : ℕ → Bool) (c : ℕ) (cs : List ℕ)
    → test c ≡ false
    → find_first test (c ∷ cs) ≡ find_first test cs
unfolding find_first
first_none test c cs h = if_false _ _ _ h

first_cons :
    (test : ℕ → Bool) (c : ℕ) (cs : List ℕ)
    → find_first test (c ∷ cs) ≡ (if test c then some c else find_first test cs)
unfolding find_first
first_cons test c cs = refl

key_port : (k : Key) (cb : Cb) → has_key k cb ≡ true → k.phys_port ≡ cb.l4cb_interface
unfolding has_key
key_port k cb h = ground arith

key_hash : (k : Key) (cb : Cb) → has_key k cb ≡ true → k.l4_hash ≡ cb.l4cb_rx_hash
unfolding has_key is_match
key_hash k cb h = ground arith

abbrev bucket_of_key : Key → ℕ
bucket_of_key k = tlkp_get_hash_bucket k.phys_port k.l4_hash

key_bucket : (k : Key) (cb : Cb) → has_key k cb ≡ true → bucket_of cb ≡ bucket_of_key k
unfolding bucket_of
key_bucket k cb h =
    ap (λ (p : ℕ). tlkp_get_hash_bucket p cb.l4cb_rx_hash) (sym (key_port k cb h))
    ∙ ap (tlkp_get_hash_bucket k.phys_port) (sym (key_hash k cb h))

-- In the bucket of the key, only the port is left to compare.
key_in_bucket :
    (k : Key) (cb : Cb)
    → k.phys_port < 4096
    → cb.l4cb_interface < 4096
    → bucket_of cb ≡ bucket_of_key k
    → has_key k cb ≡ is_match k cb
unfolding has_key bucket_of
key_in_bucket k cb h g e =
    let p : cb.l4cb_interface ≡ k.phys_port =
      bucket_port cb.l4cb_interface k.phys_port cb.l4cb_rx_hash k.l4_hash g h e in
    let q : (k.phys_port == cb.l4cb_interface) ≡ true =
      ap (λ (n : ℕ). k.phys_port == n) p ∙ same k.phys_port in
    ap (λ (b : Bool). b && is_match k cb) q

module _ (cbs : ℕ → Cb) (k : Key) (small_port : k.phys_port < 4096)
    (small : (c : ℕ) → (cbs c).l4cb_interface < 4096) where
  not_key : (c : ℕ) → is_here cbs (bucket_of_key k) c ≡ false → has_key k (cbs c) ≡ false
  unfolding is_here
  not_key c h = elim (Bool-cases (has_key k (cbs c))) [
    | inl e ↦ cc (
        sym h
        ∙ ap (λ (b : ℕ). b == bucket_of_key k) (key_bucket k (cbs c) e)
        ∙ same (bucket_of_key k))
    | inr e ↦ e
  ]

  find_bucket :
      (l : List ℕ)
      → find_first (λ c. is_match k (cbs c)) (in_bucket cbs (bucket_of_key k) l)
        ≡ find_first (λ c. has_key k (cbs c)) l
  unfolding in_bucket find_first is_here
  find_bucket [] = refl
  find_bucket (c ∷ l) =
      let b = bucket_of_key k in
      let match_of = λ (d : ℕ). is_match k (cbs d) in
      let key_of = λ (d : ℕ). has_key k (cbs d) in
      elim (Bool-cases (is_here cbs b c)) [
        | inl e ↦
            let q = key_in_bucket k (cbs c) small_port (small c) (eq_of (bucket_of (cbs c)) b e) in
            ap (find_first match_of) (here cbs b c l e)
            ∙ ap (λ (o : Option ℕ). if is_match k (cbs c) then some c else o) (find_bucket l)
            ∙ ap (λ (x : Bool). if x then some c else find_first key_of l) (sym q)
        | inr e ↦
            ap (find_first match_of) (elsewhere cbs b c l e)
            ∙ find_bucket l
            ∙ sym (first_none key_of c l (not_key c e))
      ]

-- What is done to a table while the fields of its blocks stay.
pub data Op : Type 0 where
  add delete : ℕ → Op

unfoldable pub run : List Op → Table → Table
run [] t = t
run (add c ∷ ops) t = run ops (tlkp_add_cb (some c) t).0
run (delete c ∷ ops) t = run ops (tlkp_delete_cb (some c) t).0

-- The same on the list of the blocks.
unfoldable pub listed : List Op → List ℕ → List ℕ
listed [] l = l
listed (add c ∷ ops) l = listed ops (c ∷ l)
listed (delete c ∷ ops) l = listed ops (remove c l)

pub run-IsTable :
    (ops : List Op) (t : Table) (l : List ℕ) → IsTable t l → IsTable (run ops t) (listed ops l)
unfolding run listed
run-IsTable [] t l i = i
run-IsTable (add c ∷ ops) t l i = run-IsTable ops _ (c ∷ l) (add-IsTable c t l i)
run-IsTable (delete c ∷ ops) t l i = run-IsTable ops _ (remove c l) (delete-IsTable c t l i)

run_cbs : (ops : List Op) (t : Table) → (run ops t).cbs ≡ t.cbs
unfolding run tlkp_add_cb tlkp_delete_cb
run_cbs [] t = refl
run_cbs (add c ∷ ops) t = run_cbs ops (tlkp_add_cb (some c) t).0
run_cbs (delete c ∷ ops) t = run_cbs ops (tlkp_delete_cb (some c) t).0

-- A search in a table that holds a list of blocks.
pub find-listed :
    (t : Table) (l : List ℕ) (k : Key)
    → IsTable t l
    → k.phys_port < 4096
    → ((c : ℕ) → (t.cbs c).l4cb_interface < 4096)
    → tlkp_find_v4_cb k t ≡ find_first (λ c. has_key k (t.cbs c)) l
unfolding tlkp_find_v4_cb
find-listed t l k i h g =
    ap (find_first (λ c. is_match k (t.cbs c))) (i.holds (bucket_of_key k))
    ∙ find_bucket t.cbs k h g l

-- A block is added when it is not in the table, and deleted when it is: otherwise the links of the lists
-- of the source would be ruined.
unfoldable pub AreProper : List Op → List ℕ → Type 0
AreProper [] l = Unit
AreProper (add c ∷ ops) l = (occ c l ≡ 0) × AreProper ops (c ∷ l)
AreProper (delete c ∷ ops) l = (occ c l ≡ 1) × AreProper ops (remove c l)

added_once : (c d : ℕ) (l : List ℕ) → occ c l ≡ 0 → occ d l ≤ 1 → occ d (c ∷ l) ≤ 1
unfolding occ
added_once c d l h g = ground arith

listed_once :
    (ops : List Op) (l : List ℕ)
    → AreProper ops l
    → ((d : ℕ) → occ d l ≤ 1)
    → (d : ℕ) → occ d (listed ops l) ≤ 1
unfolding AreProper listed
listed_once [] l p h d = h d
listed_once (add c ∷ ops) l p h d = listed_once ops (c ∷ l) p.1 (λ x. added_once c x l p.0 (h x)) d
listed_once (delete c ∷ ops) l p h d =
    listed_once ops (remove c l) p.1 (λ x. ground (arith, occ-remove x c l, h x)) d

in_bucket_le : (cbs : ℕ → Cb) (b d : ℕ) (l : List ℕ) → occ d (in_bucket cbs b l) ≤ occ d l
unfolding in_bucket occ
in_bucket_le cbs b d [] = omega arith
in_bucket_le cbs b d (c ∷ l) = ground (arith, in_bucket_le cbs b d l)

-- However blocks were added and deleted, each added when it is not in the table and deleted when it is,
-- while their fields stay and ports are below 4096: a search finds the newest block of the list of those
-- that are there that has the key, and no block is twice in a bucket.
pub find-run :
    (cbs : ℕ → Cb) (ops : List Op) (k : Key)
    → AreProper ops []
    → k.phys_port < 4096
    → ((c : ℕ) → (cbs c).l4cb_interface < 4096)
    → (tlkp_find_v4_cb k (run ops (tlkp_tcp_lcore_init cbs))
        ≡ find_first (λ c. has_key k (cbs c)) (listed ops []))
      × ((b d : ℕ) → occ d ((run ops (tlkp_tcp_lcore_init cbs)).buckets b) ≤ 1)
unfolding tlkp_tcp_lcore_init in_bucket occ
find-run cbs ops k proper h g =
    let t = tlkp_tcp_lcore_init cbs in
    let u = run ops t in
    let e : u.cbs ≡ cbs = run_cbs ops t in
    let i = run-IsTable ops t [] (record { holds = λ b. refl }) in
    (
      find-listed u (listed ops []) k i h (rw e g)
          ∙ ap (λ (store : ℕ → Cb). find_first (λ c. has_key k (store c)) (listed ops [])) e,
      λ b d.
          let once = listed_once ops [] proper (λ x. omega arith) d in
          let held = ap (occ d) (i.holds b) in
          omega (arith, once, held, in_bucket_le u.cbs b d (listed ops [])),
    )
