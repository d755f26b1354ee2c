-- ===== src/Lookup/Walk.antt =====
-- The walk over the blocks of a port, tlkp_walk_v4 (inc/tpg_lookup.h).
use warp.Prelude.{
  ℕ, zero, suc, Bool, true, false, List, [], ◌∷◌, ◌+◌, ◌*◌, ◌%◌, ◌&&◌, ◌<◌, ◌≡◌, refl, ap, ◌∙◌, ltb,
  leb, ◌==◌, if◌then◌else◌, Bool-cases, inl, inr, occ, one_if, arith,
}
use warp.Prelude.Outcome.{if_true, if_false}
use warp.Lookup.{Cb, Table, bucket_of, bucket_size, word_32, tlkp_get_hash_bucket, hash_mod}
use warp.Lookup.Refine.{IsTable, in_bucket, eq_of}

-- A callback changes a state of its own, and tells whether to go on.
module _ {S : Type 0} (callback : ℕ → S → S × Bool) where
  -- The while loop, which takes the next block before the callback.
  unfoldable pub walk_chain : List ℕ → S → S × Bool
  walk_chain [] s = (s, true)
  walk_chain (c ∷ cs) s =
      let called = callback c s in
      let rest = walk_chain cs called.0 in if called.1 then rest else (called.0, false)

  -- The for loop over that many buckets.
  unfoldable pub walk_buckets : ℕ → ℕ → (ℕ → List ℕ) → S → S
  walk_buckets zero b buckets s = s
  walk_buckets (suc n) b buckets s =
      let walked = walk_chain (buckets b) s in
      let rest = walk_buckets n (suc b) buckets walked.0 in if walked.1 then rest else walked.0

  unfoldable pub tlkp_walk_v4 : (phys_port : ℕ) → Table → S → S
  tlkp_walk_v4 phys_port t s =
      walk_buckets bucket_size ((phys_port * bucket_size) % word_32) t.buckets s

-- A callback that notes the blocks and never stops, the latest first.
unfoldable pub note : ℕ → List ℕ → List ℕ × Bool
note c seen = (c ∷ seen, true)

bucket-seen :
    (d : ℕ) (cs seen : List ℕ)
    → (occ d (walk_chain note cs seen).0 ≡ occ d cs + occ d seen)
      × ((walk_chain note cs seen).1 ≡ true)
unfolding walk_chain note occ
bucket-seen d [] seen = (omega arith, refl)
bucket-seen d (c ∷ cs) seen = let i = bucket-seen d cs (c ∷ seen) in (omega (arith, i.0), i.1)

counted :
    (x y : Bool) (n : ℕ)
    → (y ≡ true → x ≡ true)
    → one_if y + (if x then n else 0) ≡ (if x then one_if y + n else 0)
counted true y n h = refl
counted false true n h = cc (h refl)
counted false false n h = refl

not_counted :
    (x y : Bool) (n : ℕ)
    → (y ≡ true → x ≡ false)
    → (if x then n else 0) ≡ (if x then one_if y + n else 0)
not_counted true true n h = cc (h refl)
not_counted true false n h = omega arith
not_counted false y n h = refl

in_bucket-occ :
    (cbs : ℕ → Cb) (b d : ℕ) (l : List ℕ)
    → occ d (in_bucket cbs b l) ≡ (if bucket_of (cbs d) == b then occ d l else 0)
unfolding in_bucket occ
in_bucket-occ cbs b d [] = ground arith
in_bucket-occ cbs b d (c ∷ l) =
    let x = bucket_of (cbs d) == b in
    let same_place : (d == c) ≡ true → x ≡ (bucket_of (cbs c) == b) =
      λ e. ap (λ (k : ℕ). bucket_of (cbs k) == b) (eq_of d c e) in
    let rest = in_bucket-occ cbs b d l in
    elim (Bool-cases (bucket_of (cbs c) == b)) [
      | inl h ↦
          ap (occ d) (if_true _ (c ∷ in_bucket cbs b l) (in_bucket cbs b l) h)
          ∙ ap (λ (n : ℕ). one_if (d == c) + n) rest
          ∙ counted x (d == c) (occ d l) (λ e. same_place e ∙ h)
      | inr h ↦
          ap (occ d) (if_false _ (c ∷ in_bucket cbs b l) (in_bucket cbs b l) h)
          ∙ rest
          ∙ not_counted x (d == c) (occ d l) (λ e. same_place e ∙ h)
    ]

abbrev within : ℕ → ℕ → ℕ → Bool
within b n i = leb b i && ltb i (b + n)

one_more :
    (b n i o : ℕ)
    → (if within (suc b) n i then o else 0) + (if i == b then o else 0)
      ≡ (if within b (suc n) i then o else 0)
one_more b n i o = ground arith

none_within : (b i o s : ℕ) → s ≡ (if within b 0 i then o else 0) + s
none_within b i o s = ground arith

buckets-seen :
    (t : Table) (l : List ℕ) (d n b : ℕ) (seen : List ℕ)
    → IsTable t l
    → occ d (walk_buckets note n b t.buckets seen)
      ≡ (if within b n (bucket_of (t.cbs d)) then occ d l else 0) + occ d seen
unfolding walk_buckets
buckets-seen t l d zero b seen i = none_within b (bucket_of (t.cbs d)) (occ d l) (occ d seen)
buckets-seen t l d (suc n) b seen i =
    let walked = (walk_chain note (t.buckets b) seen).0 in
    let one = bucket-seen d (t.buckets b) seen in
    let held = ap (occ d) (i.holds b) ∙ in_bucket-occ t.cbs b d l in
    let rest = buckets-seen t l d n (suc b) walked i in
    let more = one_more b n (bucket_of (t.cbs d)) (occ d l) in
    ap (occ d) (if_true _ (walk_buckets note n (suc b) t.buckets walked) walked one.1)
    ∙ omega (arith, one.0, held, rest, more)

port_within :
    (p q h o : ℕ)
    → p < 4096
    → q < 4096
    → (if within ((p * bucket_size) % word_32) bucket_size (tlkp_get_hash_bucket q h) then o else 0)
      ≡ (if q == p then o else 0)
unfolding tlkp_get_hash_bucket hash_mod
port_within p q h o small_p small_q = ground arith

-- A walk over a port meets each of its blocks, as often as it is in the table, and no others.
pub walk-seen :
    (t : Table) (l : List ℕ) (phys_port d : ℕ)
    → IsTable t l
    → phys_port < 4096
    → (t.cbs d).l4cb_interface < 4096
    → occ d (tlkp_walk_v4 note phys_port t [])
      ≡ (if (t.cbs d).l4cb_interface == phys_port then occ d l else 0)
unfolding tlkp_walk_v4 bucket_of occ
walk-seen t l phys_port d i h g =
    let b = (phys_port * bucket_size) % word_32 in
    let n = bucket_size in
    let seen = buckets-seen t l d n b [] i in
    let ours =
      port_within phys_port (t.cbs d).l4cb_interface (t.cbs d).l4cb_rx_hash (occ d l) h g in
    seen ∙ omega (arith, ours)
