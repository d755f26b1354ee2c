-- ===== src/Raw/Chain.antt =====
-- The buffers that a raw session sends: data_chain_from_static_template (inc/tpg_data.h), and
-- raw_send_data with raw_prepend_tstamp (src/appl/tpg_test_raw_app.c).
use warp.Prelude.{
  ℕ, zero, suc, Bool, true, false, Option, none, some, List, [], ◌∷◌, ◌+◌, ◌-◌, ◌≤◌, ◌<◌, ◌≡◌, refl,
  ap, ◌∙◌, not, leb, ◌==◌, if◌then◌else◌, length, arith, inl, inr, Bool-cases,
}
use warp.Prelude.Outcome.{if_true, if_false}
use warp.Raw.Sent.{sum}

-- A chain of segments, by their lengths, and the mark for the time stamp: its offset and size.
pub record Mbuf : Type 0 where
  pub segs : List ℕ
  pub pkt_len : ℕ
  pub nb_segs : ℕ
  pub tstamp : Option (ℕ × ℕ)

-- What DPDK answers: `alloc k` says that the k-th allocation of a run succeeds, `trim n` what
-- `rte_pktmbuf_trim` makes of the segments, and `phys_addr` that the address of the control block is
-- known.
pub record Dpdk : Type 0 where
  pub alloc : ℕ → Bool
  pub trim : ℕ → List ℕ → Option (List ℕ)
  pub phys_addr : Bool

unfoldable pub mbuf_of : List ℕ → ℕ → Mbuf
mbuf_of segs len = record { segs = segs; pkt_len = len; nb_segs = length segs; tstamp = none }

unfoldable pub chain_of : ℕ → Option (List ℕ) → Option Mbuf
chain_of len none = none
chain_of len (some segs) = some (mbuf_of segs len)

-- A segment before the others, if they are there.
unfoldable pub put : ℕ → Option (List ℕ) → Option (List ℕ)
put n none = none
put n (some segs) = some (n ∷ segs)

module _ (dpdk : Dpdk) (template_len : ℕ) where
  -- The last segment, when there is something left.
  unfoldable pub last_seg : ℕ → ℕ → Option (List ℕ)
  last_seg k data_len =
      if data_len == 0 then some [] else if dpdk.alloc k then some (data_len ∷ []) else none

  -- The do loop on fuel, with the first buffer there; each turn takes off a template.
  unfoldable pub fill : ℕ → ℕ → ℕ → Option (List ℕ)
  fill zero k data_len = none
  fill (suc fuel) k data_len =
      let left = data_len - template_len in
      let rest = fill fuel (suc k) left in
      put template_len
        (if leb template_len left then (if dpdk.alloc k then rest else none) else last_seg k left)

  -- `data_chain_from_static_template`, from the k-th allocation on.
  unfoldable pub data_chain_from_static_template : ℕ → ℕ → Option Mbuf
  data_chain_from_static_template k data_len =
      let chain = fill data_len (suc k) data_len in
      if data_len == 0
      then none
      else if not (dpdk.alloc k)
      then none
      else if leb data_len template_len
      then some (mbuf_of (data_len ∷ []) data_len)
      else chain_of data_len chain

unfoldable pub AllAtMost : ℕ → List ℕ → Type 0
AllAtMost n [] = Unit
AllAtMost n (k ∷ ks) = (k ≤ n) × AllAtMost n ks

-- Segments for a text of `len` bytes, none longer than the template.
pub record AreSegs (template_len len : ℕ) (o : Option (List ℕ)) : Type 0 where
  pub segs : List ℕ
  pub there : o ≡ some segs
  pub whole : sum segs ≡ len
  pub each : AllAtMost template_len segs

leb_le : (a b : ℕ) → leb a b ≡ true → a ≤ b
leb_le a b h = ground arith

leb_lt : (a b : ℕ) → leb a b ≡ false → b < a
leb_lt a b h = ground arith

le_leb : (a b : ℕ) → a ≤ b → leb a b ≡ true
le_leb a b h = ground arith

suc_ne : (n : ℕ) → (suc n == 0) ≡ false
suc_ne n = ground arith

put-AreSegs :
    (n len whole : ℕ) (o : Option (List ℕ))
    → n + len ≡ whole
    → AreSegs n len o
    → AreSegs n whole (put n o)
unfolding put sum AllAtMost
put-AreSegs n len whole o e a = record {
  segs = n ∷ a.segs;
  there = ap (put n) a.there;
  whole = ap (λ (k : ℕ). n + k) a.whole ∙ e;
  each = (omega arith, a.each);
}

module _ (dpdk : Dpdk) (template_len : ℕ) (some_len : 0 < template_len)
    (free : (k : ℕ) → dpdk.alloc k ≡ true) where
  last_seg_total :
      (k data_len : ℕ)
      → data_len < template_len
      → AreSegs template_len data_len (last_seg dpdk template_len k data_len)
  unfolding last_seg sum AllAtMost
  last_seg_total k zero h = record { segs = []; there = refl; whole = refl; each = tt }
  last_seg_total k (suc n) h = record {
    segs = suc n ∷ [];
    there = if_false _ _ _ (suc_ne n) ∙ if_true _ _ _ (free k);
    whole = omega arith;
    each = (omega arith, tt);
  }

  -- The fuel of one turn for each byte is enough.
  fill_total :
      (fuel k data_len : ℕ)
      → data_len ≤ fuel
      → template_len ≤ data_len
      → AreSegs template_len data_len (fill dpdk template_len fuel k data_len)
  unfolding fill
  fill_total zero k data_len h g = absurd (omega (arith, some_len))
  fill_total (suc fuel) k data_len h g =
      let left = data_len - template_len in
      let rest = fill dpdk template_len fuel (suc k) left in
      let e : template_len + left ≡ data_len = omega arith in
      put-AreSegs template_len left data_len _ e (elim (Bool-cases (leb template_len left)) [
        | inl b ↦
            let more = fill_total fuel (suc k) left (omega arith) (leb_le template_len left b) in
            rw (b, free k) more
        | inr b ↦ rw b (last_seg_total k left (leb_lt template_len left b))
      ])

-- A chain that holds a text of that length, in segments of at most a template.
pub record IsChain (template_len len : ℕ) (m : Mbuf) : Type 0 where
  pub whole : sum m.segs ≡ len
  pub counted : m.nb_segs ≡ length m.segs
  pub measured : m.pkt_len ≡ len
  pub each : AllAtMost template_len m.segs

-- A text that fits a template is one segment of it.
pub data_chain_single :
    (dpdk : Dpdk) (template_len : ℕ)
    → ((k : ℕ) → dpdk.alloc k ≡ true)
    → (k data_len : ℕ) → 0 < data_len
    → data_len ≤ template_len
    → data_chain_from_static_template dpdk template_len k data_len
      ≡ some (mbuf_of (data_len ∷ []) data_len)
unfolding data_chain_from_static_template
data_chain_single dpdk template_len free k zero h g = elim h [ ]
data_chain_single dpdk template_len free k (suc n) h g =
    if_false _ _ _ (suc_ne n)
    ∙ if_false _ _ _ (ap not (free k))
    ∙ if_true _ _ _ (le_leb (suc n) template_len g)

-- With buffers in the pool, a text is put into a chain that holds it.
pub text-IsChain :
    (dpdk : Dpdk) (template_len : ℕ)
    → 0 < template_len
    → ((k : ℕ) → dpdk.alloc k ≡ true)
    → (k data_len : ℕ) → 0 < data_len
    → (m : Mbuf) × (data_chain_from_static_template dpdk template_len k data_len ≡ some m)
      × IsChain template_len data_len m
unfolding data_chain_from_static_template mbuf_of chain_of sum AllAtMost
text-IsChain dpdk template_len some_len free k zero h = elim h [ ]
text-IsChain dpdk template_len some_len free k (suc n) h =
    elim (Bool-cases (leb (suc n) template_len)) [
      | inl e ↦
          let le = leb_le (suc n) template_len e in
          (
            mbuf_of (suc n ∷ []) (suc n),
            if_false _ _ _ (suc_ne n) ∙ if_false _ _ _ (ap not (free k)) ∙ if_true _ _ _ e,
            record { whole = omega arith; counted = refl; measured = refl; each = (le, tt) },
          )
      | inr e ↦
          let lt = leb_lt (suc n) template_len e in
          let a =
            fill_total dpdk template_len some_len free (suc n) (suc k) (suc n) (omega arith)
              (omega arith) in
          (
            mbuf_of a.segs (suc n),
            if_false _ _ _ (suc_ne n)
                ∙ if_false _ _ _ (ap not (free k))
                ∙ if_false _ _ _ e
                ∙ ap (chain_of (suc n)) a.there,
            record { whole = a.whole; counted = refl; measured = refl; each = a.each },
          )
    ]
