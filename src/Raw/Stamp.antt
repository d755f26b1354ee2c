-- ===== src/Raw/Stamp.antt =====
-- A part of a raw message with its time stamp: raw_prepend_tstamp and raw_send_data of
-- src/appl/tpg_test_raw_app.c.
use warp.Prelude.{
  ℕ, Bool, true, false, Option, none, some, List, [], ◌∷◌, ◌++◌, ◌+◌, ◌-◌, ◌≤◌, ◌<◌, ◌%◌, ◌&&◌, ◌≡◌,
  refl, sym, not, ltb, ◌==◌, if◌then◌else◌, length, arith, inl, inr, Bool-cases,
}
use warp.Prelude.Outcome.{Outcome, ok, fault, assert_false}
use warp.Raw.{RawApp, RawStats, Raw, tstamp_size, word_32}
use warp.Raw.Sent.{sum}
use warp.Raw.Chain.{Mbuf, Dpdk, data_chain_from_static_template, mbuf_of, data_chain_single}

-- The counters of the time stamps that are left out.
abbrev no_phys_addr : RawStats → RawStats
no_phys_addr st = record st {
  rsts_tstamp_no_phys_addr = (st.rsts_tstamp_no_phys_addr + 1) % word_32;
}

abbrev no_mbuf : RawStats → RawStats
no_mbuf st = record st { rsts_tstamp_no_mbuf = (st.rsts_tstamp_no_mbuf + 1) % word_32 }

abbrev no_win : RawStats → RawStats
no_win st = record st { rsts_tstamp_no_win = (st.rsts_tstamp_no_win + 1) % word_32 }

-- `tstamp_tx_pkt`: the two words of the time come after the magic.
abbrev tstamp_tx_pkt : Mbuf → Mbuf
tstamp_tx_pkt m = record m { tstamp = some (8, 8) }

-- The stamp before the text, whose end is trimmed; nothing of the text is left out otherwise.
unfoldable pub chained : Mbuf → Mbuf → Option (List ℕ) → RawStats → Outcome (Option Mbuf × RawStats)
chained stamp m none st = fault assert_false
chained stamp m (some segs) st = ok (
  some (record stamp {
    segs = stamp.segs ++ segs;
    pkt_len = stamp.pkt_len + (m.pkt_len - stamp.pkt_len);
    nb_segs = stamp.nb_segs + m.nb_segs;
  }),
  st,
)

unfoldable pub joined : Dpdk → Mbuf → Option Mbuf → RawStats → Outcome (Option Mbuf × RawStats)
joined dpdk m none st = ok (some m, no_mbuf st)
joined dpdk m (some t) st =
    if m.pkt_len == t.pkt_len
    then ok (some (tstamp_tx_pkt t), st)
    else chained (tstamp_tx_pkt t) m (dpdk.trim t.pkt_len m.segs) st

-- The start of a message is stamped when there is room for it.
unfoldable pub with_tstamp : Dpdk → Mbuf → RawStats → Outcome (Option Mbuf × RawStats)
with_tstamp dpdk m st =
    if not dpdk.phys_addr
    then ok (some m, no_phys_addr st)
    else if ltb m.pkt_len tstamp_size
    then ok (some m, no_win st)
    else joined dpdk m (data_chain_from_static_template dpdk tstamp_size m.nb_segs tstamp_size) st

unfoldable pub starts : RawApp → Bool
starts a = not (a.ra_tx_tstamp_size == 0) && (a.ra_req_size == a.ra_remaining_count)

unfoldable pub raw_prepend_tstamp :
    Dpdk → RawApp → RawStats → Option Mbuf → Outcome (Option Mbuf × RawStats)
raw_prepend_tstamp dpdk a st none = ok (none, st)
raw_prepend_tstamp dpdk a st (some m) = if starts a then with_tstamp dpdk m st else ok (some m, st)

-- GCFG_MBUF_PACKET_FRAGMENT_SIZE
abbrev pub template_size : ℕ
template_size = 2048

unfoldable pub to_send : RawApp → ℕ → ℕ
to_send a max_tx_size =
    if ltb a.ra_remaining_count max_tx_size then a.ra_remaining_count else max_tx_size

unfoldable pub raw_send_data : Dpdk → Raw → (max_tx_size : ℕ) → Outcome (Option Mbuf × RawStats)
raw_send_data dpdk r max_tx_size =
    raw_prepend_tstamp dpdk r.app r.stats
      (data_chain_from_static_template dpdk template_size 0 (to_send r.app max_tx_size))

-- A buffer for so many bytes.
pub record Holds (len : ℕ) (o : Outcome (Option Mbuf × RawStats)) : Type 0 where
  pub buf : Mbuf
  pub stats_of : RawStats
  pub sent : o ≡ ok (some buf, stats_of)
  pub whole : sum buf.segs ≡ len
  pub measured : buf.pkt_len ≡ len
  pub counted : buf.nb_segs ≡ length buf.segs

unfoldable text : ℕ → Mbuf
text n = mbuf_of (n ∷ []) n

plain-Holds : (n : ℕ) (st : RawStats) → Holds n (ok (some (text n), st))
unfolding text mbuf_of sum
plain-Holds n st = record {
  buf = text n;
  stats_of = st;
  sent = refl;
  whole = omega arith;
  measured = refl;
  counted = refl;
}

either :
    (n : ℕ) (b : Bool) (x y : Outcome (Option Mbuf × RawStats))
    → (b ≡ true → Holds n x)
    → (b ≡ false → Holds n y)
    → Holds n (if b then x else y)
either n true x y f g = f refl
either n false x y f g = g refl

eq_of_test : (a b : ℕ) → (a == b) ≡ true → a ≡ b
eq_of_test a b h = ground arith

le_of_test : (a b : ℕ) → ltb a b ≡ false → b ≤ a
le_of_test a b h = ground arith

module _ (dpdk : Dpdk) (free : (k : ℕ) → dpdk.alloc k ≡ true)
    -- `rte_pktmbuf_trim` takes bytes off the end of the last segment, when it has as many.
    (trims : (n s : ℕ) → n ≤ s → dpdk.trim n (s ∷ []) ≡ some ((s - n) ∷ [])) where
  chained-Holds :
      (n : ℕ) (st : RawStats)
      → tstamp_size ≤ n
      → Holds n
          (chained (tstamp_tx_pkt (text tstamp_size)) (text n) (dpdk.trim tstamp_size (n ∷ [])) st)
  unfolding chained text mbuf_of sum
  chained-Holds n st h = rw (trims tstamp_size n h) (record {
    buf = _;
    stats_of = st;
    sent = refl;
    whole = omega arith;
    measured = omega arith;
    counted = refl;
  })

  joined-Holds :
      (n : ℕ) (st : RawStats)
      → tstamp_size ≤ n
      → Holds n (joined dpdk (text n) (some (text tstamp_size)) st)
  unfolding joined text mbuf_of sum
  joined-Holds n st h = elim (Bool-cases (n == tstamp_size)) [
    | inl e ↦
        let same = eq_of_test n tstamp_size e in
        rw e (record {
          buf = tstamp_tx_pkt (text tstamp_size);
          stats_of = st;
          sent = refl;
          whole = omega arith;
          measured = sym same;
          counted = refl;
        })
    | inr e ↦ rw e (chained-Holds n st h)
  ]

  with_tstamp-Holds : (n : ℕ) (st : RawStats) → Holds n (with_tstamp dpdk (text n) st)
  unfolding with_tstamp text mbuf_of
  with_tstamp-Holds n st =
      let m = text n in
      let t : data_chain_from_static_template dpdk tstamp_size m.nb_segs tstamp_size
          ≡ some (text tstamp_size) =
        data_chain_single dpdk tstamp_size free m.nb_segs tstamp_size (omega arith) (omega arith) in
      either n (not dpdk.phys_addr) _ _ (λ p. plain-Holds n (no_phys_addr st))
        (λ p.
          either n (ltb m.pkt_len tstamp_size) _ _ (λ l. plain-Holds n (no_win st))
            (λ l. rw t (joined-Holds n st (le_of_test n tstamp_size l))))

  -- What is sent in one segment never meets the assert, and holds the bytes that it is to hold.
  pub raw_send_data-Holds :
      (r : Raw) (max_tx_size : ℕ)
      → 0 < to_send r.app max_tx_size
      → to_send r.app max_tx_size ≤ template_size
      → Holds (to_send r.app max_tx_size) (raw_send_data dpdk r max_tx_size)
  unfolding raw_send_data raw_prepend_tstamp text
  raw_send_data-Holds r max_tx_size h g =
      let n = to_send r.app max_tx_size in
      rw (data_chain_single dpdk template_size free 0 n h g) (
        either n (starts r.app) _ _ (λ e. with_tstamp-Holds n r.stats) (λ e. plain-Holds n r.stats))
