-- ===== src/Raw/Pieces.antt =====
-- A message that a raw session receives in pieces, as TCP delivers it: `raw_client_deliver_data` and
-- `raw_server_deliver_data` of src/appl/tpg_test_raw_app.c, one call for each piece.
use warp.Prelude.{
  ℕ, true, false, List, [], ◌∷◌, ◌++◌, ◌+◌, ◌-◌, ◌%◌, ◌≤◌, ◌<◌, ◌≡◌, ◌⊎◌, inl, inr, refl, sym, ap,
  ◌∙◌, leb, if◌then◌else◌, Bool-cases, arith,
}
use warp.Prelude.Outcome.{if_true, if_false}
use warp.Raw.{RawApp, Raw, RxData, word_16}
use warp.Raw.Session.{
  count_req, count_resp, is_receiving, note_latency, take_in, at_start, clamp, raw_deliver_data,
  is_received, answer, received, raw_client_deliver_data, raw_server_deliver_data, raw_goto_state,
}

-- The two sides of a conversation.
pub data Side : Type 0 where
  client server : Side

unfoldable pub deliver_data : Side → RxData → ℕ → Raw → Raw × ℕ
deliver_data client = raw_client_deliver_data
deliver_data server = raw_server_deliver_data

abbrev pub count : Side → Raw → Raw
count client = count_resp
count server = count_req

-- The pieces, each with the time it came in.
unfoldable pub deliver_all : Side → List (RxData × ℕ) → Raw → Raw
deliver_all side [] r = r
deliver_all side (p ∷ ps) r = deliver_all side ps (deliver_data side p.0 p.1 r).0

unfoldable pub total : List (RxData × ℕ) → ℕ
total [] = 0
total (p ∷ ps) = p.0.pkt_len + total ps

-- The latency that the first piece brings.
unfoldable pub stamped : List (RxData × ℕ) → Raw → Raw
stamped [] r = r
stamped (p ∷ ps) r = if at_start r.app then note_latency p.0 p.1 r else r

-- The first piece holds the time stamp.
unfoldable pub HoldsStamp : List (RxData × ℕ) → RawApp → Type 0
HoldsStamp [] a = Unit
HoldsStamp (p ∷ ps) a = a.ra_rx_tstamp_size ≤ p.0.pkt_len

pub note_latency_app : (m : RxData) (t : ℕ) (r : Raw) → (note_latency m t r).app ≡ r.app
unfolding note_latency
note_latency_app m t r = ground arith

pub stamped_app : (ps : List (RxData × ℕ)) (r : Raw) → (stamped ps r).app ≡ r.app
unfolding stamped
stamped_app [] r = refl
stamped_app (p ∷ ps) r = elim (Bool-cases (at_start r.app)) [
  | inl h ↦
      ap (λ (s : Raw). s.app) (if_true (at_start r.app) (note_latency p.0 p.1 r) r h)
      ∙ note_latency_app p.0 p.1 r
  | inr h ↦ ap (λ (s : Raw). s.app) (if_false (at_start r.app) (note_latency p.0 p.1 r) r h)
]

not_received : (a : RawApp) → 0 < a.ra_remaining_count → is_received a ≡ false
unfolding is_received
not_received a h = ground arith

is_received_end :
    (a : RawApp) → a.ra_remaining_count ≡ 0 → 0 < a.ra_resp_size → is_received a ≡ true
unfolding is_received
is_received_end a h g = ground arith

clamp_below : (len rest : ℕ) → len ≤ rest → clamp len rest ≡ len
unfolding clamp
clamp_below len rest h = ground arith

clamp_above : (len rest : ℕ) → rest ≤ len → clamp len rest ≡ rest
unfolding clamp
clamp_above len rest h = ground arith

clamp_le : (n len rest : ℕ) → n ≤ len → n ≤ rest → n ≤ clamp len rest
unfolding clamp
clamp_le n len rest h g = ground arith

le_leb : (a b : ℕ) → a ≤ b → leb a b ≡ true
le_leb a b h = ground arith

clamp_rest : (len rest : ℕ) → clamp len rest ≤ rest
unfolding clamp
clamp_rest len rest = ground arith

-- A session with so many bytes less to come or to go, of those that are left.
unfoldable pub less : ℕ → Raw → Raw
less n r = record r { app = record r.app { ra_remaining_count = r.app.ra_remaining_count - n } }

-- Nothing wraps when no more is taken than is left.
pub take_in_lem :
    (n : ℕ) (r : Raw)
    → r.app.ra_remaining_count < word_16
    → n ≤ r.app.ra_remaining_count
    → take_in n r ≡ less n r
unfolding take_in less
take_in_lem n r h g =
    let e : (r.app.ra_remaining_count + word_16 - n % word_16) % word_16
        ≡ r.app.ra_remaining_count - n =
      omega arith in
    ap (λ (k : ℕ). record r { app = record r.app { ra_remaining_count = k } }) e

-- What is left after a delivery is never more than what was, and the 16 bits do not wrap.
pub take_in-clamp :
    (len : ℕ) (r : Raw)
    → r.app.ra_remaining_count < word_16
    → take_in (clamp len r.app.ra_remaining_count) r ≡ less (clamp len r.app.ra_remaining_count) r
take_in-clamp len r h =
    let rest = r.app.ra_remaining_count in take_in_lem (clamp len rest) r h (clamp_rest len rest)

raw_deliver_data-take_in :
    (m : RxData) (t : ℕ) (ps : List (RxData × ℕ)) (r : Raw) (n : ℕ)
    → is_receiving r.app.ra_state ≡ true
    → clamp m.pkt_len r.app.ra_remaining_count ≡ n
    → at_start r.app ≡ false ⊎ (r.app.ra_rx_tstamp_size ≤ n)
    → raw_deliver_data m t r ≡ (take_in n (stamped ((m, t) ∷ ps) r), m.pkt_len)
unfolding raw_deliver_data stamped
raw_deliver_data-take_in m t ps r n h c (inl e) = rw (h, e, c) refl
raw_deliver_data-take_in m t ps r n h c (inr g) = elim (Bool-cases (at_start r.app)) [
  | inl e ↦ rw (h, e, c, le_leb _ _ g) refl
  | inr e ↦ rw (h, e, c) refl
]

-- One delivery, with the time stamp complete when there is one.
raw_deliver_data_lem :
    (m : RxData) (t : ℕ) (ps : List (RxData × ℕ)) (r : Raw) (n : ℕ)
    → is_receiving r.app.ra_state ≡ true
    → r.app.ra_remaining_count < word_16
    → clamp m.pkt_len r.app.ra_remaining_count ≡ n
    → at_start r.app ≡ false ⊎ (r.app.ra_rx_tstamp_size ≤ n)
    → raw_deliver_data m t r ≡ (less n (stamped ((m, t) ∷ ps) r), m.pkt_len)
raw_deliver_data_lem m t ps r n h small c l =
    let s = stamped ((m, t) ∷ ps) r in
    let e = ap (λ (a : RawApp). a.ra_remaining_count) (stamped_app ((m, t) ∷ ps) r) in
    let rest = clamp_rest m.pkt_len r.app.ra_remaining_count in
    raw_deliver_data-take_in m t ps r n h c l
    ∙ ap (λ (x : Raw). (x, m.pkt_len))
        (take_in_lem n s (omega (arith, e, small)) (omega (arith, e, c, rest)))

-- A state in which a message of a size of 16 bits is received: what is left is part of it.
pub record IsReceiving (a : RawApp) : Type 0 where
  pub receiving : is_receiving a.ra_state ≡ true
  pub some_size : 0 < a.ra_resp_size
  pub part : a.ra_remaining_count ≤ a.ra_resp_size
  pub room : a.ra_rx_tstamp_size ≤ a.ra_resp_size
  pub small : a.ra_resp_size < word_16

remaining_small : (a : RawApp) → IsReceiving a → a.ra_remaining_count < word_16
remaining_small a i = let p = i.part in let q = i.small in omega arith

-- After the first piece no time stamp is looked for.
less-at_start :
    (len : ℕ) (r : Raw)
    → r.app.ra_remaining_count ≤ r.app.ra_resp_size
    → 0 < r.app.ra_remaining_count
    → at_start r.app ≡ false ⊎ (r.app.ra_rx_tstamp_size ≤ len)
    → at_start (less len r).app ≡ false
unfolding at_start less
less-at_start len r part some h = ground arith

pub less_split : (a b : ℕ) (r : Raw) → less b (less a r) ≡ less (a + b) r
unfolding less
less_split a b r =
    let e : r.app.ra_remaining_count - a - b ≡ r.app.ra_remaining_count - (a + b) = omega arith in
    ap (λ (n : ℕ). record r { app = record r.app { ra_remaining_count = n } }) e

less-IsReceiving : (len : ℕ) (r : Raw) → IsReceiving r.app → IsReceiving (less len r).app
unfolding less
less-IsReceiving len r i = record {
  receiving = i.receiving;
  some_size = i.some_size;
  part = let p = i.part in omega arith;
  room = i.room;
  small = i.small;
}

pub less_none : (r : Raw) → less 0 r ≡ r
unfolding less
less_none r =
    let e : r.app.ra_remaining_count - 0 ≡ r.app.ra_remaining_count = omega arith in
    ap (λ (n : ℕ). record r { app = record r.app { ra_remaining_count = n } }) e

pub less_left :
    (len : ℕ) (r : Raw) → (less len r).app.ra_remaining_count ≡ r.app.ra_remaining_count - len
unfolding less
less_left len r = refl

stamped-IsReceiving :
    (ps : List (RxData × ℕ)) (r : Raw) → IsReceiving r.app → IsReceiving (stamped ps r).app
stamped-IsReceiving ps r i = rw (stamped_app ps r) i

pub raw_side :
    (side : Side) (m : RxData) (t : ℕ) (r : Raw)
    → deliver_data side m t r
      ≡ (received (count side) (raw_deliver_data m t r).0, (raw_deliver_data m t r).1)
unfolding deliver_data raw_client_deliver_data raw_server_deliver_data
raw_side client m t r = refl
raw_side server m t r = refl

received_not : (side : Side) (r : Raw) → 0 < r.app.ra_remaining_count → received (count side) r ≡ r
unfolding received
received_not side r h = if_false _ _ _ (not_received r.app h)

received_end :
    (side : Side) (r : Raw)
    → r.app.ra_remaining_count ≡ 0
    → 0 < r.app.ra_resp_size
    → received (count side) r ≡ answer (count side r)
unfolding received
received_end side r h g = if_true _ _ _ (is_received_end r.app h g)

module _ (side : Side) (p : RxData × ℕ) (ps : List (RxData × ℕ)) (r : Raw)
    (i : IsReceiving r.app) where
  deliver_part :
      at_start r.app ≡ false ⊎ (r.app.ra_rx_tstamp_size ≤ p.0.pkt_len)
      → p.0.pkt_len < r.app.ra_remaining_count
      → deliver_data side p.0 p.1 r ≡ (less p.0.pkt_len (stamped (p ∷ ps) r), p.0.pkt_len)
  deliver_part l h =
      let e = ap (λ (a : RawApp). a.ra_remaining_count) (stamped_app (p ∷ ps) r) in
      let left = less_left p.0.pkt_len (stamped (p ∷ ps) r) in
      let c = clamp_below p.0.pkt_len r.app.ra_remaining_count (omega arith) in
      raw_side side p.0 p.1 r
      ∙ ap (λ (d : Raw × ℕ). (received (count side) d.0, d.1))
          (raw_deliver_data_lem p.0 p.1 ps r p.0.pkt_len i.receiving (remaining_small r.app i) c l)
      ∙ ap (λ (s : Raw). (s, p.0.pkt_len)) (received_not side _ (omega arith))

  -- The piece that ends the message, however much longer it is.
  deliver_end :
      at_start r.app ≡ false ⊎ (r.app.ra_rx_tstamp_size ≤ r.app.ra_remaining_count)
      → r.app.ra_remaining_count ≤ p.0.pkt_len
      → deliver_data side p.0 p.1 r
        ≡ (answer (count side (less r.app.ra_remaining_count (stamped (p ∷ ps) r))), p.0.pkt_len)
  deliver_end l h =
      let e = ap (λ (a : RawApp). a.ra_remaining_count) (stamped_app (p ∷ ps) r) in
      let left = less_left r.app.ra_remaining_count (stamped (p ∷ ps) r) in
      let c = clamp_above p.0.pkt_len r.app.ra_remaining_count h in
      let k =
        less-IsReceiving r.app.ra_remaining_count (stamped (p ∷ ps) r)
          (stamped-IsReceiving (p ∷ ps) r i) in
      raw_side side p.0 p.1 r
      ∙ ap (λ (d : Raw × ℕ). (received (count side) d.0, d.1))
          (raw_deliver_data_lem p.0 p.1 ps r r.app.ra_remaining_count i.receiving
            (remaining_small r.app i) c l)
      ∙ ap (λ (s : Raw). (s, p.0.pkt_len)) (received_end side _ (omega arith) k.some_size)

-- The pieces after the first, which bring no time stamp.
deliver_all_mid :
    (side : Side) (ps : List (RxData × ℕ)) (r : Raw)
    → IsReceiving r.app
    → at_start r.app ≡ false
    → total ps < r.app.ra_remaining_count
    → deliver_all side ps r ≡ less (total ps) r
unfolding deliver_all total stamped
deliver_all_mid side [] r i e h = sym (less_none r)
deliver_all_mid side (p ∷ ps) r i e h =
    let one : (deliver_data side p.0 p.1 r).0 ≡ less p.0.pkt_len r =
      ap (λ (d : Raw × ℕ). d.0) (deliver_part side p ps r i (inl e) (omega arith))
      ∙ ap (less p.0.pkt_len) (if_false (at_start r.app) (note_latency p.0 p.1 r) r e) in
    let left = less_left p.0.pkt_len r in
    ap (deliver_all side ps) one
    ∙ deliver_all_mid side ps (less p.0.pkt_len r) (less-IsReceiving p.0.pkt_len r i)
        (less-at_start p.0.pkt_len r i.part (omega arith) (inl e)) (omega arith)
    ∙ less_split p.0.pkt_len (total ps) r

-- What a session is left with by pieces that do not end the message.
pub deliver_all_part :
    (side : Side) (ps : List (RxData × ℕ)) (r : Raw)
    → IsReceiving r.app
    → HoldsStamp ps r.app
    → total ps < r.app.ra_remaining_count
    → deliver_all side ps r ≡ less (total ps) (stamped ps r)
unfolding deliver_all total HoldsStamp stamped
deliver_all_part side [] r i e h = sym (less_none r)
deliver_all_part side (p ∷ ps) r i e h =
    let first = stamped (p ∷ ps) r in
    let a = stamped_app (p ∷ ps) r in
    let k = stamped-IsReceiving (p ∷ ps) r i in
    let left = less_left p.0.pkt_len first in
    let same = ap (λ (a : RawApp). a.ra_remaining_count) a in
    let late : at_start first.app ≡ false ⊎ (first.app.ra_rx_tstamp_size ≤ p.0.pkt_len) =
      inr (rw a e) in
    ap (λ (d : Raw × ℕ). deliver_all side ps d.0) (deliver_part side p ps r i (inr e) (omega arith))
    ∙ deliver_all_mid side ps (less p.0.pkt_len first) (less-IsReceiving p.0.pkt_len first k)
        (less-at_start p.0.pkt_len first k.part (omega arith) late) (omega arith)
    ∙ less_split p.0.pkt_len (total ps) first

deliver_all-append :
    (side : Side) (ps : List (RxData × ℕ)) (p : RxData × ℕ) (r : Raw)
    → deliver_all side (ps ++ p ∷ []) r ≡ (deliver_data side p.0 p.1 (deliver_all side ps r)).0
unfolding deliver_all
deliver_all-append side [] p r = refl
deliver_all-append side (q ∷ ps) p r = deliver_all-append side ps p _

answer-less :
    (side : Side) (n : ℕ) (r : Raw) → answer (count side (less n r)) ≡ answer (count side r)
unfolding answer less raw_goto_state
answer-less client n r = refl
answer-less server n r = refl

start_fits :
    (a : RawApp)
    → a.ra_rx_tstamp_size ≤ a.ra_resp_size
    → at_start a ≡ false ⊎ (a.ra_rx_tstamp_size ≤ a.ra_remaining_count)
unfolding at_start
start_fits a h = ground arith

-- A message in pieces, the first of them with the whole time stamp, ends for a session that receives as
-- in one piece, whatever the last piece has beyond the end of the message.
pub deliver_all_whole :
    (side : Side) (ps : List (RxData × ℕ)) (p : RxData × ℕ) (r : Raw)
    → IsReceiving r.app
    → HoldsStamp (ps ++ p ∷ []) r.app
    → total ps < r.app.ra_remaining_count
    → r.app.ra_remaining_count ≤ total ps + p.0.pkt_len
    → deliver_all side (ps ++ p ∷ []) r ≡ answer (count side (stamped (ps ++ p ∷ []) r))
unfolding total HoldsStamp stamped deliver_all
deliver_all_whole side [] p r i e h g =
    ap (λ (d : Raw × ℕ). d.0) (deliver_end side p [] r i (start_fits r.app i.room) (omega arith))
    ∙ answer-less side r.app.ra_remaining_count _
deliver_all_whole side (q ∷ ps) p r i e h g =
    let first = stamped (q ∷ ps) r in
    let n = total (q ∷ ps) in
    let a = stamped_app (q ∷ ps) r in
    let k = stamped-IsReceiving (q ∷ ps) r i in
    let left = less_left n first in
    let same = ap (λ (a : RawApp). a.ra_remaining_count) a in
    let size : r.app.ra_rx_tstamp_size ≤ n = omega arith in
    let late : at_start first.app ≡ false ⊎ (first.app.ra_rx_tstamp_size ≤ n) = inr (rw a size) in
    let mid = less n first in
    let quiet = less-at_start n first k.part (omega arith) late in
    let stay = if_false (at_start mid.app) (note_latency p.0 p.1 mid) mid quiet in
    deliver_all-append side (q ∷ ps) p r
    ∙ ap (λ (s : Raw). (deliver_data side p.0 p.1 s).0) (deliver_all_part side (q ∷ ps) r i e h)
    ∙ ap (λ (d : Raw × ℕ). d.0)
        (deliver_end side p [] mid (less-IsReceiving n first k) (inl quiet) (omega arith))
    ∙ answer-less side mid.app.ra_remaining_count _
    ∙ ap (λ (s : Raw). answer (count side s)) stay
    ∙ answer-less side n first
