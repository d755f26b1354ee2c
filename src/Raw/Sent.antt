-- ===== src/Raw/Sent.antt =====
-- A message that a raw session sends in parts: `raw_client_data_sent` and `raw_server_data_sent` of
-- src/appl/tpg_test_raw_app.c, called by the transport for each part that it has taken.
use warp.Prelude.{
  ℕ, Bool, true, false, List, [], ◌∷◌, ◌++◌, ◌+◌, ◌≤◌, ◌<◌, ◌≡◌, refl, sym, ap, ◌∙◌, ◌==◌,
  if◌then◌else◌, arith,
}
use warp.Prelude.Outcome.{if_true, if_false}
use warp.Raw.{raws_receiving, Raw, word_16}
use warp.Raw.Session.{
  count_req, count_resp, send_stop, raw_goto_state, take_in, raw_data_sent, request_sent,
  raw_client_data_sent, raw_server_data_sent,
}
use warp.Raw.Pieces.{Side, client, server, less, take_in_lem, less_left, less_none, less_split}

unfoldable pub data_sent : Side → ℕ → Raw → Raw × Bool
data_sent client = raw_client_data_sent
data_sent server = raw_server_data_sent

-- What each side does when its message is sent in full.
unfoldable pub all_sent : Side → Raw → Raw
all_sent client r = request_sent (count_req r)
all_sent server r = raw_goto_state raws_receiving r.app.ra_resp_size (send_stop (count_resp r))

unfoldable pub send_all : Side → List ℕ → Raw → Raw
send_all side [] r = r
send_all side (n ∷ ns) r = send_all side ns (data_sent side n r).0

unfoldable pub sum : List ℕ → ℕ
sum [] = 0
sum (n ∷ ns) = n + sum ns

-- The subtraction is that of a delivery, and does not go below 0 when no more is sent than was left.
pub raw_data_sent_lem :
    (n : ℕ) (r : Raw)
    → r.app.ra_remaining_count < word_16
    → n ≤ r.app.ra_remaining_count
    → raw_data_sent n r ≡ less n r
unfolding raw_data_sent take_in
raw_data_sent_lem n r h g =
    let same : raw_data_sent n r ≡ take_in n r = refl in same ∙ take_in_lem n r h g

ne_eq : (n : ℕ) → 0 < n → (n == 0) ≡ false
ne_eq n h = ground arith

eq_eq : (n : ℕ) → n ≡ 0 → (n == 0) ≡ true
eq_eq n h = ground arith

-- Both sides do the same after the count.
unfoldable pub after : Side → Raw → Raw × Bool
after side s = if s.app.ra_remaining_count == 0 then (all_sent side s, true) else (s, false)

pub data_sent-after :
    (side : Side) (n : ℕ) (r : Raw) → data_sent side n r ≡ after side (raw_data_sent n r)
unfolding data_sent raw_client_data_sent raw_server_data_sent all_sent after
data_sent-after client n r = refl
data_sent-after server n r = refl

module _ (side : Side) (n : ℕ) (r : Raw) (small : r.app.ra_remaining_count < word_16) where
  data_sent_part : n < r.app.ra_remaining_count → data_sent side n r ≡ (less n r, false)
  unfolding after
  data_sent_part h =
      let left = less_left n r in
      let e = raw_data_sent_lem n r small (omega arith) in
      data_sent-after side n r
      ∙ ap (after side) e
      ∙ if_false _ _ _ (ne_eq (less n r).app.ra_remaining_count (omega arith))

  data_sent_end :
      n ≡ r.app.ra_remaining_count → data_sent side n r ≡ (all_sent side (less n r), true)
  unfolding after
  data_sent_end h =
      let left = less_left n r in
      let e = raw_data_sent_lem n r small (omega arith) in
      data_sent-after side n r
      ∙ ap (after side) e
      ∙ if_true _ _ _ (eq_eq (less n r).app.ra_remaining_count (omega arith))

send_all_part :
    (side : Side) (ns : List ℕ) (r : Raw)
    → r.app.ra_remaining_count < word_16
    → sum ns < r.app.ra_remaining_count
    → send_all side ns r ≡ less (sum ns) r
unfolding send_all sum
send_all_part side [] r h g = sym (less_none r)
send_all_part side (n ∷ ns) r h g =
    let left = less_left n r in
    ap (λ (d : Raw × Bool). send_all side ns d.0) (data_sent_part side n r h (omega arith))
    ∙ send_all_part side ns (less n r) (omega arith) (omega arith)
    ∙ less_split n (sum ns) r

send_all-append :
    (side : Side) (ns : List ℕ) (n : ℕ) (r : Raw)
    → send_all side (ns ++ n ∷ []) r ≡ (data_sent side n (send_all side ns r)).0
unfolding send_all
send_all-append side [] n r = refl
send_all-append side (k ∷ ns) n r = send_all-append side ns n _

all_sent-less : (side : Side) (n : ℕ) (r : Raw) → all_sent side (less n r) ≡ all_sent side r
unfolding all_sent request_sent less raw_goto_state
all_sent-less client n r = refl
all_sent-less server n r = refl

-- A message sent in parts ends as one that is sent at once.
pub send_all_whole :
    (side : Side) (ns : List ℕ) (n : ℕ) (r : Raw)
    → r.app.ra_remaining_count < word_16
    → sum ns < r.app.ra_remaining_count
    → sum ns + n ≡ r.app.ra_remaining_count
    → send_all side (ns ++ n ∷ []) r ≡ all_sent side r
send_all_whole side ns n r h g e =
    let left = less_left (sum ns) r in
    send_all-append side ns n r
    ∙ ap (λ (s : Raw). (data_sent side n s).0) (send_all_part side ns r h g)
    ∙ ap (λ (d : Raw × Bool). d.0)
        (data_sent_end side n (less (sum ns) r) (omega arith) (omega arith))
    ∙ all_sent-less side n _
    ∙ all_sent-less side (sum ns) r
