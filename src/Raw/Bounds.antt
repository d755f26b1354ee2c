-- ===== src/Raw/Bounds.antt =====
-- What is left of a message is a part of it, and the 16 bits of it do not wrap: the callbacks of
-- src/appl/tpg_test_raw_app.c in any order.
use warp.Prelude.{
  ℕ, Bool, true, false, not, leb, ◌==◌, if◌then◌else◌, ◌∙◌, List, [], ◌∷◌, ◌≤◌, ◌<◌, ◌≡◌, refl, sym,
  ap, arith,
}
use warp.Raw.{raws_sending, raws_receiving, RawApp, Raw, RxData, word_16}
use warp.Raw.Session.{
  raw_client_deliver_data, raw_server_deliver_data, raw_client_data_sent, raw_server_data_sent,
  count_req, count_resp, take_in, note_latency, clamp, at_start, raw_deliver_data, is_received,
  answer, received, send_start, send_stop, is_receiving, raw_goto_state, request_sent,
  raw_client_conn_up, raw_server_conn_up,
}
use warp.Raw.Pieces.{
  Side, client, server, count, deliver_data, raw_side, note_latency_app, less, take_in-clamp,
}
use warp.Raw.Sent.{data_sent, after, data_sent-after, raw_data_sent_lem, all_sent}

-- The size of the message that a session is at.
unfoldable pub expected : RawApp → ℕ
expected a = elim a.ra_state [ raws_sending ↦ a.ra_req_size | raws_receiving ↦ a.ra_resp_size ]

pub record IsRaw (a : RawApp) : Type 0 where
  pub part : a.ra_remaining_count ≤ expected a
  pub small_req : a.ra_req_size < word_16
  pub small_resp : a.ra_resp_size < word_16

pub data Call : Type 0 where
  conn_up : Call
  deliver : RxData → ℕ → Call
  sent : ℕ → Call

-- The transport reports no more bytes as sent than were left to send.
unfoldable pub Allowed : Call → RawApp → Type 0
Allowed conn_up a = Unit
Allowed (deliver m t) a = Unit
Allowed (sent n) a = n ≤ a.ra_remaining_count

unfoldable pub call : Side → Call → Raw → Raw
call client conn_up r = raw_client_conn_up r
call server conn_up r = raw_server_conn_up r
call client (deliver m t) r = (raw_client_deliver_data m t r).0
call server (deliver m t) r = (raw_server_deliver_data m t r).0
call client (sent n) r = (raw_client_data_sent n r).0
call server (sent n) r = (raw_server_data_sent n r).0

goto_sending : (r : Raw) → IsRaw r.app → IsRaw (raw_goto_state raws_sending r.app.ra_req_size r).app
unfolding expected raw_goto_state
goto_sending r i = record { part = omega arith; small_req = i.small_req; small_resp = i.small_resp }

goto_receiving :
    (r : Raw) → IsRaw r.app → IsRaw (raw_goto_state raws_receiving r.app.ra_resp_size r).app
unfolding expected raw_goto_state
goto_receiving r i = record {
  part = omega arith;
  small_req = i.small_req;
  small_resp = i.small_resp;
}

less-IsRaw : (n : ℕ) (r : Raw) → IsRaw r.app → IsRaw (less n r).app
unfolding expected less
less-IsRaw n r i =
    let p = i.part in
    record { part = omega arith; small_req = i.small_req; small_resp = i.small_resp }

-- A test between two states that both keep it.
either : (b : Bool) (x y : Raw) → IsRaw x.app → IsRaw y.app → IsRaw (if b then x else y).app
either true x y h g = h
either false x y h g = g

answer-IsRaw : (r : Raw) → IsRaw r.app → IsRaw (answer r).app
unfolding answer
answer-IsRaw r i =
    either (r.app.ra_req_size == 0) _ _ (goto_receiving r i) (goto_sending (send_start r) i)

received-IsRaw : (side : Side) (r : Raw) → IsRaw r.app → IsRaw (received (count side) r).app
unfolding received
received-IsRaw client r i = either (is_received r.app) _ _ (answer-IsRaw (count_resp r) i) i
received-IsRaw server r i = either (is_received r.app) _ _ (answer-IsRaw (count_req r) i) i

note_latency-IsRaw : (m : RxData) (t : ℕ) (r : Raw) → IsRaw r.app → IsRaw (note_latency m t r).app
note_latency-IsRaw m t r i = rw (note_latency_app m t r) i

either_pair :
    (b : Bool) (x y : Raw × ℕ) → IsRaw x.0.app → IsRaw y.0.app → IsRaw (if b then x else y).0.app
either_pair true x y h g = h
either_pair false x y h g = g

expected_small : (a : RawApp) → IsRaw a → expected a < word_16
unfolding expected
expected_small a i = let p = i.small_req in let q = i.small_resp in ground arith

-- A delivery takes no more than what is left, however long the packet is.
delivered-IsRaw :
    (len rest : ℕ) (r : Raw)
    → r.app.ra_remaining_count ≡ rest
    → IsRaw r.app
    → IsRaw (take_in (clamp len rest) r).app
delivered-IsRaw len rest r e i =
    let p = i.part in
    let s = expected_small r.app i in
    let fits =
      ap (λ (n : ℕ). take_in (clamp len n) r) (sym e) ∙ take_in-clamp len r (omega arith) in
    rw fits (less-IsRaw (clamp len r.app.ra_remaining_count) r i)

raw_deliver_data-IsRaw :
    (m : RxData) (t : ℕ) (r : Raw) → IsRaw r.app → IsRaw (raw_deliver_data m t r).0.app
unfolding raw_deliver_data
raw_deliver_data-IsRaw m t r i =
    let rest = r.app.ra_remaining_count in
    let same = ap (λ (a : RawApp). a.ra_remaining_count) (note_latency_app m t r) in
    let noted = note_latency-IsRaw m t r i in
    let k = delivered-IsRaw m.pkt_len rest (note_latency m t r) same noted in
    either_pair (not (is_receiving r.app.ra_state)) _ _ i (
      either_pair (at_start r.app) _ _
        (either_pair (leb r.app.ra_rx_tstamp_size (clamp m.pkt_len rest)) _ _ k i)
        (delivered-IsRaw m.pkt_len rest r refl i))

request_sent-IsRaw : (r : Raw) → IsRaw r.app → IsRaw (request_sent r).app
unfolding request_sent
request_sent-IsRaw r i =
    either (r.app.ra_resp_size == 0) _ _ (goto_sending (send_start (send_stop r)) i)
      (goto_receiving (send_stop r) i)

all_sent-IsRaw : (side : Side) (r : Raw) → IsRaw r.app → IsRaw (all_sent side r).app
unfolding all_sent
all_sent-IsRaw client r i = request_sent-IsRaw (count_req r) i
all_sent-IsRaw server r i = goto_receiving (send_stop (count_resp r)) i

either_sent :
    (b : Bool) (x y : Raw × Bool) → IsRaw x.0.app → IsRaw y.0.app → IsRaw (if b then x else y).0.app
either_sent true x y h g = h
either_sent false x y h g = g

data_sent-IsRaw :
    (side : Side) (n : ℕ) (r : Raw)
    → IsRaw r.app
    → n ≤ r.app.ra_remaining_count
    → IsRaw (data_sent side n r).0.app
unfolding after
data_sent-IsRaw side n r i h =
    let p = i.part in
    let s = expected_small r.app i in
    let e = data_sent-after side n r ∙ ap (after side) (raw_data_sent_lem n r (omega arith) h) in
    let k = less-IsRaw n r i in
    rw e (
      either_sent ((less n r).app.ra_remaining_count == 0) _ _ (all_sent-IsRaw side (less n r) k) k)

conn_up-IsRaw : (side : Side) (r : Raw) → IsRaw r.app → IsRaw (call side conn_up r).app
unfolding call raw_client_conn_up raw_server_conn_up
conn_up-IsRaw client r i =
    let up = raw_goto_state raws_sending r.app.ra_req_size r in
    let k = goto_sending r i in either (r.app.ra_req_size == 0) up (send_start up) k k
conn_up-IsRaw server r i = goto_receiving r i

deliver-IsRaw :
    (side : Side) (m : RxData) (t : ℕ) (r : Raw)
    → IsRaw r.app
    → IsRaw (deliver_data side m t r).0.app
deliver-IsRaw side m t r i =
    rw (raw_side side m t r)
      (received-IsRaw side (raw_deliver_data m t r).0 (raw_deliver_data-IsRaw m t r i))

-- Any call of the transport keeps it.
call-IsRaw :
    (side : Side) (c : Call) (r : Raw) → IsRaw r.app → Allowed c r.app → IsRaw (call side c r).app
unfolding call Allowed deliver_data data_sent
call-IsRaw side conn_up r i h = conn_up-IsRaw side r i
call-IsRaw client (deliver m t) r i h = deliver-IsRaw client m t r i
call-IsRaw server (deliver m t) r i h = deliver-IsRaw server m t r i
call-IsRaw client (sent n) r i h = data_sent-IsRaw client n r i h
call-IsRaw server (sent n) r i h = data_sent-IsRaw server n r i h

unfoldable pub run : Side → List Call → Raw → Raw
run side [] r = r
run side (c ∷ cs) r = run side cs (call side c r)

unfoldable pub AllAllowed : Side → List Call → Raw → Type 0
AllAllowed side [] r = Unit
AllAllowed side (c ∷ cs) r = Allowed c r.app × AllAllowed side cs (call side c r)

-- What is left of a message stays part of it, and the sizes fit 16 bits, whatever a session is told in
-- any order, with packets of any length and with no more bytes reported as sent than were left.
pub run-IsRaw :
    (side : Side) (cs : List Call) (r : Raw)
    → IsRaw r.app
    → AllAllowed side cs r
    → IsRaw (run side cs r).app
unfolding run AllAllowed
run-IsRaw side [] r i h = i
run-IsRaw side (c ∷ cs) r i h = run-IsRaw side cs (call side c r) (call-IsRaw side c r i h.0) h.1
