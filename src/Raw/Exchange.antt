-- ===== src/Raw/Exchange.antt =====
-- A request and its response between a raw client and a raw server, over a transport that cuts both
-- into parts as it likes: src/appl/tpg_test_raw_app.c.
use warp.Prelude.{
  ℕ, Bool, true, false, List, [], ◌∷◌, ◌++◌, ◌+◌, ◌%◌, ◌≤◌, ◌<◌, ◌≡◌, refl, sym, ap, ◌∙◌, ◌==◌,
  if◌then◌else◌, Bool-cases, inl, inr, arith,
}
use warp.Prelude.Outcome.{if_true, if_false}
use warp.Raw.{
  RawState, raws_sending, raws_receiving, RawApp, Raw, RawCfg, RxData, app_send_start,
  app_send_stop, word_16, tstamp_size, raw_validate_cfg, raw_client_validate_cfg,
  raw_server_validate_cfg,
}
use warp.Raw.Session.{
  rx_isset, raw_init_tstamp_cfg, count_req, count_resp, send_start, send_stop, is_receiving,
  note_latency, at_start, answer, raw_client_init, raw_server_init, raw_conn_init, raw_goto_state,
  request_sent, raw_client_conn_up, raw_server_conn_up,
}
use warp.Raw.Pieces.{
  client, server, deliver_all, total, stamped, HoldsStamp, IsReceiving, deliver_all_whole,
}
use warp.Raw.Sent.{all_sent, send_all, sum, send_all_whole}

-- A client and a server of one configuration, before the client's request; the sizes are above 0 and
-- fit 16 bits, and a message has room for its time stamp.
pub record IsReady (c s : RawApp) : Type 0 where
  c_sending : c.ra_state ≡ raws_sending
  c_whole : c.ra_remaining_count ≡ c.ra_req_size
  s_receiving : s.ra_state ≡ raws_receiving
  s_whole : s.ra_remaining_count ≡ s.ra_resp_size
  same_req : c.ra_req_size ≡ s.ra_resp_size
  same_resp : c.ra_resp_size ≡ s.ra_req_size
  some_req : 0 < c.ra_req_size
  some_resp : 0 < c.ra_resp_size
  small_req : c.ra_req_size < word_16
  small_resp : c.ra_resp_size < word_16
  c_room : c.ra_rx_tstamp_size ≤ c.ra_resp_size
  s_room : s.ra_rx_tstamp_size ≤ s.ra_resp_size

-- The parts and one last of them make up a message.
unfoldable pub AreWhole : ℕ → ℕ → ℕ → Type 0
AreWhole before last size = (before < size) × (before + last ≡ size)

-- A session after one more request and one more response, with the notifications of both.
unfoldable pub client_done : List (ℕ × ℕ) → Raw → Raw
client_done l r = record (count_resp (count_req r)) {
  notifs = app_send_start ∷ app_send_stop ∷ r.notifs;
  latencies = l;
}

unfoldable pub server_done : List (ℕ × ℕ) → Raw → Raw
server_done l r = record (count_resp (count_req r)) {
  notifs = app_send_stop ∷ app_send_start ∷ r.notifs;
  latencies = l;
}

note_latency_only :
    (m : RxData) (t : ℕ) (r : Raw)
    → note_latency m t r ≡ record r { latencies = (note_latency m t r).latencies }
unfolding note_latency
note_latency_only m t r = ground arith

stamped_only :
    (ps : List (RxData × ℕ)) (r : Raw)
    → (l : List (ℕ × ℕ)) × (stamped ps r ≡ record r { latencies = l })
unfolding stamped
stamped_only [] r = (r.latencies, refl)
stamped_only (p ∷ ps) r = elim (Bool-cases (at_start r.app)) [
  | inl h ↦ (
    (note_latency p.0 p.1 r).latencies,
    if_true (at_start r.app) (note_latency p.0 p.1 r) r h ∙ note_latency_only p.0 p.1 r,
  )
  | inr h ↦ (r.latencies, if_false (at_start r.app) (note_latency p.0 p.1 r) r h)
]

HoldsStamp-same :
    (ps : List (RxData × ℕ)) (a b : RawApp)
    → a.ra_rx_tstamp_size ≡ b.ra_rx_tstamp_size
    → HoldsStamp ps a
    → HoldsStamp ps b
unfolding HoldsStamp
HoldsStamp-same [] a b e h = h
HoldsStamp-same (p ∷ ps) a b e h = omega arith

ne_zero : (n : ℕ) → 0 < n → (n == 0) ≡ false
ne_zero n h = ground arith

request_sent_lem :
    (r : Raw)
    → 0 < r.app.ra_resp_size
    → request_sent r ≡ raw_goto_state raws_receiving r.app.ra_resp_size (send_stop r)
unfolding request_sent
request_sent_lem r h = if_false _ _ _ (ne_zero _ h)

answer_lem :
    (r : Raw)
    → 0 < r.app.ra_req_size
    → answer r ≡ raw_goto_state raws_sending r.app.ra_req_size (send_start r)
unfolding answer
answer_lem r h = if_false _ _ _ (ne_zero _ h)

-- A session's state is that at the start of a message when its two changing fields are.
as_before :
    (st : RawState) (n : ℕ) (r : Raw)
    → r.app.ra_state ≡ st
    → r.app.ra_remaining_count ≡ n
    → raw_goto_state st n r ≡ r
unfolding raw_goto_state
as_before st n r e h =
    ap (λ (s : RawState). record r { app = record r.app { ra_remaining_count = n; ra_state = s } })
      (sym e)
    ∙ ap (λ (k : ℕ). record r { app = record r.app { ra_remaining_count = k } }) (sym h)

module _ (c s : Raw) (i : IsReady c.app s.app) where
  -- The client sends its request in parts and receives its response in pieces.
  client_turn :
      (ns : List ℕ) (n : ℕ) (qs : List (RxData × ℕ)) (q : RxData × ℕ)
      → AreWhole (sum ns) n c.app.ra_req_size
      → AreWhole (total qs) q.0.pkt_len c.app.ra_resp_size
      → HoldsStamp (qs ++ q ∷ []) c.app
      → (l : List (ℕ × ℕ)) × (deliver_all client (qs ++ q ∷ []) (send_all client (ns ++ n ∷ []) c)
          ≡ client_done l c)
  unfolding AreWhole client_done raw_goto_state all_sent
  client_turn ns n qs q w v h =
      let waits = raw_goto_state raws_receiving c.app.ra_resp_size (send_stop (count_req c)) in
      let left = i.c_whole in
      let small = i.small_req in
      let some = i.some_resp in
      let e : send_all client (ns ++ n ∷ []) c ≡ waits =
        send_all_whole client ns n c (omega arith) (omega (arith, w.0)) (omega (arith, w.1))
        ∙ request_sent_lem (count_req c) some in
      let r : IsReceiving waits.app = record {
        receiving = refl;
        some_size = some;
        part = omega arith;
        room = i.c_room;
        small = i.small_resp;
      } in
      let g : deliver_all client (qs ++ q ∷ []) waits
          ≡ answer (count_resp (stamped (qs ++ q ∷ []) waits)) =
        deliver_all_whole client qs q waits r (HoldsStamp-same _ c.app waits.app refl h) v.0
          (omega (arith, v.1)) in
      let l = stamped_only (qs ++ q ∷ []) waits in
      let done = client_done l.0 c in
      (
        l.0,
        ap (deliver_all client (qs ++ q ∷ [])) e
            ∙ g
            ∙ ap (λ (x : Raw). answer (count_resp x)) l.1
            ∙ answer_lem (count_resp (record waits { latencies = l.0 })) i.some_req
            ∙ as_before raws_sending c.app.ra_req_size done i.c_sending i.c_whole,
      )

  -- The server receives the request in pieces and sends its response in parts.
  server_turn :
      (ps : List (RxData × ℕ)) (p : RxData × ℕ) (ms : List ℕ) (m : ℕ)
      → AreWhole (total ps) p.0.pkt_len c.app.ra_req_size
      → AreWhole (sum ms) m c.app.ra_resp_size
      → HoldsStamp (ps ++ p ∷ []) s.app
      → (l : List (ℕ × ℕ)) × (send_all server (ms ++ m ∷ []) (deliver_all server (ps ++ p ∷ []) s)
          ≡ server_done l s)
  unfolding AreWhole server_done raw_goto_state all_sent
  server_turn ps p ms m w v h =
      let left = i.s_whole in
      let same_req = i.same_req in
      let same_resp = i.same_resp in
      let some_req = i.some_req in
      let some_resp = i.some_resp in
      let small = i.small_resp in
      let small_req = i.small_req in
      let r : IsReceiving s.app = record {
        receiving = ap is_receiving i.s_receiving;
        some_size = omega arith;
        part = omega arith;
        room = i.s_room;
        small = omega arith;
      } in
      let l = stamped_only (ps ++ p ∷ []) s in
      let got = count_req (record s { latencies = l.0 }) in
      let answers = raw_goto_state raws_sending s.app.ra_req_size (send_start got) in
      let g : deliver_all server (ps ++ p ∷ []) s ≡ answers =
        deliver_all_whole server ps p s r h (omega (arith, w.0)) (omega (arith, w.1))
        ∙ ap (λ (x : Raw). answer (count_req x)) l.1
        ∙ answer_lem got (omega arith) in
      (
        l.0,
        ap (send_all server (ms ++ m ∷ [])) g
            ∙ send_all_whole server ms m answers (omega arith) (omega (arith, v.0))
                (omega (arith, v.1))
            ∙ as_before raws_receiving s.app.ra_resp_size (server_done l.0 s) i.s_receiving
                i.s_whole,
      )

-- The two turns leave both ready for the next ones.
pub exchange :
    (c s : Raw)
    → IsReady c.app s.app
    → (ns : List ℕ) (n : ℕ) (ps : List (RxData × ℕ)) (p : RxData × ℕ)
    → (ms : List ℕ) (m : ℕ) (qs : List (RxData × ℕ)) (q : RxData × ℕ)
    → AreWhole (sum ns) n c.app.ra_req_size
    → AreWhole (total ps) p.0.pkt_len c.app.ra_req_size
    → AreWhole (sum ms) m c.app.ra_resp_size
    → AreWhole (total qs) q.0.pkt_len c.app.ra_resp_size
    → HoldsStamp (ps ++ p ∷ []) s.app
    → HoldsStamp (qs ++ q ∷ []) c.app
    → (l : List (ℕ × ℕ)) × (k : List (ℕ × ℕ)) × (deliver_all client
          (qs ++ q ∷ [])
          (send_all client (ns ++ n ∷ []) c)
        ≡ client_done l c)
      × (send_all server (ms ++ m ∷ []) (deliver_all server (ps ++ p ∷ []) s) ≡ server_done k s)
      × IsReady (client_done l c).app (server_done k s).app
unfolding client_done server_done
exchange c s i ns n ps p ms m qs q w v u t h g =
    let to_client = client_turn c s i ns n qs q w t g in
    let to_server = server_turn c s i ps p ms m v u h in
    (to_client.0, to_server.0, to_client.1, to_server.1, i)

-- The session data of a new control block.
abbrev cleared : RawApp
cleared = record {
  ra_req_size = 0;
  ra_resp_size = 0;
  ra_remaining_count = 0;
  ra_rx_tstamp_size = 0;
  ra_tx_tstamp_size = 0;
  ra_state = raws_sending;
}

-- `raw_tc_start`
abbrev tstamps : RawCfg → ℕ
tstamps cfg = raw_init_tstamp_cfg cfg.rx_tstamp cfg.tx_tstamp

-- A session of the configuration, when it is connected.
unfoldable pub client_of : RawCfg → Raw → Raw
client_of cfg r = raw_client_conn_up (record r { app = raw_client_init (tstamps cfg) cfg cleared })

unfoldable pub server_of : RawCfg → Raw → Raw
server_of cfg r = raw_server_conn_up (record r { app = raw_server_init (tstamps cfg) cfg cleared })

size_fits : (n : ℕ) → n < word_16 → n % word_16 ≡ n
size_fits n h = omega arith

validated_room :
    (incoming_len : ℕ) (rx : Bool) (outgoing_len : ℕ) (tx ip : Bool)
    → raw_validate_cfg incoming_len rx outgoing_len tx ip ≡ true
    → (if rx_isset (raw_init_tstamp_cfg rx tx) then tstamp_size else 0) ≤ incoming_len
unfolding raw_validate_cfg raw_init_tstamp_cfg
validated_room incoming_len rx outgoing_len tx ip h = ground arith

client_of_app :
    (cfg : RawCfg) (r : Raw)
    → (client_of cfg r).app ≡ record (raw_client_init (tstamps cfg) cfg cleared) {
      ra_remaining_count = cfg.req_plen % word_16;
    }
unfolding client_of raw_client_conn_up raw_client_init raw_conn_init raw_goto_state
client_of_app cfg r = ground arith

-- What the checks of a configuration accept is ready for exchanges once it is connected, when its
-- sizes are above 0 and fit 16 bits.
pub conn_up-IsReady :
    (cfg : RawCfg) (ip : Bool) (c s : Raw)
    → raw_client_validate_cfg cfg ip ≡ true
    → raw_server_validate_cfg cfg ip ≡ true
    → 0 < cfg.req_plen
    → 0 < cfg.resp_plen
    → cfg.req_plen < word_16
    → cfg.resp_plen < word_16
    → IsReady (client_of cfg c).app (server_of cfg s).app
unfolding server_of raw_server_conn_up raw_client_init raw_server_init raw_conn_init raw_goto_state
    raw_client_validate_cfg raw_server_validate_cfg
conn_up-IsReady cfg ip c s h g some_req some_resp small_req small_resp =
    let c_room = validated_room cfg.resp_plen cfg.rx_tstamp cfg.req_plen cfg.tx_tstamp ip h in
    let s_room = validated_room cfg.req_plen cfg.rx_tstamp cfg.resp_plen cfg.tx_tstamp ip g in
    rw (client_of_app cfg c, size_fits cfg.req_plen small_req, size_fits cfg.resp_plen small_resp)
      (record {
        c_sending = refl;
        c_whole = refl;
        s_receiving = refl;
        s_whole = refl;
        same_req = refl;
        same_resp = refl;
        some_req = some_req;
        some_resp = some_resp;
        small_req = small_req;
        small_resp = small_resp;
        c_room = c_room;
        s_room = s_room;
      })
