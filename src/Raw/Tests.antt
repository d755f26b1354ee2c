-- ===== src/Raw/Tests.antt =====
-- Runs of the raw application, and the witnesses of its theorems: requests of 20 and responses of 30
-- bytes, with time stamps.
use warp.Prelude.{
  ℕ, true, false, Option, none, some, List, [], ◌∷◌, ◌-◌, ◌≤◌, ◌≡◌, refl, leb, get_or,
  if◌then◌else◌, arith,
}
use warp.Prelude.Outcome.{fault, assert_false}
use warp.Raw.{
  Raw, RawCfg, RxData, raws_sending, app_send_start, raw_stats_init, raw_stats_add, raw_default_cfg,
  word_16, raw_validate_cfg, raw_client_validate_cfg, raw_server_validate_cfg,
}
use warp.Raw.Session.{
  raw_goto_state, raw_init_tstamp_cfg, raw_conn_init, raw_client_init, raw_server_init,
  raw_client_conn_up, raw_server_conn_up, raw_client_deliver_data, raw_server_deliver_data,
  raw_deliver_data, received, is_received, answer, at_start, clamp, take_in, note_latency,
  same_bytes, tx_time, pkts_per_send,
}
use warp.Raw.Pieces.{
  client, server, count, total, stamped, HoldsStamp, IsReceiving, deliver_all, deliver_all_whole,
}
use warp.Raw.Sent.{sum, send_all}
use warp.Raw.Bounds.{
  IsRaw, Call, conn_up, deliver, sent, Allowed, AllAllowed, call, run, expected, run-IsRaw,
}
use warp.Raw.Exchange.{
  IsReady, AreWhole, client_of, server_of, client_done, server_done, exchange, conn_up-IsReady,
}
use warp.Raw.Chain.{Dpdk, data_chain_from_static_template, last_seg, fill, put, chain_of, mbuf_of}
use warp.Raw.Stamp.{
  Holds, raw_send_data, raw_prepend_tstamp, with_tstamp, joined, chained, starts, to_send,
  raw_send_data-Holds,
}

abbrev cfg : RawCfg
cfg = record { req_plen = 20; resp_plen = 30; rx_tstamp = true; tx_tstamp = true }

abbrev blank : Raw
blank = record {
  app = record {
    ra_req_size = 0;
    ra_resp_size = 0;
    ra_remaining_count = 0;
    ra_rx_tstamp_size = 0;
    ra_tx_tstamp_size = 0;
    ra_state = raws_sending;
  };
  stats = raw_stats_init;
  notifs = [];
  latencies = [];
}

abbrev piece : ℕ → RxData × ℕ
piece n = (record { pkt_len = n; mtod = λ i. 0 }, 5)

-- A piece with the tag and the time 2 * 2 ^ 32 + 3.
abbrev tagged : RxData
tagged = record {
  pkt_len = 20;
  mtod =
      λ i. get_or (87 ∷ 76 ∷ 65 ∷ 84 ∷ 69 ∷ 78 ∷ 67 ∷ 89 ∷ 0 ∷ 0 ∷ 0 ∷ 3 ∷ 0 ∷ 0 ∷ 0 ∷ 2 ∷ []) i 0;
}

abbrev c : Raw
c = client_of cfg blank

abbrev s : Raw
s = server_of cfg blank

ready : IsReady c.app s.app
unfolding raw_client_validate_cfg raw_server_validate_cfg raw_validate_cfg
ready =
    conn_up-IsReady cfg false blank blank refl refl (omega arith) (omega arith) (omega arith)
      (omega arith)

-- The stamp of the client reaches the server, which counts a request and answers.
served : raw_server_deliver_data tagged 9 s ≡ (
  record {
    app = record s.app { ra_req_size = 30; ra_remaining_count = 30; ra_state = raws_sending };
    stats = record raw_stats_init { rsts_req_cnt = 1 };
    notifs = app_send_start ∷ [];
    latencies = (8589934595, 9) ∷ [];
  },
  20,
)
unfolding server_of raw_server_conn_up raw_server_init raw_conn_init raw_init_tstamp_cfg
    raw_goto_state raw_server_deliver_data raw_deliver_data received is_received answer at_start
    clamp take_in note_latency same_bytes tx_time
served = refl

-- A client without a request counts a response for any first byte.
no_request :
    (raw_client_deliver_data (piece 1).0 0 (client_of (record cfg { req_plen = 0 }) blank)).0.stats
    ≡ record raw_stats_init { rsts_resp_cnt = 1 }
unfolding client_of raw_client_conn_up raw_client_init raw_conn_init raw_init_tstamp_cfg
    raw_goto_state raw_client_deliver_data raw_deliver_data received is_received answer
no_request = refl

-- A request of 65536 bytes is cut to none.
cut : (client_of (record cfg { req_plen = word_16 }) blank).app.ra_req_size ≡ 0
unfolding client_of raw_client_conn_up raw_client_init raw_conn_init raw_init_tstamp_cfg
    raw_goto_state
cut = refl

-- The sum of packets per send: 20 bytes in packets of 8.
three_packets : pkts_per_send 20 8 ≡ 3
unfolding pkts_per_send
three_packets = refl

two_added :
    raw_stats_add
      (record raw_stats_init { rsts_req_cnt = 2 })
      (record raw_stats_init { rsts_req_cnt = 3 })
    ≡ record raw_stats_init { rsts_req_cnt = 5 }
unfolding raw_stats_add
two_added = refl

defaults_pass : raw_client_validate_cfg raw_default_cfg true ≡ true
unfolding raw_client_validate_cfg raw_validate_cfg
defaults_pass = refl

abbrev trim_last : ℕ → List ℕ → Option (List ℕ)
trim_last n [] = none
trim_last n (s ∷ []) = if leb n s then some ((s - n) ∷ []) else none
trim_last n (s ∷ t ∷ ss) = elim (trim_last n (t ∷ ss)) [ none ↦ none | some us ↦ some (s ∷ us) ]

abbrev dpdk : Dpdk
dpdk = record { alloc = λ k. true; trim = trim_last; phys_addr = true }

trim_single : (n s : ℕ) → n ≤ s → trim_last n (s ∷ []) ≡ some ((s - n) ∷ [])
trim_single n s h = ground arith

-- A message of 2050 bytes is sent in two segments, and its second one is too short for the stamp.
trim_faults :
    raw_send_data dpdk (client_of (record cfg { req_plen = 2050 }) blank) 9000 ≡ fault assert_false
unfolding client_of raw_client_conn_up raw_client_init raw_conn_init raw_init_tstamp_cfg
    raw_goto_state raw_send_data raw_prepend_tstamp to_send starts with_tstamp joined chained
    data_chain_from_static_template last_seg fill put chain_of mbuf_of
trim_faults = refl

conn_up-IsReady_example : IsReady (client_of cfg blank).app (server_of cfg blank).app
unfolding raw_client_validate_cfg raw_server_validate_cfg raw_validate_cfg
conn_up-IsReady_example =
    conn_up-IsReady cfg false blank blank refl refl (omega arith) (omega arith) (omega arith)
      (omega arith)

exchange_example :
    (l : List (ℕ × ℕ)) × (k : List (ℕ × ℕ)) × (deliver_all client
        (piece 16 ∷ piece 14 ∷ [])
        (send_all client (8 ∷ 12 ∷ []) c)
      ≡ client_done l c)
    × (send_all server (30 ∷ []) (deliver_all server (piece 20 ∷ []) s) ≡ server_done k s)
    × IsReady (client_done l c).app (server_done k s).app
unfolding AreWhole sum total HoldsStamp client_of raw_client_conn_up raw_client_init raw_conn_init
    raw_init_tstamp_cfg raw_goto_state server_of raw_server_conn_up raw_server_init
exchange_example =
    exchange c s ready (8 ∷ []) 12 [] (piece 20) [] 30 (piece 16 ∷ []) (piece 14)
      (omega arith, refl) (omega arith, refl) (omega arith, refl) (omega arith, refl) (omega arith)
      (omega arith)

s-IsReceiving : IsReceiving s.app
unfolding raw_goto_state raw_server_conn_up server_of raw_server_init raw_conn_init
    raw_init_tstamp_cfg
s-IsReceiving = record {
  receiving = refl;
  some_size = omega arith;
  part = omega arith;
  room = omega arith;
  small = omega arith;
}

deliver_all_whole_example :
    deliver_all server (piece 16 ∷ piece 9 ∷ []) s
    ≡ answer (count server (stamped (piece 16 ∷ piece 9 ∷ []) s))
unfolding HoldsStamp total raw_goto_state raw_server_conn_up server_of raw_server_init raw_conn_init
    raw_init_tstamp_cfg
deliver_all_whole_example =
    deliver_all_whole server (piece 16 ∷ []) (piece 9) s s-IsReceiving (omega arith) (omega arith)
      (omega arith)

abbrev calls : List Call
calls = conn_up ∷ sent 20 ∷ deliver (piece 16).0 1 ∷ []

run-IsRaw_example : IsRaw (run client calls c).app
unfolding AllAllowed Allowed call expected client_of raw_client_conn_up raw_client_init
    raw_conn_init raw_init_tstamp_cfg raw_goto_state
run-IsRaw_example =
    run-IsRaw client calls c
      (record { part = omega arith; small_req = omega arith; small_resp = omega arith })
      (tt, (omega arith, (tt, tt)))

raw_send_data-Holds_example : Holds 16 (raw_send_data dpdk c 16)
unfolding to_send client_of raw_client_conn_up raw_client_init raw_conn_init raw_init_tstamp_cfg
    raw_goto_state
raw_send_data-Holds_example =
    raw_send_data-Holds dpdk (λ k. refl) trim_single c 16 (omega arith) (omega arith)
