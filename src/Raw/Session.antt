-- ===== src/Raw/Session.antt =====
-- The callbacks of a raw session: raw_conn_init, raw_client_conn_up, raw_deliver_data, raw_data_sent and
-- their variants for the client and the server (src/appl/tpg_test_raw_app.c).
use warp.Prelude.{
  ℕ, suc, Bool, true, false, List, [], ◌∷◌, ◌+◌, ◌-◌, ◌*◌, ◌/◌, ◌%◌, ◌&&◌, not, ltb, leb, ◌==◌,
  if◌then◌else◌,
}
use warp.Raw.{
  RawState, raws_sending, raws_receiving, RawApp, Raw, RawCfg, RxData, app_send_start,
  app_send_stop, tstamp_size, word_16, word_32, word_64,
}

-- `raw_init_tstamp_cfg`: the flags RAW_FLAG_TSTAMP_RX (1) and RAW_FLAG_TSTAMP_TX (2).
unfoldable pub raw_init_tstamp_cfg : (rx_tstamp tx_tstamp : Bool) → ℕ
raw_init_tstamp_cfg rx_tstamp tx_tstamp =
    if rx_tstamp && tx_tstamp then 3 else if rx_tstamp then 1 else if tx_tstamp then 2 else 0

-- RAW_TSTAMP_ISSET, for each flag.
abbrev pub rx_isset : ℕ → Bool
rx_isset tstamp_type = tstamp_type % 2 == 1

abbrev pub tx_isset : ℕ → Bool
tx_isset tstamp_type = tstamp_type / 2 % 2 == 1

-- `raw_conn_init`; the sizes are cut to 16 bits.
unfoldable pub raw_conn_init : (tstamp_type req_len resp_len : ℕ) → RawApp → RawApp
raw_conn_init tstamp_type req_len resp_len a = record a {
  ra_rx_tstamp_size = if rx_isset tstamp_type then tstamp_size else a.ra_rx_tstamp_size;
  ra_tx_tstamp_size = if tx_isset tstamp_type then tstamp_size else a.ra_tx_tstamp_size;
  ra_req_size = req_len % word_16;
  ra_resp_size = resp_len % word_16;
}

unfoldable pub raw_client_init : (tstamp_type : ℕ) → RawCfg → RawApp → RawApp
raw_client_init tstamp_type cfg = raw_conn_init tstamp_type cfg.req_plen cfg.resp_plen

-- A server sends what the client calls the response.
unfoldable pub raw_server_init : (tstamp_type : ℕ) → RawCfg → RawApp → RawApp
raw_server_init tstamp_type cfg = raw_conn_init tstamp_type cfg.resp_plen cfg.req_plen

-- `raw_client_pkts_per_send` and `raw_server_pkts_per_send`, on 32 bits, without a check of the
-- divisor.
unfoldable pub pkts_per_send : (plen max_pkt_size : ℕ) → ℕ
pkts_per_send plen max_pkt_size = ((plen + max_pkt_size + word_32 - 1) % word_32) / max_pkt_size

unfoldable pub raw_goto_state : RawState → ℕ → Raw → Raw
raw_goto_state state remaining r = record r {
  app = record r.app { ra_remaining_count = remaining; ra_state = state };
}

abbrev pub send_start : Raw → Raw
send_start r = record r { notifs = app_send_start ∷ r.notifs }

abbrev pub send_stop : Raw → Raw
send_stop r = record r { notifs = app_send_stop ∷ r.notifs }

-- INC_STATS of the two counters.
abbrev pub count_req : Raw → Raw
count_req r = record r {
  stats = record r.stats { rsts_req_cnt = (r.stats.rsts_req_cnt + 1) % word_64 };
}

abbrev pub count_resp : Raw → Raw
count_resp r = record r {
  stats = record r.stats { rsts_resp_cnt = (r.stats.rsts_resp_cnt + 1) % word_64 };
}

unfoldable pub raw_client_conn_up : Raw → Raw
unfolding raw_goto_state
raw_client_conn_up r =
    let up = raw_goto_state raws_sending r.app.ra_req_size r in
    if r.app.ra_req_size == 0 then up else send_start up

unfoldable pub raw_server_conn_up : Raw → Raw
raw_server_conn_up r = raw_goto_state raws_receiving r.app.ra_resp_size r

abbrev pub is_receiving : RawState → Bool
is_receiving raws_receiving = true
is_receiving raws_sending = false

-- `raw_latency_magic`, "WLATENCY".
abbrev raw_latency_magic : List ℕ
raw_latency_magic = 87 ∷ 76 ∷ 65 ∷ 84 ∷ 69 ∷ 78 ∷ 67 ∷ 89 ∷ []

-- The `memcmp` with the bytes from an offset on.
unfoldable pub same_bytes : List ℕ → (ℕ → ℕ) → Bool
same_bytes [] bytes = true
same_bytes (b ∷ bs) bytes = (bytes 0 == b) && same_bytes bs (λ i. bytes (suc i))

-- `rte_be_to_cpu_32` of the four bytes at an offset.
abbrev be_32 : (ℕ → ℕ) → ℕ → ℕ
be_32 bytes i = ((bytes i * 256 + bytes (i + 1)) * 256 + bytes (i + 2)) * 256 + bytes (i + 3)

-- TSTAMP_JOIN of the two words after the magic, the low one first.
unfoldable pub tx_time : RxData → ℕ
tx_time m = be_32 m.mtod 12 * word_32 + be_32 m.mtod 8

-- `test_update_latency`, when the tag of the sender is there.
unfoldable pub note_latency : RxData → ℕ → Raw → Raw
note_latency m rx_tstamp r =
    if same_bytes raw_latency_magic m.mtod
    then record r { latencies = (tx_time m, rx_tstamp) ∷ r.latencies }
    else r

-- What is left after a delivery: `ra_remaining_count -= pkt_len`, on 16 bits.
unfoldable pub take_in : ℕ → Raw → Raw
take_in len r = record r {
  app = record r.app {
    ra_remaining_count = (r.app.ra_remaining_count + word_16 - len % word_16) % word_16;
  };
}

-- A time stamp is looked for at the start of a message.
unfoldable pub at_start : RawApp → Bool
at_start a = not (a.ra_rx_tstamp_size == 0) && (a.ra_remaining_count == a.ra_resp_size)

-- `pkt_len` after the check that it is not more than what is left.
unfoldable pub clamp : ℕ → ℕ → ℕ
clamp len remaining = if ltb remaining len then remaining else len

-- `raw_deliver_data`: the state, and how much is reported as delivered.
unfoldable pub raw_deliver_data : RxData → ℕ → Raw → Raw × ℕ
raw_deliver_data m rx_tstamp r =
    let len = clamp m.pkt_len r.app.ra_remaining_count in
    if not (is_receiving r.app.ra_state)
    then (r, m.pkt_len)
    else if at_start r.app
    then (if leb r.app.ra_rx_tstamp_size len
        then (take_in len (note_latency m rx_tstamp r), m.pkt_len)
        else (r, 0))
    else (take_in len r, m.pkt_len)

-- The end of a message that is received: `if (app_data->ad_raw.ra_remaining_count == 0 && ...`.
unfoldable pub is_received : RawApp → Bool
is_received a = (a.ra_remaining_count == 0) && not (a.ra_resp_size == 0)

-- The message of our side is sent next, when it has one.
unfoldable pub answer : Raw → Raw
answer r =
    if r.app.ra_req_size == 0
    then raw_goto_state raws_receiving r.app.ra_resp_size r
    else raw_goto_state raws_sending r.app.ra_req_size (send_start r)

-- What follows a delivery, with the counter of the side.
unfoldable pub received : (Raw → Raw) → Raw → Raw
received count r = if is_received r.app then answer (count r) else r

unfoldable pub raw_client_deliver_data : RxData → ℕ → Raw → Raw × ℕ
raw_client_deliver_data m rx_tstamp r =
    let d = raw_deliver_data m rx_tstamp r in (received count_resp d.0, d.1)

unfoldable pub raw_server_deliver_data : RxData → ℕ → Raw → Raw × ℕ
raw_server_deliver_data m rx_tstamp r =
    let d = raw_deliver_data m rx_tstamp r in (received count_req d.0, d.1)

-- `raw_data_sent`, a subtraction on 16 bits.
unfoldable pub raw_data_sent : ℕ → Raw → Raw
raw_data_sent bytes_sent r = record r {
  app = record r.app {
    ra_remaining_count = (r.app.ra_remaining_count + word_16 - bytes_sent % word_16) % word_16;
  };
}

-- The end of a request of the client.
unfoldable pub request_sent : Raw → Raw
request_sent r =
    if r.app.ra_resp_size == 0
    then raw_goto_state raws_sending r.app.ra_req_size (send_start (send_stop r))
    else raw_goto_state raws_receiving r.app.ra_resp_size (send_stop r)

unfoldable pub raw_client_data_sent : ℕ → Raw → Raw × Bool
raw_client_data_sent bytes_sent r =
    let s = raw_data_sent bytes_sent r in
    if s.app.ra_remaining_count == 0 then (request_sent (count_req s), true) else (s, false)

unfoldable pub raw_server_data_sent : ℕ → Raw → Raw × Bool
raw_server_data_sent bytes_sent r =
    let s = raw_data_sent bytes_sent r in
    if s.app.ra_remaining_count == 0
    then (raw_goto_state raws_receiving s.app.ra_resp_size (send_stop (count_resp s)), true)
    else (s, false)
