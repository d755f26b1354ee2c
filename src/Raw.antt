-- ===== src/Raw.antt =====
-- The raw application, src/appl/tpg_test_raw_app.c and inc/appl/tpg_test_raw_app.h: a client that sends
-- requests of a fixed size, and a server that answers each with a response of a fixed size. The client's
-- requests and the server's responses are both the "request" of their own side.
-- The children hold the messages and what is proved of them, and the buffers that are sent.
pub mod Session
pub mod Sent
pub mod Bounds
pub mod Pieces
pub mod Exchange
pub mod Chain
pub mod Stamp
mod Tests
use warp.Prelude.{ℕ, Bool, true, false, List, ◌<◌, ◌+◌, ◌%◌, ◌^◌, ◌&&◌, ◌≤◌, ltb, if◌then◌else◌}

-- `raw_state_t`
pub data RawState : Type 0 where
  raws_sending raws_receiving : RawState

-- `raw_app_t`; the text of `ra_tx_tstamp` is set in Chain.
pub record RawApp : Type 0 where
  pub ra_req_size : ℕ
  pub ra_resp_size : ℕ
  pub ra_remaining_count : ℕ
  pub ra_rx_tstamp_size : ℕ
  pub ra_tx_tstamp_size : ℕ
  pub ra_state : RawState

-- The counters of `tpg_raw_stats_t`, two of 64 and three of 32 bits.
pub record RawStats : Type 0 where
  pub rsts_req_cnt : ℕ
  pub rsts_resp_cnt : ℕ
  pub rsts_tstamp_no_phys_addr : ℕ
  pub rsts_tstamp_no_mbuf : ℕ
  pub rsts_tstamp_no_win : ℕ

-- The notifications that the application raises.
pub data Notif : Type 0 where
  app_send_start app_send_stop : Notif

-- What the callbacks of one session read and write, with their calls of TEST_NOTIF and of
-- `test_update_latency` (the two times), the newest first.
pub record Raw : Type 0 where
  pub app : RawApp
  pub stats : RawStats
  pub notifs : List Notif
  pub latencies : List (ℕ × ℕ)

-- What `raw_deliver_data` reads of a packet: its length, and the bytes from the start of its data.
pub record RxData : Type 0 where
  pub pkt_len : ℕ
  pub mtod : ℕ → ℕ

-- `tpg_raw_client_t` and `tpg_raw_server_t`, with the names of the client.
pub record RawCfg : Type 0 where
  pub req_plen : ℕ
  pub resp_plen : ℕ
  pub rx_tstamp : Bool
  pub tx_tstamp : Bool

-- The sizes of a counter of 32 and of 64 bits.
abbrev pub word_32 : ℕ
word_32 = 4294967296

abbrev pub word_64 : ℕ
word_64 = 18446744073709551616

-- The sizes `sizeof(raw_latency_data_t)` and of a field of 16 bits.
abbrev pub tstamp_size : ℕ
tstamp_size = 16

abbrev pub word_16 : ℕ
word_16 = 65536

-- `raw_client_default_cfg` and `raw_server_default_cfg`
abbrev raw_default_cfg : RawCfg
raw_default_cfg = record { req_plen = 0; resp_plen = 0; rx_tstamp = false; tx_tstamp = false }

-- `raw_stats_init`
abbrev raw_stats_init : RawStats
raw_stats_init = record {
  rsts_req_cnt = 0;
  rsts_resp_cnt = 0;
  rsts_tstamp_no_phys_addr = 0;
  rsts_tstamp_no_mbuf = 0;
  rsts_tstamp_no_win = 0;
}

-- `raw_stats_add`
unfoldable pub raw_stats_add : RawStats → RawStats → RawStats
raw_stats_add total elem = record {
  rsts_req_cnt = (total.rsts_req_cnt + elem.rsts_req_cnt) % word_64;
  rsts_resp_cnt = (total.rsts_resp_cnt + elem.rsts_resp_cnt) % word_64;
  rsts_tstamp_no_phys_addr =
      (total.rsts_tstamp_no_phys_addr + elem.rsts_tstamp_no_phys_addr) % word_32;
  rsts_tstamp_no_mbuf = (total.rsts_tstamp_no_mbuf + elem.rsts_tstamp_no_mbuf) % word_32;
  rsts_tstamp_no_win = (total.rsts_tstamp_no_win + elem.rsts_tstamp_no_win) % word_32;
}

-- `raw_validate_cfg`; `ip_tx_tstamp` says that the IPv4 options of the test case are there and that
-- they stamp the packets too.
unfoldable pub raw_validate_cfg :
    (incoming_len : ℕ) (rx : Bool) (outgoing_len : ℕ) (tx ip_tx_tstamp : Bool) → Bool
raw_validate_cfg incoming_len rx outgoing_len tx ip_tx_tstamp =
    if rx && ltb incoming_len tstamp_size
    then false
    else if tx && ip_tx_tstamp
    then false
    else if tx && ltb outgoing_len tstamp_size
    then false
    else true

unfoldable pub raw_client_validate_cfg : RawCfg → Bool → Bool
raw_client_validate_cfg cfg =
    raw_validate_cfg cfg.resp_plen cfg.rx_tstamp cfg.req_plen cfg.tx_tstamp

unfoldable pub raw_server_validate_cfg : RawCfg → Bool → Bool
raw_server_validate_cfg cfg =
    raw_validate_cfg cfg.req_plen cfg.rx_tstamp cfg.resp_plen cfg.tx_tstamp
