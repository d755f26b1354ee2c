-- ===== src/Tcp/Options.antt =====
-- The socket options of TCP between the messages of the management interface and the stack
-- (`tcp_store_sockopt` and `tcp_load_sockopt` of src/tpg_tcp.c): timeouts in milliseconds outside and in
-- microseconds inside, on uint32_t, and retry counts on uint8_t.
use warp.Prelude.{ℕ, ◌*◌, ◌/◌, ◌%◌, ◌<◌, ◌≡◌, Bool, ltb, if◌then◌else◌, arith}
use warp.Tcp.{Sockopt}
use warp.Tcp.Seq.{seq_mod}

-- `tpg_tcp_sockopt_t`, with all its optional fields set.
pub record Message : Type 0 where
  pub to_win_size : ℕ
  pub to_syn_retry_cnt : ℕ
  pub to_syn_ack_retry_cnt : ℕ
  pub to_data_retry_cnt : ℕ
  pub to_retry_cnt : ℕ
  pub to_rto : ℕ
  pub to_fin_to : ℕ
  pub to_twait_to : ℕ
  pub to_orphan_to : ℕ
  pub to_skip_timewait : ℕ
  pub to_ack_delay : ℕ

unfoldable pub tcp_store_sockopt : Message → Sockopt
tcp_store_sockopt o = record {
  tcpo_win_size = o.to_win_size;
  tcpo_syn_retry_cnt = o.to_syn_retry_cnt % 256;
  tcpo_syn_ack_retry_cnt = o.to_syn_ack_retry_cnt % 256;
  tcpo_data_retry_cnt = o.to_data_retry_cnt % 256;
  tcpo_retry_cnt = o.to_retry_cnt % 256;
  tcpo_rto = o.to_rto * 1000 % seq_mod;
  tcpo_fin_to = o.to_fin_to * 1000 % seq_mod;
  tcpo_twait_to = o.to_twait_to * 1000 % seq_mod;
  tcpo_orphan_to = o.to_orphan_to * 1000 % seq_mod;
  tcpo_skip_timewait = ltb 0 o.to_skip_timewait;
  tcpo_ack_delay = ltb 0 o.to_ack_delay;
}

abbrev flag : Bool → ℕ
flag b = if b then 1 else 0

unfoldable pub tcp_load_sockopt : Sockopt → Message
tcp_load_sockopt s = record {
  to_win_size = s.tcpo_win_size;
  to_syn_retry_cnt = s.tcpo_syn_retry_cnt;
  to_syn_ack_retry_cnt = s.tcpo_syn_ack_retry_cnt;
  to_data_retry_cnt = s.tcpo_data_retry_cnt;
  to_retry_cnt = s.tcpo_retry_cnt;
  to_rto = s.tcpo_rto / 1000;
  to_fin_to = s.tcpo_fin_to / 1000;
  to_twait_to = s.tcpo_twait_to / 1000;
  to_orphan_to = s.tcpo_orphan_to / 1000;
  to_skip_timewait = flag s.tcpo_skip_timewait;
  to_ack_delay = flag s.tcpo_ack_delay;
}

-- Counts of 8 bits, timeouts whose microseconds have 32 bits, and flags that are 0 or 1.
pub record Fits (o : Message) : Type 0 where
  pub syn_retry : o.to_syn_retry_cnt < 256
  pub syn_ack_retry : o.to_syn_ack_retry_cnt < 256
  pub data_retry : o.to_data_retry_cnt < 256
  pub any_retry : o.to_retry_cnt < 256
  pub rto : o.to_rto < 4294968
  pub fin : o.to_fin_to < 4294968
  pub twait : o.to_twait_to < 4294968
  pub orphan : o.to_orphan_to < 4294968
  pub skip : o.to_skip_timewait < 2
  pub delay : o.to_ack_delay < 2

timeout_back : (n : ℕ) → n < 4294968 → n * 1000 % seq_mod / 1000 ≡ n
timeout_back n h = omega arith

count_back : (n : ℕ) → n < 256 → n % 256 ≡ n
count_back n h = omega arith

flag_back : (n : ℕ) → n < 2 → flag (ltb 0 n) ≡ n
flag_back n h = ground arith

-- Options that are stored are loaded as they were, when their retry counts have 8 bits, the microseconds
-- of their timeouts 32 bits, and their flags are 0 or 1.
load-store : (o : Message) → Fits o → tcp_load_sockopt (tcp_store_sockopt o) ≡ o
unfolding tcp_load_sockopt tcp_store_sockopt
load-store o f = λ i. record {
  to_win_size = o.to_win_size;
  to_syn_retry_cnt = count_back o.to_syn_retry_cnt f.syn_retry i;
  to_syn_ack_retry_cnt = count_back o.to_syn_ack_retry_cnt f.syn_ack_retry i;
  to_data_retry_cnt = count_back o.to_data_retry_cnt f.data_retry i;
  to_retry_cnt = count_back o.to_retry_cnt f.any_retry i;
  to_rto = timeout_back o.to_rto f.rto i;
  to_fin_to = timeout_back o.to_fin_to f.fin i;
  to_twait_to = timeout_back o.to_twait_to f.twait i;
  to_orphan_to = timeout_back o.to_orphan_to f.orphan i;
  to_skip_timewait = flag_back o.to_skip_timewait f.skip i;
  to_ack_delay = flag_back o.to_ack_delay f.delay i;
}
