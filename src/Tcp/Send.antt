-- ===== src/Tcp/Send.antt =====
-- The segments of a connection on their way out (src/tpg_tcp.c), and its two timers (src/tpg_timer.c).
use warp.Prelude.{ℕ, ◌%◌, Bool, true, false, List, [], ◌∷◌, length, if◌then◌else◌}
use warp.Tcp.{
  Flags, Segment, Tcb, Env, Effect, pkt, notif, inc, Counter, Notif, ts_sent_syn, ts_sent_fin,
  ts_sent_rst, ts_sent_ctrl_pkts, ts_sent_data_pkts, ts_sent_ctrl_bytes, ts_sent_data_bytes,
  ts_failed_data_pkts, tts_rto_set, tts_rto_failed, tts_rto_cancelled, tts_slow_set,
  tts_slow_failed, tts_slow_cancelled, tts_invalid_flags,
}

abbrev pub log : Effect → Tcb → Tcb
log e c = record c { effects = e ∷ c.effects }

-- INC_STATS and DEC_STATS.
abbrev pub count : Counter → Tcb → Tcb
count k c = log (inc k 1) c

-- TCP_NOTIF.
abbrev pub notify : Notif → Tcb → Tcb
notify n c = log (notif n) c

abbrev pub no_flags : Flags
no_flags = record { urg = false; ack = false; psh = false; rst = false; syn = false; fin = false }

-- The combinations of RTE_TCP_*_FLAG that the machine sends.
abbrev pub flags_syn : Flags
flags_syn = record no_flags { syn = true }

abbrev pub flags_syn_ack : Flags
flags_syn_ack = record no_flags { syn = true; ack = true }

abbrev pub flags_ack : Flags
flags_ack = record no_flags { ack = true }

abbrev pub flags_rst : Flags
flags_rst = record no_flags { rst = true }

abbrev pub flags_rst_ack : Flags
flags_rst_ack = record no_flags { rst = true; ack = true }

abbrev pub flags_fin_ack : Flags
flags_fin_ack = record no_flags { fin = true; ack = true }

-- `tcp_build_hdr`, without the checksum; TCP_BUILD_FLAG_USE_ISS is an argument of its own.
unfoldable pub tcp_build_hdr : Tcb → ℕ → Flags → Bool → List ℕ → Segment
tcp_build_hdr c sseq flags use_iss bytes = record {
  src_addr = c.l4cb_src_addr;
  dst_addr = c.l4cb_dst_addr;
  src_port = c.l4cb_src_port;
  dst_port = c.l4cb_dst_port;
  sent_seq = if use_iss then c.tcb_snd.iss else sseq;
  recv_ack = c.tcb_rcv.nxt;
  tcp_flags = flags;
  rx_win = c.tcb_rcv.wnd % 65536;
  tcp_urp = 0;
  text = bytes;
}

-- `tcp_send_pkt`: whether the driver took the segment. A header has 20 bytes.
unfoldable pub tcp_send_pkt : Env → ℕ → Flags → Bool → List ℕ → Tcb → Tcb × Bool
unfolding tcp_build_hdr
tcp_send_pkt env sseq flags use_iss bytes c =
    let seg = tcp_build_hdr c sseq flags use_iss bytes in
    let counted =
      log (pkt seg)
        (log (inc ts_sent_data_bytes (length bytes)) (log (inc ts_sent_ctrl_bytes 20) c)) in
    if env.builds seg then (counted, env.transmits seg) else (count ts_failed_data_pkts c, false)

-- `tcp_send_data_pkt`.
unfoldable pub tcp_send_data_pkt : Env → ℕ → Flags → List ℕ → Tcb → Tcb × Bool
unfolding tcp_send_pkt
tcp_send_data_pkt env sseq flags bytes c =
    let r = tcp_send_pkt env sseq flags false bytes c in
    if r.1 then (count ts_sent_data_pkts r.0, true) else (r.0, false)

abbrev count_if : Bool → Counter → Tcb → Tcb
count_if b k c = if b then count k c else c

-- `tcp_send_ctrl_pkt_with_sseq`; what it answers is not looked at.
unfoldable pub tcp_send_ctrl_pkt_with_sseq : Env → ℕ → Flags → Bool → Tcb → Tcb
unfolding tcp_send_pkt
tcp_send_ctrl_pkt_with_sseq env sseq flags use_iss c =
    let counted =
      count_if flags.rst ts_sent_rst
        (count_if flags.fin ts_sent_fin (count_if flags.syn ts_sent_syn c)) in
    let r = tcp_send_pkt env sseq flags use_iss [] counted in count_if r.1 ts_sent_ctrl_pkts r.0

-- `tcp_send_ctrl_pkt`.
unfoldable pub tcp_send_ctrl_pkt : Env → Flags → Bool → Tcb → Tcb
unfolding tcp_send_ctrl_pkt_with_sseq
tcp_send_ctrl_pkt env flags use_iss c =
    tcp_send_ctrl_pkt_with_sseq env c.tcb_snd.nxt flags use_iss c

-- `tcp_send_ack_pkt`.
unfoldable pub tcp_send_ack_pkt : Env → Tcb → Tcb
unfolding tcp_send_pkt
tcp_send_ack_pkt env c =
    let r = tcp_send_pkt env c.tcb_snd.nxt flags_ack false [] c in
    count_if r.1 ts_sent_ctrl_pkts r.0

-- `tcp_timer_rto_set`, `tcp_timer_rto_cancel`, `tcp_timer_slow_set` and `tcp_timer_slow_cancel`; the wheels
-- are those of Timer.
unfoldable pub tcp_timer_rto_set : Env → ℕ → Tcb → Tcb
tcp_timer_rto_set env timeout_us c =
    if c.on_rto_list
    then count tts_invalid_flags c
    else if env.rto_takes timeout_us
    then count tts_rto_set (record c { on_rto_list = true })
    else count tts_rto_failed c

unfoldable pub tcp_timer_rto_cancel : Tcb → Tcb
tcp_timer_rto_cancel c =
    if c.on_rto_list
    then count tts_rto_cancelled (record c { on_rto_list = false })
    else count tts_invalid_flags c

unfoldable pub tcp_timer_slow_set : Env → ℕ → Tcb → Tcb
tcp_timer_slow_set env timeout_us c =
    if c.on_slow_list
    then count tts_invalid_flags c
    else if env.slow_takes timeout_us
    then count tts_slow_set (record c { on_slow_list = true })
    else count tts_slow_failed c

unfoldable pub tcp_timer_slow_cancel : Tcb → Tcb
tcp_timer_slow_cancel c =
    if c.on_slow_list
    then count tts_slow_cancelled (record c { on_slow_list = false })
    else count tts_invalid_flags c
