-- ===== src/Tcp/Tests.antt =====
-- Tests of the TCP on small connections, and the uses of its theorems at concrete data.
use warp.Prelude.{
  ◌+◌, ◌%◌, ℕ, List, suc, ◌*◌, ◌++◌, join, drop, take, length, ◌≤◌, ◌≡◌, refl, true, false, none,
  some, [], ◌∷◌, arith,
}
use warp.Prelude.Outcome.{Outcome, ok}
use warp.Tcp.{
  DataArg, Code, success, Segment, ts_listen, ts_established, ts_init, ts_closed, Sockopt, Env, Tcb,
  Reply, te_open, te_close, te_segment_arrives, enotconn,
}
use warp.Tcp.Seq.{
  seg_add, seg_diff, acceptance_test, is_between, is_acceptable, acceptance_test_rfc,
}
use warp.Tcp.Send.{
  no_flags, tcp_build_hdr, tcp_send_pkt, tcp_send_ctrl_pkt_with_sseq, tcp_send_ctrl_pkt,
  tcp_timer_rto_set, tcp_timer_rto_cancel,
}
use warp.Tcp.Receive.{tcp_data_handle}
use warp.Tcp.Reorder.{handle-reordered}
use warp.Tcp.Options.{Message, Fits}
use warp.Tcp.Fired.{gives_up, tcp_handle_retrans_to, handle_retrans_to-gives_up}
use warp.Tcp.Stream.{all_bytes, allowed, tcp_data_send-texts}
use warp.Tcp.Data.{pkt_len, avail_send, tcp_data_send, tsm_schedule_retransmission}
use warp.Tcp.Enter.{
  move, stop_rto, stop_timers, release, close_silent, enter_closed, enter_syn_sent,
}
use warp.Tcp.Opening.{tsm_sf_init, tsm_sf_syn_sent}
use warp.Tcp.Machine.{tsm_dispatch_event}
use warp.Tcp.Shut.{is_shut}
use warp.Tcp.Arrive.{tsm_need_ack}
use warp.Tcp.Connect.{connect, AreConnected, connect-AreConnected}
use warp.Tcp.Queue.{cleanup-data}
use warp.Tcp.Sending.{texts}
use warp.Tcp.Stream.{all_bytes, allowed, tcp_data_send-texts}
use warp.Tcp.Data.{pkt_len, avail_send, tcp_data_send, min, segs_per_send, tsm_cleanup_retrans_queu}
use warp.Tcp.Resets.{is_synchronized, dispatch-closed}
use warp.Tcp.Conformance.{run, run-is_shut}

abbrev options : Sockopt
options = record {
  tcpo_win_size = 65535;
  tcpo_syn_retry_cnt = 3;
  tcpo_syn_ack_retry_cnt = 3;
  tcpo_data_retry_cnt = 3;
  tcpo_retry_cnt = 3;
  tcpo_rto = 1000000;
  tcpo_fin_to = 5000000;
  tcpo_twait_to = 5000000;
  tcpo_orphan_to = 5000000;
  tcpo_skip_timewait = false;
  tcpo_ack_delay = false;
}

-- An outside where all goes well.
abbrev fair : Env
fair = record {
  opts = options;
  mtu = 1460;
  builds = λ k. true;
  clones = λ b. true;
  transmits = λ k. true;
  rto_takes = λ n. true;
  slow_takes = λ n. true;
  deliver = λ b. 0;
  has_data_pending = false;
  can_alloc = true;
  can_add = true;
}

abbrev client : Tcb
client = record {
  l4cb_src_addr = 10;
  l4cb_dst_addr = 20;
  l4cb_src_port = 1024;
  l4cb_dst_port = 80;
  tcb_state = ts_init;
  tcb_snd = record { una = 0; nxt = 0; wnd = 0; uo = 0; wl1 = 0; wl2 = 0; iss = 4294967295 };
  tcb_rcv = record { nxt = 0; wnd = 65535; up = 0; irs = 0 };
  tr_data_mbufs = [];
  tr_total_size = 0;
  tcb_rcv_buf = [];
  tcb_active = true;
  tcb_consume_all_data = true;
  tcb_malloced = true;
  on_slow_list = false;
  on_rto_list = false;
  tcb_retrans_cnt = 0;
  tcb_fin_rcvd = false;
  tcb_rst_rcvd = false;
  tcb_rcv_fin_seq = 0;
  is_known = true;
  is_freed = false;
  effects = [];
}

abbrev of_reply : Outcome Reply → Reply
of_reply (ok r) = r
of_reply _ = record { tcb = client; child = none; code = enotconn }

-- The client after its open, and after a close that follows.
abbrev opened : Reply
opened = of_reply (tsm_dispatch_event fair client te_open)

abbrev closed : Reply
closed = of_reply (tsm_dispatch_event fair opened.tcb te_close)

run-client : run ((fair, te_open) ∷ (fair, te_close) ∷ []) client ≡ ok closed.tcb
unfolding run tsm_dispatch_event tsm_sf_init tsm_sf_syn_sent enter_syn_sent enter_closed
    close_silent release stop_timers stop_rto move tsm_schedule_retransmission tcp_timer_rto_set
    tcp_timer_rto_cancel tcp_send_ctrl_pkt tcp_send_ctrl_pkt_with_sseq tcp_send_pkt tcp_build_hdr
run-client = refl

closed_state : closed.tcb.tcb_state ≡ ts_closed
unfolding tsm_dispatch_event tsm_sf_init tsm_sf_syn_sent enter_syn_sent enter_closed close_silent
    release stop_timers stop_rto move tsm_schedule_retransmission tcp_timer_rto_set
    tcp_timer_rto_cancel tcp_send_ctrl_pkt tcp_send_ctrl_pkt_with_sseq tcp_send_pkt tcp_build_hdr
closed_state = refl

acceptance_test_example :
    acceptance_test 4294967290 10 20 4294967280 ≡ is_acceptable 4294967290 10 20 4294967280
acceptance_test_example =
    acceptance_test_rfc 4294967290 10 20 4294967280 (omega arith) (omega arith) (omega arith)
      (omega arith)

run-is_shut_example : is_shut closed.tcb ≡ true
run-is_shut_example =
    run-is_shut ((fair, te_open) ∷ (fair, te_close) ∷ []) client closed.tcb refl run-client
      closed_state

-- A listener, and the client with five bytes in two buffers, all of them sent.
abbrev server : Tcb
server = record client {
  tcb_state = ts_listen;
  tcb_active = false;
  tcb_snd = record client.tcb_snd { iss = 70000 };
}

abbrev sender : Tcb
sender = record client {
  tcb_state = ts_established;
  tcb_snd = record { una = 4294967294; nxt = 3; wnd = 1000; uo = 0; wl1 = 0; wl2 = 0; iss = 0 };
  tr_data_mbufs = (1 ∷ 2 ∷ []) ∷ (3 ∷ 4 ∷ 5 ∷ []) ∷ [];
  tr_total_size = 5;
}

builds_all : (k : Segment) → fair.builds k ≡ true
builds_all k = refl

transmits_all : (k : Segment) → fair.transmits k ≡ true
transmits_all k = refl

clones_all : (b : List ℕ) → fair.clones b ≡ true
clones_all b = refl

acks_at_once : tsm_need_ack fair ≡ true
unfolding tsm_need_ack
acks_at_once = refl

connect-AreConnected_example :
    (t : Tcb × Tcb) × (connect fair fair client server ≡ ok t) × AreConnected t.0 t.1
connect-AreConnected_example =
    connect-AreConnected fair fair builds_all builds_all client server refl refl refl refl refl
      acks_at_once (omega arith) (omega arith) (omega arith)

cleanup-data_example :
    (t : Tcb) × (tsm_cleanup_retrans_queu 1 sender ≡ ok t)
    × (join t.tr_data_mbufs ≡ drop (seg_diff 1 4294967294) (join sender.tr_data_mbufs))
    × (t.tr_total_size ≡ length (join t.tr_data_mbufs))
    × (t.tcb_snd.una ≡ 1)
cleanup-data_example = cleanup-data 1 sender refl (omega arith) (omega arith)

abbrev more : DataArg
more = record { tda_mbuf = (6 ∷ 7 ∷ []) ∷ []; tda_push = true; tda_urg = false }

more_fits : pkt_len more.tda_mbuf ≤ avail_send fair sender
unfolding avail_send
more_fits = omega arith

tcp_data_send-texts_example :
    (r : Tcb × Code) × (tcp_data_send fair more sender ≡ ok r)
    × (r.1 ≡ success)
    × (texts r.0.effects
        ≡ texts sender.effects
          ++ take
              (min (allowed more sender) (suc segs_per_send * 1460))
              (drop (seg_diff 3 4294967294) (all_bytes more sender)))
    × (r.0.tcb_snd.nxt ≡ seg_add 3 (min (allowed more sender) (suc segs_per_send * 1460)))
tcp_data_send-texts_example =
    tcp_data_send-texts fair more sender clones_all builds_all transmits_all refl (omega arith)
      (omega arith) more_fits (omega arith) refl (omega arith) (omega arith) (omega arith)

-- An outside whose application takes all that it is offered.
abbrev eager : Env
eager = record fair { deliver = λ b. length b }

takes_all : (b : List ℕ) → eager.deliver b ≡ length b
takes_all b = refl

handle-reordered_example :
    (p : Tcb × ℕ) × (q : Tcb × ℕ) × (tcp_data_handle eager (seg_add 0 2) (7 ∷ []) sender ≡ p)
    × (tcp_data_handle eager 0 (5 ∷ 6 ∷ []) p.0 ≡ q)
    × (p.1 ≡ 0)
    × (p.0.tcb_rcv.nxt ≡ 0)
    × (q.1 ≡ 3)
    × (q.0.tcb_rcv.nxt ≡ seg_add 0 3)
    × (q.0.tcb_rcv_buf ≡ [])
handle-reordered_example =
    handle-reordered eager (5 ∷ 6 ∷ []) (7 ∷ []) sender takes_all (omega arith) refl (omega arith)
      (omega arith) (omega arith)

-- The connection after two retransmissions without an answer.
abbrev tired : Tcb
tired = record sender { on_rto_list = true; tcb_retrans_cnt = 2 }

tired-gives_up : gives_up ts_established fair.opts ((tired.tcb_retrans_cnt + 1) % 256) ≡ true
unfolding gives_up
tired-gives_up = refl

handle_retrans_to-gives_up_example :
    (r : Reply) × (tcp_handle_retrans_to fair tired ≡ ok r)
    × (r.tcb.tcb_state ≡ ts_closed)
    × (is_shut r.tcb ≡ true)
handle_retrans_to-gives_up_example = handle_retrans_to-gives_up fair tired tired-gives_up

abbrev message : Message
message = record {
  to_win_size = 65535;
  to_syn_retry_cnt = 3;
  to_syn_ack_retry_cnt = 3;
  to_data_retry_cnt = 3;
  to_retry_cnt = 3;
  to_rto = 1000;
  to_fin_to = 5000;
  to_twait_to = 5000;
  to_orphan_to = 5000;
  to_skip_timewait = 1;
  to_ack_delay = 0;
}

message-Fits : Fits message
message-Fits = record {
  syn_retry = omega arith;
  syn_ack_retry = omega arith;
  data_retry = omega arith;
  any_retry = omega arith;
  rto = omega arith;
  fin = omega arith;
  twait = omega arith;
  orphan = omega arith;
  skip = omega arith;
  delay = omega arith;
}

-- A connection that is established, and a reset with the number that is due.
abbrev busy : Tcb
busy = record client {
  tcb_state = ts_established;
  tcb_rcv = record { nxt = 7; wnd = 65535; up = 0; irs = 6 };
}

abbrev reset_segment : Segment
reset_segment = record {
  src_addr = 20;
  dst_addr = 10;
  src_port = 80;
  dst_port = 1024;
  sent_seq = 7;
  recv_ack = 0;
  tcp_flags = record no_flags { rst = true };
  rx_win = 0;
  tcp_urp = 0;
  text = [];
}

dispatch-closed_example :
    (r : Reply) × (tsm_dispatch_event fair busy (te_segment_arrives (some reset_segment)) ≡ ok r)
    × (r.tcb.tcb_state ≡ ts_closed)
unfolding is_synchronized acceptance_test is_between
dispatch-closed_example = dispatch-closed fair reset_segment busy refl refl refl
