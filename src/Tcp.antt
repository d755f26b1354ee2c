-- ===== src/Tcp.antt =====
-- The TCP of src/tpg_tcp_sm.c, src/tpg_tcp_data.c, src/tpg_tcp.c and their headers: the control block of
-- a connection, its state machine with the packets, notifications and counts that it makes, and what it
-- takes from outside. A chain of buffers is the list of their texts.
pub mod Seq
pub mod Send
pub mod Data
pub mod Receive
pub mod Enter
pub mod Arrive
pub mod Opening
pub mod Closing
pub mod Machine
pub mod Keep
pub mod KeptFin
pub mod Resets
pub mod Shut
pub mod Transition
pub mod Diagram
pub mod Opened
pub mod Texts
pub mod Closed
pub mod Ended
pub mod Conformance
pub mod View
pub mod Numbers
pub mod Handshake
pub mod Completion
pub mod Connect
pub mod Queue
pub mod Sending
pub mod Stream
pub mod Reorder
pub mod Options
pub mod Fired
mod Tests
use warp.Prelude.{ℕ, Bool, true, false, Option, List}

-- `tcpState_t`.
pub data State : Type 0 where
  ts_init ts_listen ts_syn_sent ts_syn_recv ts_established ts_fin_wait_i ts_fin_wait_ii ts_last_ack
        ts_closing ts_time_wait ts_close_wait ts_closed :
      State

-- The control bits of a TCP header.
pub record Flags : Type 0 where
  pub urg : Bool
  pub ack : Bool
  pub psh : Bool
  pub rst : Bool
  pub syn : Bool
  pub fin : Bool

-- A segment, received or sent: the addresses, the header in the byte order of the host, and the text.
pub record Segment : Type 0 where
  pub src_addr : ℕ
  pub dst_addr : ℕ
  pub src_port : ℕ
  pub dst_port : ℕ
  pub sent_seq : ℕ
  pub recv_ack : ℕ
  pub tcp_flags : Flags
  pub rx_win : ℕ
  pub tcp_urp : ℕ
  pub text : List ℕ

-- `tsm_data_arg_t`.
pub record DataArg : Type 0 where
  pub tda_mbuf : List (List ℕ)
  pub tda_push : Bool
  pub tda_urg : Bool

-- `tcpEvent_t`, with the argument of the events that have one; `none` is NULL. TE_ENTER_STATE is not here:
-- `tsm_enter_state` alone raises it, and Tcp/Enter has what each state does at it.
pub data Event : Type 0 where
  te_open te_receive te_close te_abort te_status te_user_timeout te_retransmission_timeout
        te_orphan_timeout te_fin_timeout te_time_wait_timeout :
      Event
  te_send : Option DataArg → Event
  te_segment_arrives : Option Segment → Event

-- `tcb_snd_t`.
pub record Snd : Type 0 where
  pub una : ℕ
  pub nxt : ℕ
  pub wnd : ℕ
  pub uo : ℕ
  pub wl1 : ℕ
  pub wl2 : ℕ
  pub iss : ℕ

-- `tcb_rcv_t`.
pub record Rcv : Type 0 where
  pub nxt : ℕ
  pub wnd : ℕ
  pub up : ℕ
  pub irs : ℕ

-- `tcb_buf_hdr_t` with the text of its buffers; the timestamp is left out.
pub record RcvBuf : Type 0 where
  pub seg_seq : ℕ
  pub seg_text : List ℕ

-- The notifications of a TCP session to its test.
pub data Notif : Type 0 where
  sess_connecting sess_connected sess_listen sess_srv_connected sess_closing sess_closed
        sess_win_avail sess_win_unavail :
      Notif

-- The counters that the machine changes; `tsms_tcb_states` counts the connections in a state.
pub data Counter : Type 0 where
  ts_recv_syn ts_recv_fin ts_recv_rst ts_sent_syn ts_sent_fin ts_sent_rst ts_sent_ctrl_pkts
        ts_sent_data_pkts ts_sent_ctrl_bytes ts_sent_data_bytes ts_failed_data_pkts
        ts_failed_data_clone ts_tcb_malloced ts_tcb_freed ts_tcb_alloc_err tsms_syn_to
        tsms_synack_to tsms_retry_to tsms_snd_win_full tsms_missing_seq tsms_retrans_bytes
        tts_rto_set tts_rto_failed tts_rto_cancelled tts_slow_set tts_slow_failed tts_slow_cancelled
        tts_invalid_flags :
      Counter
  tsms_tcb_states : State → Counter

-- What a connection does to the outside, the latest first: segments handed to the driver, notifications, changes
-- of counters, and the bytes that a send reports as sent.
pub data Effect : Type 0 where
  pkt : Segment → Effect
  notif : Notif → Effect
  inc : Counter → ℕ → Effect
  dec : Counter → Effect
  data_sent : ℕ → Effect

-- `tcp_control_block_t`, with the part of `l4_control_block_t` that TCP uses. `is_known` tells that the
-- block is in the table of connections, `is_freed` that its memory was given back.
pub record Tcb : Type 0 where
  pub l4cb_src_addr : ℕ
  pub l4cb_dst_addr : ℕ
  pub l4cb_src_port : ℕ
  pub l4cb_dst_port : ℕ
  pub tcb_state : State
  pub tcb_snd : Snd
  pub tcb_rcv : Rcv
  pub tr_data_mbufs : List (List ℕ)
  pub tr_total_size : ℕ
  pub tcb_rcv_buf : List RcvBuf
  pub tcb_active : Bool
  pub tcb_consume_all_data : Bool
  pub tcb_malloced : Bool
  pub on_slow_list : Bool
  pub on_rto_list : Bool
  pub tcb_retrans_cnt : ℕ
  pub tcb_fin_rcvd : Bool
  pub tcb_rst_rcvd : Bool
  pub tcb_rcv_fin_seq : ℕ
  pub is_known : Bool
  pub is_freed : Bool
  pub effects : List Effect

-- `tcp_sockopt_t`, with timeouts in microseconds.
pub record Sockopt : Type 0 where
  pub tcpo_win_size : ℕ
  pub tcpo_syn_retry_cnt : ℕ
  pub tcpo_syn_ack_retry_cnt : ℕ
  pub tcpo_data_retry_cnt : ℕ
  pub tcpo_retry_cnt : ℕ
  pub tcpo_rto : ℕ
  pub tcpo_fin_to : ℕ
  pub tcpo_twait_to : ℕ
  pub tcpo_orphan_to : ℕ
  pub tcpo_skip_timewait : Bool
  pub tcpo_ack_delay : Bool

-- What the machine takes from outside: its options, the segment size of the port (TCB_MTU), whether there
-- are buffers for a header or for a copy of a text, whether the driver takes a segment, whether the
-- timer wheels take a timeout, what the application takes of a text, whether it is about to send, and
-- whether a block can be allocated and be added to the table. What the application takes of a text
-- (`deliver`) is a number: it does not close the connection while it takes the text, which the HTTP
-- applications do at a message that is not valid, and the raw one never does.
pub record Env : Type 0 where
  pub opts : Sockopt
  pub mtu : ℕ
  pub builds : Segment → Bool
  pub clones : List ℕ → Bool
  pub transmits : Segment → Bool
  pub rto_takes : ℕ → Bool
  pub slow_takes : ℕ → Bool
  pub deliver : List ℕ → ℕ
  pub has_data_pending : Bool
  pub can_alloc : Bool
  pub can_add : Bool

-- 0, -ENOTCONN, -ENOMEM, -EAGAIN, -EINVAL.
pub data Code : Type 0 where
  success enotconn enomem eagain einval : Code

-- What an event ends in: the block, a block that was cloned for a new connection, and the answer.
pub record Reply : Type 0 where
  pub tcb : Tcb
  pub child : Option Tcb
  pub code : Code
