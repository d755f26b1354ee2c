-- ===== src/Lib.antt =====
-- The core of WARP17, a stateful traffic generator for TCP and UDP (C, DPDK): the engine that drives
-- the sessions of a test, the TCP of a connection, the timers, and the link and network layer state
-- of a port.
--
-- The parts and how they interact. The session machine (src/tpg_tests_sm.c) moves each session of a
-- test through its states: it waits for its turn to open, is opened, sends, waits and closes, and a
-- client starts again. It keeps every session in one of the queues of its test case, from which the
-- runners take their work at the rates of src/tpg_rate.c, and sets the session's test timer. The
-- timers (src/tpg_timer.c) are wheels of buckets that the packet loop advances; a test timer that
-- fires is an event of the session machine. An open session is a connection of the TCP machine
-- (src/tpg_tcp_sm.c), which notifies the session machine of its changes. A segment that leaves needs
-- the link address of its next hop, which routing (src/tpg_route.c) finds in the ARP table of the port
-- (src/tpg_arp.c); that one learns from the packets received, and answers for the addresses of the
-- port.
--
-- The files:
-- - Prelude: numbers, lists, occurrences in an intrusive list, and Prelude/Outcome, a step that ends
--   in a state or a fault: a failed assert, a removal that sys/queue.h leaves undefined, an access
--   through a null pointer, an abort, or no more fuel.
-- - Timer (src/tpg_timer.c, inc/tpg_timer.h): tmr_wheel_t is Wheel, a bucket the list of its blocks,
--   the "on list" flags of the control blocks are a function. l4cb_timer_test_set and _cancel are
--   timer_set and timer_cancel, TIMER_SET is insert_timer, tpg_time_wheel_advance is wheel_advance;
--   the theorems are in Timer/Set, Timer/Progress and Timer/Due.
-- - TestSm (src/tpg_tests_sm.c, inc/tpg_tests_sm.h, inc/tpg_tests.h): test_case_info_t with its
--   sessions is one state; TEST_CBQ_ADD_* and TEST_CBQ_REM_* are cbq_add and cbq_rem on a Queue.
--   TestSm/Client and TestSm/Server hold a function per test_sm_SF_ handler, TestSm/Machine the table
--   (test_sm_function_array) and test_sm_dispatch_event; TestSm/Spec has the edges of the diagram
--   dot/tpg_test_sm.dot, and apart from them the transitions that it does not draw; TestSm/React compares
--   the machine with both. TestSm/Keep, Frame, Timeouts and Sessions hold the
--   invariants.
-- - Tcp (src/tpg_tcp_sm.c, src/tpg_tcp_data.c, src/tpg_tcp.c and their headers): Tcb is
--   tcp_control_block_t with its l4 part, and keeps a log of what it sends, notifies and counts.
--   Tcp/Seq has the SEG_ comparisons and tsm_do_receive_acceptance_test, Tcp/Send the segments and
--   the two timers of a connection, Tcp/Data and Tcp/Receive the data sent and received. Tcp/Enter has
--   what each state does when it is entered (tsm_enter_state), Tcp/Arrive the checks that the states
--   share, Tcp/Opening and Tcp/Closing a function per tsm_SF_ function, Tcp/Machine their table and
--   tsm_dispatch_event. Tcp/Diagram is the diagram of RFC 793 with the flags of segments; Tcp/Keep, Shut, Transition, Opened,
--   Texts, KeptFin, Closed and Ended lead to Tcp/Conformance, which compares the two; Tcp/Resets is
--   about the segments that reset a connection. Tcp/View, Numbers, Handshake,
--   Completion and Connect
--   let two machines open a connection with each other; Tcp/Queue, Sending and Stream follow the bytes
--   that are sent, Tcp/Reorder those that arrive.
--   Tcp/Fired has the timers of a connection that fire, Tcp/Options tcp_store_sockopt and
--   tcp_load_sockopt.
-- - Slots: tables of slots that are in use or free, as ARP and routing search them.
-- - Arp (src/tpg_arp.c, inc/tpg_arp.h): the table of one port with arp_update_entry, arp_delete_entry
--   and the lookups; Arp/Packets has arp_receive_pkt and the requests and replies it processes.
-- - Route (src/tpg_route.c, inc/tpg_route.h): the tables of one port; Route/Callbacks has the messages
--   that add and remove interfaces and the default gateway, Route/NextHop route_v4_nh_lookup.
-- - Rate (src/tpg_rate.c, inc/tpg_rate.h): rate_limit_cfg_t is Cfg, rate_limit_t is Limit. Rate/Spread
--   and Rate/Divide are about rate_limit_cfg_init, Rate/Share about rate_limit_init, and Rate/Interval holds what a
--   runner does in an interval, with test_case_rate_limit_update of src/tpg_tests.c; Rate/Timer is its
--   test_case_tmr_cb.
-- - Raw (src/appl/tpg_test_raw_app.c, inc/appl/tpg_test_raw_app.h): raw_app_t with its counters and
--   the notifications that it raises is Raw. Raw/Session has the callbacks, with the helpers of the
--   client and the server under their names; Raw/Chain has data_chain_from_static_template of
--   inc/tpg_data.h and Raw/Stamp what is sent. Raw/Pieces and Raw/Sent follow a message in parts,
--   Raw/Exchange two sessions that talk to each other, Raw/Bounds any order of calls.
-- - Lookup (src/tpg_lookup.c, inc/tpg_lookup.h, src/tpg_tcp_lookup.c, src/tpg_trace_filter.c): the
--   hash table of the blocks of a core is Table, a block is its number. Lookup/Refine is about
--   searches, Lookup/Walk about tlkp_walk_v4; Lookup/Demux is tcp_receive_pkt of src/tpg_tcp.c up to
--   the state machine, and Lookup/Opened the packets of a connection that was just added.
-- - Msg (src/tpg_msg.c, inc/tpg_msg.h): a message is its number, its memory and the rings are in Bus;
--   msg_do_send is cut at its wait, so that end_wait is what follows. Msg/Steps has the steps that the
--   cores make in any order, Msg/Sound, Safe and Run what they keep, Msg/Handlers the handlers and
--   polls.
-- - Engine (src/tpg_tests.c): the runners test_case_run_open_cb, test_case_run_close_cb and
--   test_case_run_send_cb over the queues of TestSm and the limits of Rate. Engine is the part of
--   test_case_info_t that they use, batch their common loop. Engine/Opens is about any protocol,
--   Engine/Sessions about one that connects at once, through the session machine.
--
-- Bounds and fuel. A handler may enter a state whose own entry event enters another one;
-- dispatch_event has fuel for three calls within each other, the deepest chain that there is. The
-- advance of a wheel has fuel for as many buckets as the wheel has, which is enough when it starts
-- within one turn. The loops that divide a rate have fuel for the rate that is left, of which each
-- round gives out at least one unit, and a walk over the slots has fuel for the slots, as its steps
-- are above 0. The chain of a text has fuel for its bytes, of which a turn takes off a template. A send
-- makes at most two segments, as GCFG_TCP_SEGS_PER_SEND is 1. A batch has the number of sessions
-- that its rate lets it start. The other loops run over lists. The products and sums of the timers
-- wrap as uint64_t, what is left of a raw message as uint16_t,
-- and link addresses have 48 bits; the counters of the statistics are not bounded.
--
-- What is a parameter: whether there is memory for slots, what TCP takes from outside (Env of Tcp: its
-- options, whether buffers, the driver, the timer wheels, the allocator and the table of connections
-- serve it, and what the application takes of a text, as a number: an application that closes the connection
-- while it takes a text, as the HTTP ones can with TEST_NOTIF_APP_CLOSE, is not modelled), the callbacks of a protocol and an application
-- that a runner calls (Callbacks of Engine), the application of a session (whether its
-- conn_up callback raises the start of sending), the clock, the link address of a port, the core a
-- message or a packet arrives on, the Toeplitz hash, and what DPDK answers for a buffer: whether it can be
-- allocated, and what is left of it after a trim,
-- whether a ring takes one more message, and the answers of the handlers of messages.
--
-- What is not modelled: a block that is added to the hash table while it is in it or deleted while it is
-- not, which ruins the list or is undefined; the parsing of packets below TCP and the calls of the TCP API, UDP, the
-- allocation of messages, the rest of the test case engine, test management and its command line, the
-- other applications, statistics and traces, and the calls of DPDK, of which ARP and routing keep a log of
-- the packets that they ask to send.
pub mod Prelude
pub mod Slots
pub mod Timer
pub mod TestSm
pub mod Tcp
pub mod Rate
pub mod Arp
pub mod Route
pub mod Raw
pub mod Lookup
pub mod Msg
pub mod Engine
