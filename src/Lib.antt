-- ===== src/Lib.antt =====
-- The measuring core of the application: the C program iperf under app/src/main/cpp/iperf. A
-- client and a server agree on the parameters of a test over a control connection, then send and
-- receive on data streams, while timers drive the pacing and the reports.
--
-- The files and the code they model (paths below app/src/main/cpp/iperf):
--   Time       iperf_time.c: time stamps of two uint32_t fields, with their wrap-around
--   Timer      timer.c: the list of active timers, the free list, and the functions on them;
--              Timer/Run is tmr_run
--   Net        net.c: Nread and Nwrite
--   Udp        iperf_udp.c: iperf_udp_send and iperf_udp_recv
--   UdpSetup   iperf_udp.c: iperf_udp_buffercheck, iperf_udp_accept, iperf_udp_listen and
--              iperf_udp_connect
--   Dscp       dscp.c: parse_qos and iptos2str
--   Units      units.c: unit_atof, unit_atof_rate and unit_atoi
--   Error      iperf_api.h: the numbers of i_errno
--   Test       iperf.h, iperf_api.c: the configuration of a test and its direction
--   Getopt     iperf_api.c: the options of iperf_parse_arguments; Getopt/Switch is its `switch`
--   Options    iperf_api.c: iperf_parse_arguments, its loop and the checks behind it
--   Params     iperf_api.c: iperf_defaults, send_parameters and get_parameters
--   Results    iperf_api.c: send_results and get_results
--   Streams    iperf_api.c: iperf_check_throttle, iperf_send and iperf_recv
--   Framing    iperf_api.c: JSON_write and JSON_read
--   Control    iperf_api.c: iperf_set_send_state and the exchanges; Control/Client is
--              iperf_client_api.c and Control/Server is iperf_server_api.c, the handlers of messages
--              and the loops of iperf_run_client and iperf_run_server; Control/System joins the two
--   Stats      iperf_api.c: iperf_stats_callback and iperf_reset_stats, with tcp_info.c; Stats/Tcp is
--              iperf_tcp_send and iperf_tcp_recv of iperf_tcp.c
--   Timing     iperf_client_api.c, iperf_server_api.c and iperf_api.c: the timers of a test, the
--              functions that they call, and cleanup_server
--   DiskFile   iperf_api.c: diskfile_send and diskfile_recv
--   NewStream  iperf_api.c: iperf_new_stream, iperf_init_stream and iperf_free_stream
--   Reset      iperf_api.c: iperf_reset_test
--   Ids        iperf_api.c: iperf_add_stream
--   Util       iperf_util.c: fill_with_repeating_pattern and make_cookie
-- Json is the interface to cJSON, Libc holds the functions of the C library on texts in the C
-- locale, and Prelude the integers, tests and lists that the parts share. A component's theorems
-- stand in its child modules, its tests in the child Examples.
--
-- Functions of the source keep their names. The linked lists of timers are lists in list order,
-- and a node's address is its field `handle`; taking a node off a list that it is not on is a
-- fault, `none`. read(2), write(2), the clock, malloc, sscanf, atof and the timer functions are
-- parameters. `double` is the interface Float, of which no law is used. An `int` is an integer
-- where the source keeps it in range, and a bit pattern where it wraps.
--
-- Nread and Nwrite run on fuel, one round for each byte and one more, which is enough since a
-- round moves at least one byte or is the last. tmr_run runs on fuel above the total lateness of
-- the timers, since a round makes a late timer at least a microsecond less late or takes it off.
--
-- The loops of client and server run over a list of what select(2) leaves in each round; what they
-- call in other parts is the record Calls, of which Control/Frame says that it neither changes the
-- state nor sends one. The two ends take turns in Control/System/Session.
--
-- A session of the two ends consists of rounds that end with no error: the turns in which the server
-- answers by SERVER_ERROR or ACCESS_DENIED, and the signal handler iperf_got_sigend, which sends
-- CLIENT_TERMINATE or SERVER_TERMINATE, are left out of it.
--
-- Not modelled: the set-up of sockets but for UDP streams, the printing of reports,
-- SCTP and authentication (not part of this build), and the Android application around iperf.
pub mod Prelude
pub mod Time
pub mod Timer
pub mod Timing
pub mod Net
pub mod NewStream
pub mod Udp
pub mod UdpSetup
pub mod Libc
pub mod Dscp
pub mod DiskFile
pub mod Error
pub mod Units
pub mod Test
pub mod Getopt
pub mod Options
pub mod Json
pub mod Params
pub mod Streams
pub mod Control
pub mod Framing
pub mod Stats
pub mod Reset
pub mod Results
pub mod Ids
pub mod Util
