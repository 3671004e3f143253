-- ===== src/Getopt/Switch.antt =====
-- iperf_api.c: the `switch` of iperf_parse_arguments, in three stretches of its cases.
use sber_wifi.Prelude.{ℕ, ◌*◌, Bool, true, not, ◌||◌, some, [], ◌∷◌, ◌++◌, ◌==◌}
use sber_wifi.Prelude.Int.{pos, is_neg}
use sber_wifi.Prelude.Float.{Float}
use sber_wifi.Libc.{Text, atoi, int_of_pattern}
use sber_wifi.Dscp.{parse_qos}
use sber_wifi.Error.{
  ie_badformat, ie_servclient, ie_unimp, ie_duration, ie_numstreams, ie_reversebidir, ie_mss,
  ie_badtos, ie_nosendfile, ie_omit,
}
use sber_wifi.Units.{unit_atoi}
use sber_wifi.Test.{
  udp, inet, inet6, set_protocol, iperf_set_test_role, iperf_set_test_reverse,
  iperf_set_test_bidirectional,
}
use sber_wifi.Getopt.{
  Flag, port, format, interval, daemon, one_off, verbose, json, version, server, client, udp_flag,
  sctp_flag, nstreams, bitrate, time, bytes, blockcount, length_flag, parallel, reverse, bidir,
  window, bind, cport, set_mss, no_delay, version4, version6, tos, dscp, extra_data, flowlabel,
  xbind, zerocopy, repeating_payload, omit, file, affinity, title, congestion, debug, pidfile,
  logfile, forceflush, get_server_output, udp_counters_64bit, no_fq_socket_pacing, fq_rate,
  pacing_timer, connect_timeout, help, Result, ok, err, exits, ◌>>=◌, ◌>>◌, fail_if, Parse,
  is_unit_format, first, with_test, with_settings, client_only, server_only, gt_ℤ, parse_port,
  bitrate_option, window_option, interval_option, tos_option,
}

module _ (F : Float) (retransmits : Bool) (zero_copy : Bool) (scan : Text → F.Double × ℕ)
    (atof : Text → F.Double) where
  -- The rounds of the `switch` from -S on.
  unfoldable parse_tuning : Flag → Text → Parse F → Result (Parse F)
  unfolding tos_option
  parse_tuning tos optarg p = tos_option F retransmits zero_copy scan atof optarg p
  parse_tuning dscp optarg p = do
    let t = p.test
    fail_if (is_neg (parse_qos (some optarg))) ie_badtos
    ok (client_only (with_settings p (record t.settings { tos = parse_qos (some optarg) })))
  parse_tuning extra_data optarg p =
      let t = p.test in ok (client_only (with_test p (record t { extra_data = some optarg })))
  parse_tuning flowlabel optarg p = err ie_unimp
  parse_tuning xbind optarg p =
      let t = p.test in ok (with_test p (record t { xbind_addrs = t.xbind_addrs ++ optarg ∷ [] }))
  parse_tuning zerocopy optarg p = do
    let t = p.test
    fail_if (not zero_copy) ie_nosendfile
    ok (client_only (with_test p (record t { zerocopy = true })))
  parse_tuning repeating_payload optarg p =
      let t = p.test in ok (client_only (with_test p (record t { repeating_payload = true })))
  parse_tuning omit optarg p = do
    let t = p.test
    fail_if (is_neg (atoi optarg) || gt_ℤ (atoi optarg) (pos 60)) ie_omit
    ok (client_only (with_test p (record t { omit = atoi optarg })))
  parse_tuning file optarg p =
      let t = p.test in ok (with_test p (record t { diskfile_name = some optarg }))
  parse_tuning affinity optarg p = err ie_unimp
  parse_tuning title optarg p =
      let t = p.test in ok (client_only (with_test p (record t { title = some optarg })))
  parse_tuning congestion optarg p = err ie_unimp
  parse_tuning debug optarg p = let t = p.test in ok (with_test p (record t { debug = true }))
  parse_tuning pidfile optarg p =
      let t = p.test in ok (server_only (with_test p (record t { pidfile = some optarg })))
  parse_tuning logfile optarg p =
      let t = p.test in ok (with_test p (record t { logfile = some optarg }))
  parse_tuning forceflush optarg p =
      let t = p.test in ok (with_test p (record t { forceflush = true }))
  parse_tuning get_server_output optarg p =
      let t = p.test in ok (client_only (with_test p (record t { get_server_output = true })))
  parse_tuning udp_counters_64bit optarg p =
      let t = p.test in ok (with_test p (record t { udp_counters_64bit = true }))
  parse_tuning no_fq_socket_pacing optarg p = err ie_unimp
  parse_tuning fq_rate optarg p = err ie_unimp
  parse_tuning pacing_timer optarg p =
      let t = p.test in
      ok (
        client_only (
          with_settings p
            (record t.settings { pacing_timer = int_of_pattern (unit_atoi F scan optarg) })))
  parse_tuning connect_timeout optarg p =
      let t = p.test in
      ok (
        client_only (
          with_settings p
            (record t.settings { connect_timeout = int_of_pattern (unit_atoi F scan optarg) })))
  parse_tuning help optarg p = exits 0
  parse_tuning _ optarg p = exits 1

  -- The rounds from -u to -6. `nstreams` has no `break` and goes on into the case of -b.
  unfoldable parse_traffic : Flag → Text → Parse F → Result (Parse F)
  unfolding bitrate_option window_option parse_tuning
  parse_traffic udp_flag optarg p =
      ok (client_only (with_test p (set_protocol F retransmits udp p.test).1))
  parse_traffic sctp_flag optarg p = err ie_unimp
  parse_traffic nstreams optarg p =
      let t = p.test in
      bitrate_option F retransmits zero_copy scan atof optarg (
        client_only (
          with_settings p
            (record t.settings { num_ostreams = int_of_pattern (unit_atoi F scan optarg) })))
  parse_traffic bitrate optarg p = bitrate_option F retransmits zero_copy scan atof optarg p
  parse_traffic time optarg p = do
    let t = p.test
    fail_if (gt_ℤ (atoi optarg) (pos 86400)) ie_duration
    let q = with_test p (record t { duration = atoi optarg })
    ok (record q { duration_flag = true; client_flag = true })
  parse_traffic bytes optarg p =
      let t = p.test in
      ok (client_only (with_settings p (record t.settings { bytes = unit_atoi F scan optarg })))
  parse_traffic blockcount optarg p =
      let t = p.test in
      ok (client_only (with_settings p (record t.settings { blocks = unit_atoi F scan optarg })))
  parse_traffic length_flag optarg p =
      ok (record p { blksize = int_of_pattern (unit_atoi F scan optarg); client_flag = true })
  parse_traffic parallel optarg p = do
    let t = p.test
    fail_if (gt_ℤ (atoi optarg) (pos 128)) ie_numstreams
    ok (client_only (with_test p (record t { num_streams = atoi optarg })))
  parse_traffic reverse optarg p = do
    let t = p.test
    fail_if t.bidirectional ie_reversebidir
    ok (client_only (with_test p (iperf_set_test_reverse F retransmits true t)))
  parse_traffic bidir optarg p = do
    let t = p.test
    fail_if t.reverse ie_reversebidir
    ok (client_only (with_test p (iperf_set_test_bidirectional F retransmits true t)))
  parse_traffic window optarg p = window_option F retransmits zero_copy scan atof optarg p
  parse_traffic bind optarg p =
      let t = p.test in ok (with_test p (record t { bind_address = some optarg }))
  parse_traffic cport optarg p = do
    let t = p.test
    portno ← parse_port optarg
    ok (with_test p (record t { bind_port = portno }))
  parse_traffic set_mss optarg p = do
    let t = p.test
    fail_if (gt_ℤ (atoi optarg) (pos (9 * 1024))) ie_mss
    ok (client_only (with_settings p (record t.settings { mss = atoi optarg })))
  parse_traffic no_delay optarg p =
      let t = p.test in ok (client_only (with_test p (record t { no_delay = true })))
  parse_traffic version4 optarg p =
      let t = p.test in ok (with_settings p (record t.settings { domain = inet }))
  parse_traffic version6 optarg p =
      let t = p.test in ok (with_settings p (record t.settings { domain = inet6 }))
  parse_traffic flag optarg p = parse_tuning flag optarg p

  -- One round of the `switch`, its first cases here.
  unfoldable pub parse_option : Flag → Text → Parse F → Result (Parse F)
  unfolding interval_option parse_traffic
  parse_option port optarg p = do
    let t = p.test
    portno ← parse_port optarg
    ok (with_test p (record t { server_port = portno }))
  parse_option format optarg p = do
    let t = p.test
    fail_if (not (is_unit_format (first optarg))) ie_badformat
    ok (with_settings p (record t.settings { unit_format = first optarg }))
  parse_option interval optarg p = interval_option F retransmits zero_copy scan atof optarg p
  parse_option daemon optarg p =
      let t = p.test in ok (server_only (with_test p (record t { daemon = true })))
  parse_option one_off optarg p =
      let t = p.test in ok (server_only (with_test p (record t { one_off = true })))
  parse_option verbose optarg p = let t = p.test in ok (with_test p (record t { verbose = true }))
  parse_option json optarg p = let t = p.test in ok (with_test p (record t { json_output = true }))
  parse_option version optarg p = exits 0
  parse_option server optarg p = do
    let t = p.test
    fail_if (t.role == b'c') ie_servclient
    ok (with_test p (iperf_set_test_role F retransmits b's' t))
  parse_option client optarg p = do
    let t = p.test
    fail_if (t.role == b's') ie_servclient
    let t' = iperf_set_test_role F retransmits b'c' t
    ok (with_test p (record t' { server_hostname = some optarg }))
  parse_option flag optarg p = parse_traffic flag optarg p
