-- ===== src/Options.antt =====
-- app/src/main/cpp/iperf/iperf_api.c: iperf_parse_arguments, the loop over the options of Getopt and
-- the checks behind it. On an error the caller gets i_errno and does not use the half-changed test.
pub mod Bounds
pub mod Roles
pub mod Examples
use sber_wifi.Prelude.{ℕ, ◌+◌, ◌-◌, ◌*◌, Bool, not, ◌&&◌, ◌||◌, List, [], ◌∷◌, ◌==◌, if◌then◌else◌}
use sber_wifi.Prelude.Int.{ℤ, pos, ltb_ℤ, eq_ℤ}
use sber_wifi.Prelude.Float.{Float}
use sber_wifi.Libc.{Text}
use sber_wifi.Error.{
  ie_serveronly, ie_clientonly, ie_blocksize, ie_udpblocksize, ie_endconditions, ie_norole,
}
use sber_wifi.Test.{Test, Settings, udp, sctp, same_protocol}
pub use sber_wifi.Getopt.{
  Flag, port, format, interval, daemon, one_off, verbose, json, version, server, client, udp_flag,
  sctp_flag, nstreams, bitrate, time, bytes, blockcount, length_flag, parallel, reverse, bidir,
  window, bind, cport, set_mss, no_delay, version4, version6, tos, dscp, extra_data, flowlabel,
  xbind, zerocopy, repeating_payload, omit, file, affinity, title, congestion, debug, pidfile,
  logfile, forceflush, get_server_output, udp_counters_64bit, no_fq_socket_pacing, fq_rate,
  pacing_timer, connect_timeout, help, unknown, Result, ok, err, exits, ◌>>=◌, ◌>>◌, fail_if, Parse,
  start,
}
unfoldable pub use sber_wifi.Getopt.Switch.{parse_option}
use sber_wifi.Getopt.{gt_ℤ}

module _ (F : Float) (retransmits : Bool) (zero_copy : Bool) (scan : Text → F.Double × ℕ)
    (atof : Text → F.Double) where
  -- The `while` loop over the options.
  unfoldable pub parse_options : List (Flag × Text) → Parse F → Result (Parse F)
  parse_options [] p = ok p
  parse_options ((flag, optarg) ∷ rest) p = do
    p' ← parse_option F retransmits zero_copy scan atof flag optarg p
    parse_options rest p'

  -- The block size that the checks look at.
  unfoldable pub default_blksize : Parse F → ℤ
  default_blksize p =
      let t = p.test in
      if eq_ℤ p.blksize (pos 0)
      then if same_protocol t.protocol udp
        then pos 0
        else if same_protocol t.protocol sctp
        then pos (64 * 1024)
        else pos (128 * 1024)
      else p.blksize

  abbrev pub bad_blksize : Parse F → ℤ → Bool
  bad_blksize p b =
      let t = p.test in
      (not (same_protocol t.protocol udp) && not (ltb_ℤ (pos 0) b)) || gt_ℤ b (pos (1024 * 1024))

  abbrev pub bad_udp_blksize : Parse F → ℤ → Bool
  bad_udp_blksize p b =
      let t = p.test in
      same_protocol t.protocol udp
      && (ltb_ℤ (pos 0) b && (ltb_ℤ b (pos (4 + 4 + 8)) || gt_ℤ b (pos (65535 - 8 - 20))))

  abbrev pub is_nonzero : ℕ → Bool
  is_nonzero n = not (n == 0)

  -- What is set after the block size has been checked.
  unfoldable pub settle : ℤ → Parse F → Test F
  settle b p =
      let t = p.test in
      let rate =
        if p.rate_flag
        then t.settings.rate
        else if same_protocol t.protocol udp
        then 1024 * 1024
        else 0 in
      let s' : Settings = record t.settings { blksize = b; rate = rate } in
      let stop = (is_nonzero s'.bytes || is_nonzero s'.blocks) && not p.duration_flag in
      record t { settings = s'; duration = if stop then pos 0 else t.duration }

  abbrev pub several_ends : Parse F → Test F → Bool
  several_ends p t =
      let s = t.settings in
      (p.duration_flag && is_nonzero s.bytes)
      || (p.duration_flag && is_nonzero s.blocks)
      || (is_nonzero s.bytes && is_nonzero s.blocks)

  abbrev pub no_role : Test F → Bool
  no_role t = not (t.role == b'c') && not (t.role == b's')

  unfoldable pub check_conditions : Parse F → Test F → Result (Test F)
  check_conditions p t = do
    fail_if (several_ends p t) ie_endconditions
    fail_if (no_role t) ie_norole
    ok t

  -- What follows the loop.
  unfoldable pub finish : Parse F → Result (Test F)
  unfolding default_blksize settle check_conditions
  finish p = do
    let t = p.test
    fail_if (t.role == b'c' && p.server_flag) ie_serveronly
    fail_if (t.role == b's' && p.client_flag) ie_clientonly
    let b = default_blksize p
    fail_if (bad_blksize p b) ie_blocksize
    fail_if (bad_udp_blksize p b) ie_udpblocksize
    check_conditions p (settle b p)

  unfoldable pub iperf_parse_arguments : List (Flag × Text) → Test F → Result (Test F)
  unfolding parse_options finish
  iperf_parse_arguments options t = do p ← parse_options options (start t); finish p
