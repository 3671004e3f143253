-- ===== src/Getopt.antt =====
-- app/src/main/cpp/iperf/iperf_api.c: the options of iperf_parse_arguments. They come as getopt_long
-- gives them, a flag with its argument. The build has neither SCTP, SSL, CPU affinity, a flow label,
-- TCP congestion control nor SO_MAX_PACING_RATE (iperf_config.h), and runs on Linux. `retransmits`,
-- `zero_copy`, `scan` and `atof` are has_tcpinfo_retransmits(), has_sendfile(), the sscanf of units.c
-- and atof. Switch is the `switch` of the loop.
pub mod Switch
use sber_wifi.Prelude.{
  ℕ, ◌*◌, Bool, true, false, not, ◌&&◌, ◌||◌, Option, none, some, [], ◌∷◌, ◌==◌, if◌then◌else◌,
}
use sber_wifi.Prelude.Int.{ℤ, pos, ltb_ℤ, is_neg}
use sber_wifi.Prelude.Float.{Float}
use sber_wifi.Libc.{Text, strtol, atoi, int_of_long}
use sber_wifi.Error.{IErr, ie_badport, ie_interval, ie_burst, ie_bufsize, ie_badtos}
use sber_wifi.Units.{unit_atof, unit_atof_rate}
use sber_wifi.Test.{Test, Settings}

-- The case labels of the `switch`.
pub data Flag : Type 0 where
  port format interval daemon one_off verbose json version server client : Flag
  udp_flag sctp_flag nstreams bitrate time bytes blockcount length_flag parallel reverse : Flag
  bidir window bind cport set_mss no_delay version4 version6 tos dscp extra_data : Flag
  flowlabel xbind zerocopy repeating_payload omit file affinity title congestion debug : Flag
  pidfile logfile forceflush get_server_output udp_counters_64bit no_fq_socket_pacing : Flag
  fq_rate pacing_timer connect_timeout help unknown : Flag

-- Success, `return -1` with i_errno, and exit().
pub data Result (A : Type 0) : Type 0 where
  ok : A → Result A
  err : IErr → Result A
  exits : ℕ → Result A

infixl 5 ◌>>=◌ ◌>>◌
abbrev pub ◌>>=◌ : {A B : Type 0} → Result A → (A → Result B) → Result B
ok a >>= f = f a
err e >>= f = err e
exits n >>= f = exits n

abbrev pub ◌>>◌ : {B : Type 0} → Result (Unit {0}) → Result B → Result B
m >> k = m >>= λ _. k

abbrev pub fail_if : Bool → IErr → Result (Unit {0})
fail_if true e = err e
fail_if false e = ok tt

-- The local variables that the loop sets, with the test.
pub record Parse (F : Float) : Type 0 where
  pub test : Test F
  pub blksize : ℤ
  pub server_flag : Bool
  pub client_flag : Bool
  pub rate_flag : Bool
  pub duration_flag : Bool

abbrev pub gt_ℤ : ℤ → ℤ → Bool
gt_ℤ a b = ltb_ℤ b a

abbrev is_unit_format : ℕ → Bool
is_unit_format c =
    c == b'k'
    || c == b'K'
    || c == b'm'
    || c == b'M'
    || c == b'g'
    || c == b'G'
    || c == b't'
    || c == b'T'

-- `*optarg`, the closing NUL included.
abbrev first : Text → ℕ
first [] = 0
first (c ∷ l) = c

-- strchr(optarg, '/') cuts the text: what stands before it, and what stands behind it.
unfoldable pub split_slash : Text → Text × Option Text
split_slash [] = ([], none)
split_slash (c ∷ l) =
    if c == b'/' then ([], some l) else let (before, behind) = split_slash l in (c ∷ before, behind)

-- The local variables before the loop.
abbrev pub start : {F : Float} → Test F → Parse F
start t = record {
  test = t;
  blksize = pos 0;
  server_flag = false;
  client_flag = false;
  rate_flag = false;
  duration_flag = false;
}

abbrev with_test : {F : Float} → Parse F → Test F → Parse F
with_test p t = record p { test = t }

abbrev with_settings : {F : Float} → Parse F → Settings → Parse F
with_settings {F = F} p s = let t : Test F = p.test in record p { test = record t { settings = s } }

abbrev client_only : {F : Float} → Parse F → Parse F
client_only p = record p { client_flag = true }

abbrev server_only : {F : Float} → Parse F → Parse F
server_only p = record p { server_flag = true }

abbrev parse_port : Text → Result ℤ
parse_port optarg =
    let portno = atoi optarg in
    if ltb_ℤ portno (pos 1) || gt_ℤ portno (pos 65535) then err ie_badport else ok portno

-- The burst behind the slash of -b, if there is one.
unfoldable pub parse_burst : Option Text → Settings → Result Settings
parse_burst none s = ok s
parse_burst (some text) s =
    let burst = atoi text in
    if ltb_ℤ burst (pos 1) || gt_ℤ burst (pos 1000)
    then err ie_burst
    else ok (record s { burst = burst })

module _ (F : Float) (retransmits : Bool) (zero_copy : Bool) (scan : Text → F.Double × ℕ)
    (atof : Text → F.Double) where
  -- MIN_INTERVAL and MAX_INTERVAL
  abbrev outside_interval : F.Double → Bool
  outside_interval x =
      (F.lt x (F.div (F.of_ℕ 1) (F.of_ℕ 10)) || F.lt (F.of_ℕ 60) x)
      && (F.lt x (F.of_ℕ 0) || F.lt (F.of_ℕ 0) x)

  unfoldable pub bitrate_option : Text → Parse F → Result (Parse F)
  unfolding parse_burst split_slash
  bitrate_option optarg p = do
    let (number, behind) = split_slash optarg
    let t = p.test
    s ← parse_burst behind t.settings
    ok (record p {
      test = record t { settings = record s { rate = F.trunc (unit_atof_rate F scan number) } };
      rate_flag = true;
      client_flag = true;
    })

  unfoldable pub window_option : Text → Parse F → Result (Parse F)
  window_option optarg p = do
    let farg = unit_atof F scan optarg
    let t = p.test
    fail_if (F.lt (F.of_ℕ (512 * (1024 * 1024))) farg) ie_bufsize
    ok (client_only (with_settings p (record t.settings { socket_bufsize = F.to_int farg })))

  unfoldable pub interval_option : Text → Parse F → Result (Parse F)
  interval_option optarg p = do
    let t = p.test
    fail_if (outside_interval (atof optarg)) ie_interval
    ok (with_test p (record t { stats_interval = atof optarg; reporter_interval = atof optarg }))

  unfoldable pub tos_option : Text → Parse F → Result (Parse F)
  tos_option optarg p = do
    let r = strtol optarg 0
    let t = p.test
    let tos = int_of_long r.value
    fail_if (not r.converted || is_neg tos || gt_ℤ tos (pos 255)) ie_badtos
    ok (client_only (with_settings p (record t.settings { tos = tos })))
