-- ===== src/Options/Bounds.antt =====
-- iperf_api.c: what iperf_parse_arguments lets through.
use mathlib.Core.Path.{subst}
use sber_wifi.Prelude.{
  ℕ, ◌*◌, ◌≡◌, refl, ◌≢◌, ◌⊎◌, inr, Bool, true, false, ◌&&◌, some, List, [], ◌∷◌, arith, ◌==◌,
}
use sber_wifi.Prelude.Int.{ℤ, pos, ◌≤ℤ◌}
use sber_wifi.Prelude.Float.{Float}
use sber_wifi.Libc.{Text}
use sber_wifi.Dscp.Range.{parse_qos_range}
use sber_wifi.Test.{
  Test, udp, set_protocol, iperf_set_test_role, iperf_set_test_reverse,
  iperf_set_test_bidirectional,
}
use sber_wifi.Error.{
  IErr, ie_bufsize, ie_serveronly, ie_clientonly, ie_blocksize, ie_udpblocksize, ie_endconditions,
  ie_norole,
}
use sber_wifi.Units.{unit_atof}
use sber_wifi.Options
use sber_wifi.Options.{◌>>=◌, ◌>>◌, start}

-- A successful chain has a successful first step.
pub ok_of_bind :
    {A B : Type 0} (m : Options.Result A) (f : A → Options.Result B) {b : B}
    → (m >>= f) ≡ Options.ok b
    → (a : A) × (m ≡ Options.ok a) × (f a ≡ Options.ok b)
ok_of_bind (Options.ok a) f h = (a, refl, h)
ok_of_bind (Options.err e) f h = cc
ok_of_bind (Options.exits n) f h = cc

pub passed :
    {A : Type 0} (b : Bool) (e : IErr) (m : Options.Result A) {a : A}
    → (Options.fail_if b e >> m) ≡ Options.ok a
    → (b ≡ false) × (m ≡ Options.ok a)
passed true e m h = absurd (ground arith)
passed false e m h = (refl, h)

pub ok-injective : {A : Type 0} (a b : A) → Options.ok a ≡ Options.ok b → a ≡ b
ok-injective a b e = cc

-- `lo ≤ a ≤ hi`
abbrev pub IsWithin : ℤ → ℤ → ℤ → Type 0
IsWithin lo hi a = (lo ≤ℤ a) × (a ≤ℤ hi)

-- Neither below MIN_INTERVAL, 0.1 s, nor above MAX_INTERVAL, 60 s, unless `== 0`.
abbrev pub IsInterval : (F : Float) → F.Double → Type 0
IsInterval F x =
    (F.lt x (F.div (F.of_ℕ 1) (F.of_ℕ 10)) ≡ false) × (F.lt (F.of_ℕ 60) x ≡ false)
    ⊎ (F.lt x (F.of_ℕ 0) ≡ false) × (F.lt (F.of_ℕ 0) x ≡ false)

-- What -w leaves: no number, or one not above MAX_TCP_BUFFER, 512 MB, as an int.
abbrev pub IsWindow : Float → ℤ → Type 0
IsWindow F n =
    (n ≡ pos 0)
    ⊎ (x : F.Double) × (n ≡ F.to_int x) × (F.lt (F.of_ℕ (512 * (1024 * 1024))) x ≡ false)

module _ {F : Float} where
  -- The limits of iperf.h on a test's numbers.
  pub record InRange (t : Test F) : Type 0 where
    pub port : IsWithin (pos 1) (pos 65535) t.server_port
    pub cport : IsWithin (pos 0) (pos 65535) t.bind_port
    pub duration : t.duration ≤ℤ pos 86400
    pub streams : t.num_streams ≤ℤ pos 128
    pub omit : IsWithin (pos 0) (pos 60) t.omit
    pub burst : IsWithin (pos 0) (pos 1000) t.settings.burst
    pub mss : t.settings.mss ≤ℤ pos (9 * 1024)
    pub tos : IsWithin (pos 0) (pos 255) t.settings.tos
    pub stats_interval : IsInterval F t.stats_interval
    pub reporter_interval : IsInterval F t.reporter_interval
    pub window : IsWindow F t.settings.socket_bufsize

module _ (F : Float) (retransmits : Bool) (zero_copy : Bool) (scan : Text → F.Double × ℕ)
    (atof : Text → F.Double) where
  option-InRange :
      (flag : Options.Flag) (optarg : Text) (p p' : Options.Parse F)
      → InRange p.test
      → Options.parse_option F retransmits zero_copy scan atof flag optarg p ≡ Options.ok p'
      → InRange p'.test
  unfolding Options.parse_option iperf_set_test_role iperf_set_test_reverse
      iperf_set_test_bidirectional set_protocol
  option-InRange Options.port optarg p p' v e = ground arith
  option-InRange Options.window optarg p p' v e =
      let farg = unit_atof F scan optarg in
      let (small, done) = passed (F.lt (F.of_ℕ (512 * (1024 * 1024))) farg) ie_bufsize _ e in
      subst (λ q. InRange q.test) (ok-injective _ p' done)
        (record {
          port = v.port;
          cport = v.cport;
          duration = v.duration;
          streams = v.streams;
          omit = v.omit;
          burst = v.burst;
          mss = v.mss;
          tos = v.tos;
          stats_interval = v.stats_interval;
          reporter_interval = v.reporter_interval;
          window = inr (farg, refl, small);
        })
  option-InRange Options.dscp optarg p p' v e = ground (arith, parse_qos_range (some optarg))
  option-InRange _ optarg p p' v e = ground arith

  options-InRange :
      (options : List (Options.Flag × Text)) (p p' : Options.Parse F)
      → InRange p.test
      → Options.parse_options F retransmits zero_copy scan atof options p ≡ Options.ok p'
      → InRange p'.test
  unfolding Options.parse_options
  options-InRange [] p p' v e = subst (λ q. InRange q.test) (ok-injective p p' e) v
  options-InRange ((flag, optarg) ∷ rest) p p' v e =
      let (q, first, more) =
        ok_of_bind (Options.parse_option F retransmits zero_copy scan atof flag optarg p) _ e in
      options-InRange rest q p' (option-InRange flag optarg p q v first) more

  -- A configuration that can be run.
  pub record Valid (t : Test F) : Type 0 where
    pub in_range : InRange t
    pub role : (t.role ≡ b'c') ⊎ (t.role ≡ b's')
    pub tcp_block : t.protocol ≢ udp → IsWithin (pos 1) (pos (1024 * 1024)) t.settings.blksize
    pub udp_block :
        t.protocol ≡ udp
        → (t.settings.blksize ≤ℤ pos 0) ⊎ IsWithin (pos 16) (pos 65507) t.settings.blksize
    pub one_end : (t.settings.bytes ≡ 0) ⊎ (t.settings.blocks ≡ 0)
    pub no_time : (t.settings.bytes ≢ 0) ⊎ (t.settings.blocks ≢ 0) → t.duration ≡ pos 0

  settle-Valid :
      (b : ℤ) (p : Options.Parse F)
      → InRange p.test
      → Options.bad_blksize F retransmits zero_copy scan atof p b ≡ false
      → Options.bad_udp_blksize F retransmits zero_copy scan atof p b ≡ false
      → Options.several_ends F retransmits zero_copy scan atof p
          (Options.settle F retransmits zero_copy scan atof b p)
        ≡ false
      → Options.no_role F retransmits zero_copy scan atof
          (Options.settle F retransmits zero_copy scan atof b p)
        ≡ false
      → Valid (Options.settle F retransmits zero_copy scan atof b p)
  unfolding Options.settle
  settle-Valid b p v block udp_block ends role = record {
    in_range = record {
      port = v.port;
      cport = v.cport;
      duration = ground arith;
      streams = v.streams;
      omit = v.omit;
      burst = v.burst;
      mss = v.mss;
      tos = v.tos;
      stats_interval = v.stats_interval;
      reporter_interval = v.reporter_interval;
      window = v.window;
    };
    role = ground arith;
    tcp_block = λ other. ground arith;
    udp_block = λ is. ground arith;
    one_end = ground arith;
    no_time = λ some_end. ground arith;
  }

  finish-Valid :
      (p : Options.Parse F) (t : Test F)
      → InRange p.test
      → Options.finish F retransmits zero_copy scan atof p ≡ Options.ok t
      → Valid t
  unfolding Options.finish Options.check_conditions
  finish-Valid p t v e =
      let t0 = p.test in
      let b = Options.default_blksize F retransmits zero_copy scan atof p in
      let final = Options.settle F retransmits zero_copy scan atof b p in
      let (_, e1) = passed (t0.role == b'c' && p.server_flag) ie_serveronly _ e in
      let (_, e2) = passed (t0.role == b's' && p.client_flag) ie_clientonly _ e1 in
      let (block, e3) =
        passed (Options.bad_blksize F retransmits zero_copy scan atof p b) ie_blocksize _ e2 in
      let (udp_block, e4) =
        passed (Options.bad_udp_blksize F retransmits zero_copy scan atof p b) ie_udpblocksize _
          e3 in
      let (ends, e5) =
        passed (Options.several_ends F retransmits zero_copy scan atof p final) ie_endconditions _
          e4 in
      let (role, e6) =
        passed (Options.no_role F retransmits zero_copy scan atof final) ie_norole _ e5 in
      subst Valid (ok-injective final t e6) (settle-Valid b p v block udp_block ends role)

  -- From a configuration within the limits, a command line that iperf_parse_arguments accepts
  -- leaves a configuration within the limits of iperf.h (ports, duration, streams, omitted seconds,
  -- burst, segment and buffer size, type of service and intervals; only the upper one for the
  -- duration, the streams, the segment and the buffer size), with a role, a block size that suits
  -- the protocol, for UDP possibly 0 or negative, and at most one end condition.
  pub iperf_parse_arguments-Valid :
      (options : List (Options.Flag × Text)) (t t' : Test F)
      → InRange t
      → Options.iperf_parse_arguments F retransmits zero_copy scan atof options t ≡ Options.ok t'
      → Valid t'
  unfolding Options.iperf_parse_arguments
  iperf_parse_arguments-Valid options t t' v e =
      let (p, parsed, finished) =
        ok_of_bind (Options.parse_options F retransmits zero_copy scan atof options (start t)) _
          e in
      finish-Valid p t' (options-InRange options _ p v parsed) finished
