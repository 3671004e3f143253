-- ===== src/Options/Examples.antt =====
-- iperf_parse_arguments on the command line `-R -c host -u -t 5`.
use sber_wifi.Prelude.{ℕ, ◌≡◌, refl, inl, true, some, List, [], ◌∷◌, arith}
use sber_wifi.Prelude.Int.{pos}
use sber_wifi.Prelude.Numbers.{whole_numbers}
use sber_wifi.Libc.{Text, atoi}
use sber_wifi.Dscp.{codes}
use sber_wifi.Test.{Test, udp, receiver, iperf_set_test_role, iperf_set_test_reverse, set_protocol}
use sber_wifi.Test.Direction.{Directed}
use sber_wifi.Params.Examples.{plain_settings, plain_test}
use sber_wifi.Options
use sber_wifi.Options.Bounds.{InRange, Valid, iperf_parse_arguments-Valid}
use sber_wifi.Options.Roles.{Settled, iperf_parse_arguments-Settled}

-- sscanf and atof, for texts with no digits.
abbrev scan_none : Text → ℕ × ℕ
scan_none text = (0, 0)

abbrev atof_none : Text → ℕ
atof_none text = 0

abbrev line : List (Options.Flag × Text)
line =
    (Options.reverse, [])
    ∷ (Options.client, codes "host")
    ∷ (Options.udp_flag, [])
    ∷ (Options.time, codes "5")
    ∷ []

abbrev parsed : Test whole_numbers
parsed = record plain_test {
  role = b'c';
  mode = receiver;
  protocol = udp;
  reverse = true;
  duration = pos 5;
  server_hostname = some (codes "host");
  settings = record plain_settings { blksize = pos 0; rate = 1048576 };
}

line-parsed :
    Options.iperf_parse_arguments whole_numbers true true scan_none atof_none line plain_test
    ≡ Options.ok parsed
unfolding Options.iperf_parse_arguments atoi Options.parse_option iperf_set_test_reverse
    set_protocol iperf_set_test_role
line-parsed = refl

plain-InRange : InRange plain_test
plain-InRange = record {
  port = (omega arith, omega arith);
  cport = (omega arith, omega arith);
  duration = omega arith;
  streams = omega arith;
  omit = (omega arith, omega arith);
  burst = (omega arith, omega arith);
  mss = omega arith;
  tos = (omega arith, omega arith);
  stats_interval = inl (refl, refl);
  reporter_interval = inl (refl, refl);
  window = inl refl;
}

plain-Directed : Directed true plain_test
plain-Directed = record {
  exclusive = inl refl;
  mode = λ has. ground arith;
  counts = λ is. ground arith;
}

iperf_parse_arguments-Valid_example : Valid whole_numbers true true scan_none atof_none parsed
iperf_parse_arguments-Valid_example =
    iperf_parse_arguments-Valid whole_numbers true true scan_none atof_none line plain_test parsed
      plain-InRange line-parsed

iperf_parse_arguments-Settled_example : Settled whole_numbers true true scan_none atof_none parsed
iperf_parse_arguments-Settled_example =
    iperf_parse_arguments-Settled whole_numbers true true scan_none atof_none line plain_test parsed
      plain-Directed refl refl line-parsed
