-- ===== src/Reset/Examples.antt =====
-- A server that has served a client in reverse mode, and is reset.
use sber_wifi.Prelude.{ℕ, ◌≡◌, refl, true, false, none, some, List, [], ◌∷◌}
use sber_wifi.Prelude.Int.{pos, negsuc}
use sber_wifi.Prelude.Numbers.{whole_numbers}
use sber_wifi.Dscp.{codes}
use sber_wifi.Test.{sender, udp}
use sber_wifi.Params.{send_parameters, get_parameters}
use sber_wifi.Params.Examples.{
  lists, lists-JsonLaws, server_test, client_test, client-Sendable, plain_settings,
}
use sber_wifi.Control.{display_results}
use sber_wifi.Reset.{Held, iperf_reset_test}
use sber_wifi.Reset.Serves.{iperf_reset_test-bytes}

-- The world is the list of the handles that have been cancelled, and of the streams that are free.
abbrev mark : ℕ → List ℕ → List ℕ
mark n l = n ∷ l

abbrev served : ℕ → Held whole_numbers ℕ (List ℕ)
served bytes = record {
  test = record server_test {
    protocol = udp;
    mode = sender;
    reverse = true;
    num_streams = pos 4;
    settings = record plain_settings { bytes = bytes; mss = pos 1400 };
  };
  streams = 5 ∷ 6 ∷ [];
  omit_timer = none;
  timer = some 11;
  stats_timer = some 12;
  reporter_timer = none;
  done = true;
  remote_congestion_used = none;
  state = display_results;
  ctrl_sck = pos 7;
  prot_listener = negsuc 0;
  bytes_sent = 1000;
  blocks_sent = 10;
  bytes_received = 0;
  blocks_received = 0;
  other_side_has_retransmits = pos 0;
  read_set = λ s. true;
  write_set = λ s. false;
  cookie = [];
  multisend = pos 10;
  server_output_list = [];
  world = [];
}

cancelled : (iperf_reset_test whole_numbers true mark mark (served 0)).world ≡ 12 ∷ 11 ∷ 6 ∷ 5 ∷ []
unfolding iperf_reset_test
cancelled = refl

iperf_reset_test-bytes_example :
    let s = (iperf_reset_test whole_numbers true mark mark (served 4096)).test in
    (get_parameters whole_numbers lists true
      (send_parameters whole_numbers lists true (codes "3.7") client_test)
      s).settings.bytes
    ≡ 4096
iperf_reset_test-bytes_example =
    iperf_reset_test-bytes whole_numbers lists lists-JsonLaws true mark mark (codes "3.7")
      (served 4096) client_test refl client-Sendable
