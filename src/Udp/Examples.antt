-- ===== src/Udp/Examples.antt =====
-- iperf_udp.c with the packets 1, 3 and 2, over whole numbers in place of `double`.
use sber_wifi.Prelude.{
  inr, ℕ, ◌+◌, ◌≡◌, refl, true, false, List, [], ◌∷◌, arith, if◌then◌else◌, length, replicate,
}
use sber_wifi.Prelude.Int.{ℤ, pos, pos_part, is_neg}
use sber_wifi.Prelude.Numbers.{whole_numbers}
use sber_wifi.Time.{IperfTime}
use sber_wifi.Udp.{Stream, header, parse_header, iperf_udp_recv, iperf_udp_send, account, u64}
use sber_wifi.Udp.Packet.{iperf_udp_send-parse_header}
use sber_wifi.Udp.Loss.{Accounts}
use sber_wifi.Udp.Recv.{iperf_udp_recv-Accounts}

abbrev start : Stream whole_numbers
start = record {
  packet_count = 3;
  cnt_error = 1;
  outoforder_packets = 0;
  jitter = 0;
  prev_transit = 0;
  bytes_received = 32;
  bytes_received_this_interval = 32;
  bytes_sent = 0;
  bytes_sent_this_interval = 0;
}

abbrev sent_at : IperfTime
sent_at = record { secs = 5; usecs = 600000 }

abbrev arrived_at : IperfTime
arrived_at = record { secs = 5; usecs = 700000 }

-- The packets 1 and 3 have been seen, 2 is missing.
start-Accounts : Accounts whole_numbers (3 ∷ 1 ∷ []) start
start-Accounts = record {
  small = omega arith;
  within = (omega arith, omega arith, (omega arith, omega arith, tt));
  top = inr (omega arith);
  once = λ x. ground arith;
  lost = refl;
}

account_takes_back : (account whole_numbers 2 start).cnt_error ≡ 0
unfolding account
account_takes_back = refl

abbrev buffer : List ℕ
buffer = header true sent_at 2

iperf_udp_recv-Accounts_example :
    Accounts whole_numbers
      ((parse_header true buffer).1 ∷ 3 ∷ 1 ∷ [])
      (iperf_udp_recv whole_numbers (pos 16) buffer true true arrived_at start).1
unfolding parse_header header
iperf_udp_recv-Accounts_example =
    iperf_udp_recv-Accounts whole_numbers 15 buffer true arrived_at (3 ∷ 1 ∷ []) start
      start-Accounts refl (omega arith) (omega arith)

abbrev whole_buffer : List ℕ → ℤ
whole_buffer bs = pos (length bs)

abbrev zeros : List ℕ
zeros = replicate 20 0

iperf_udp_send-parse_header_example :
    let (sent, r, sp') = iperf_udp_send whole_numbers whole_buffer false sent_at zeros start in
    (parse_header false sent ≡ (sent_at, 3 + 1))
    × (length sent ≡ 20)
    × (sp'.packet_count ≡ 3 + 1)
    × (r ≡ whole_buffer sent)
    × (sp'.bytes_sent ≡ (if is_neg r then 0 else u64 (0 + pos_part r)))
    × (sp'.bytes_sent_this_interval ≡ (if is_neg r then 0 else u64 (0 + pos_part r)))
iperf_udp_send-parse_header_example =
    iperf_udp_send-parse_header whole_numbers whole_buffer false sent_at zeros start (omega arith)
      (omega arith) (omega arith) (omega arith)
