-- ===== src/Stats/Examples.antt =====
-- A TCP stream that is measured twice, and a test over UDP of two streams.
use sber_wifi.Prelude.{ℕ, ◌+◌, ◌≡◌, refl, Bool, true, false, Option, some, List, [], ◌∷◌, arith}
use sber_wifi.Prelude.Int.{pos, negsuc}
use sber_wifi.Time.{IperfTime}
use sber_wifi.Test.{tcp, udp}
use sber_wifi.Control.{test_running}
use sber_wifi.Stats.{TcpInfo, Interval, StreamResult, Measured, Counted, iperf_stats_callback}
use sber_wifi.Stats.Bytes.{Act, moved, gathered, acts, Accounted, acts-Accounted, total_bytes}
use sber_wifi.Stats.Packets.{IsReady, IsGathered, All, iperf_stats_callback-IsGathered}
use sber_wifi.Prelude.Numbers.{whole_numbers}

abbrev at_second : ℕ → IperfTime
at_second n = record { secs = n; usecs = 0 }

abbrev blank : Interval whole_numbers
blank = record {
  bytes_transferred = 0;
  interval_start_time = at_second 0;
  interval_end_time = at_second 0;
  interval_duration = 0;
  interval_packet_count = 0;
  interval_outoforder_packets = 0;
  interval_cnt_error = 0;
  packet_count = 0;
  jitter = 0;
  outoforder_packets = 0;
  cnt_error = 0;
  omitted = false;
  tcp_info = record {
    tcpi_total_retrans = 0;
    tcpi_snd_cwnd = 0;
    tcpi_snd_mss = 0;
    tcpi_rtt = 0;
    tcpi_rttvar = 0;
    tcpi_pmtu = 0;
  };
  interval_retrans = 0;
  snd_cwnd = 0;
  rtt = 0;
  rttvar = 0;
  pmtu = 0;
}

abbrev new_result : StreamResult whole_numbers
new_result = record {
  bytes_received = 0;
  bytes_sent = 0;
  bytes_received_this_interval = 0;
  bytes_sent_this_interval = 0;
  bytes_sent_omit = 0;
  stream_prev_total_retrans = 0;
  stream_retrans = 0;
  stream_max_rtt = 0;
  stream_min_rtt = 0;
  stream_sum_rtt = 0;
  stream_count_rtt = 0;
  stream_max_snd_cwnd = 0;
  start_time = at_second 0;
  end_time = at_second 0;
  interval_results = [];
}

abbrev new_stream : ℕ → Bool → ℕ → ℕ → Measured whole_numbers
new_stream socket sender packets errors = record {
  socket = socket;
  sender = sender;
  packet_count = packets;
  cnt_error = errors;
  outoforder_packets = 0;
  jitter = 0;
  omitted_packet_count = 0;
  omitted_cnt_error = 0;
  omitted_outoforder_packets = 0;
  result = new_result;
}

abbrev tick : ℕ → IperfTime × ℕ
tick n = (at_second n, n + 1)

abbrev tell : ℕ → ℕ → Option TcpInfo × ℕ
tell socket n = (
  some (record {
    tcpi_total_retrans = 2;
    tcpi_snd_cwnd = 10;
    tcpi_snd_mss = 1448;
    tcpi_rtt = 300;
    tcpi_rttvar = 20;
    tcpi_pmtu = 1500;
  }),
  n,
)

abbrev over_tcp : Counted whole_numbers
over_tcp = record {
  omitting = false;
  protocol = tcp;
  sender_has_retransmits = 1;
  bytes_sent = 0;
  blocks_sent = 0;
  streams = [];
}

abbrev two_intervals : List (Act whole_numbers)
two_intervals =
    moved test_running (pos 1000)
    ∷ moved test_running (pos 500)
    ∷ gathered over_tcp
    ∷ moved test_running (negsuc 1)
    ∷ moved test_running (pos 300)
    ∷ gathered over_tcp
    ∷ moved test_running (pos 7)
    ∷ []

abbrev behind : Measured whole_numbers × Interval whole_numbers × ℕ
behind = acts (λ d. d) tick tell two_intervals (new_stream 5 true 0 0, blank, 1)

behind-bytes : total_bytes behind.0.result.interval_results ≡ 1800
unfolding sber_wifi.Stats.gather sber_wifi.Stats.Tcp.iperf_tcp_send
behind-bytes = refl

acts-Accounted_example : Accounted behind.0.sender behind.0.result
acts-Accounted_example =
    acts-Accounted (λ d. d) tick tell two_intervals (new_stream 5 true 0 0) blank 1 refl

abbrev over_udp : Counted whole_numbers
over_udp = record over_tcp {
  protocol = udp;
  streams = new_stream 5 false 40 3 ∷ new_stream 6 true 50 0 ∷ [];
}

new-IsReady : (socket : ℕ) (sender : Bool) → IsReady (new_stream socket sender 40 3)
new-IsReady socket sender = record {
  fits = record { packets = omega arith; errors = omega arith; outoforder = omega arith };
  summed = record { packets = refl; errors = refl; outoforder = refl };
}

new-IsReady-sender : IsReady (new_stream 6 true 50 0)
new-IsReady-sender = record {
  fits = record { packets = omega arith; errors = omega arith; outoforder = omega arith };
  summed = record { packets = refl; errors = refl; outoforder = refl };
}

iperf_stats_callback-IsGathered_example :
    All IsGathered (iperf_stats_callback (λ d. d) tick tell blank over_udp 1).0.streams
iperf_stats_callback-IsGathered_example =
    iperf_stats_callback-IsGathered (λ d. d) tick tell blank over_udp 1 refl
      (new-IsReady 5 false, (new-IsReady-sender, tt))
