-- ===== src/Stats.antt =====
-- app/src/main/cpp/iperf/iperf_api.c: iperf_stats_callback, add_to_interval_list and
-- iperf_reset_stats, with save_tcpinfo and the readers of tcp_info.c as they are built for Linux.
-- An `int` is a bit pattern below 2 ^ 32 in two's complement. The clock and getsockopt(TCP_INFO)
-- change a state `W`; `to_float` is the conversion of a double to float. A list of results is in
-- list order.
pub mod Tcp
pub mod Bytes
pub mod Packets
pub mod Examples
use sber_wifi.Prelude.{
  ℕ, ◌+◌, ◌*◌, ◌^◌, Bool, ◌||◌, Option, none, some, List, [], ◌∷◌, ◌++◌, ltb, ◌==◌, if◌then◌else◌,
}
use sber_wifi.Prelude.Float.{Float}
use sber_wifi.Time.{IperfTime, iperf_time_diff, sub_u32, u32}
use sber_wifi.Udp.{iperf_time_in_secs}
use sber_wifi.Test.{ProtocolId, tcp, same_protocol}

-- The fields of struct tcp_info that tcp_info.c reads.
pub record TcpInfo : Type 0 where
  pub tcpi_total_retrans : ℕ
  pub tcpi_snd_cwnd : ℕ
  pub tcpi_snd_mss : ℕ
  pub tcpi_rtt : ℕ
  pub tcpi_rttvar : ℕ
  pub tcpi_pmtu : ℕ

-- struct iperf_interval_results
pub record Interval (F : Float) : Type 0 where
  pub bytes_transferred : ℕ
  pub interval_start_time : IperfTime
  pub interval_end_time : IperfTime
  pub interval_duration : F.Double
  pub interval_packet_count : ℕ
  pub interval_outoforder_packets : ℕ
  pub interval_cnt_error : ℕ
  pub packet_count : ℕ
  pub jitter : F.Double
  pub outoforder_packets : ℕ
  pub cnt_error : ℕ
  pub omitted : Bool
  pub tcp_info : TcpInfo
  pub interval_retrans : ℕ
  pub snd_cwnd : ℕ
  pub rtt : ℕ
  pub rttvar : ℕ
  pub pmtu : ℕ

-- struct iperf_stream_result
pub record StreamResult (F : Float) : Type 0 where
  pub bytes_received : ℕ
  pub bytes_sent : ℕ
  pub bytes_received_this_interval : ℕ
  pub bytes_sent_this_interval : ℕ
  pub bytes_sent_omit : ℕ
  pub stream_prev_total_retrans : ℕ
  pub stream_retrans : ℕ
  pub stream_max_rtt : ℕ
  pub stream_min_rtt : ℕ
  pub stream_sum_rtt : ℕ
  pub stream_count_rtt : ℕ
  pub stream_max_snd_cwnd : ℕ
  pub start_time : IperfTime
  pub end_time : IperfTime
  pub interval_results : List (Interval F)

-- The fields of struct iperf_stream that the statistics read or write.
pub record Measured (F : Float) : Type 0 where
  pub socket : ℕ
  pub sender : Bool
  pub packet_count : ℕ
  pub cnt_error : ℕ
  pub outoforder_packets : ℕ
  pub jitter : F.Double
  pub omitted_packet_count : ℕ
  pub omitted_cnt_error : ℕ
  pub omitted_outoforder_packets : ℕ
  pub result : StreamResult F

-- The fields of struct iperf_test.
pub record Counted (F : Float) : Type 0 where
  pub omitting : Bool
  pub protocol : ProtocolId
  pub sender_has_retransmits : ℕ
  pub bytes_sent : ℕ
  pub blocks_sent : ℕ
  pub streams : List (Measured F)

-- `a < b` on int
abbrev pub lt_int : ℕ → ℕ → Bool
lt_int a b = ltb (u32 (a + 2 ^ 31)) (u32 (b + 2 ^ 31))

unfoldable pub get_total_retransmits : TcpInfo → ℕ
get_total_retransmits info = info.tcpi_total_retrans

unfoldable pub get_snd_cwnd : TcpInfo → ℕ
get_snd_cwnd info = u32 (info.tcpi_snd_cwnd * info.tcpi_snd_mss)

unfoldable pub get_rtt : TcpInfo → ℕ
get_rtt info = info.tcpi_rtt

unfoldable pub get_rttvar : TcpInfo → ℕ
get_rttvar info = info.tcpi_rttvar

unfoldable pub get_pmtu : TcpInfo → ℕ
get_pmtu info = info.tcpi_pmtu

module _ {F : Float} where
  -- TAILQ_LAST
  abbrev pub last_interval : List (Interval F) → Option (Interval F)
  last_interval [] = none
  last_interval (ir ∷ []) = some ir
  last_interval (ir ∷ next ∷ rest) = last_interval (next ∷ rest)

  unfoldable pub add_to_interval_list : StreamResult F → Interval F → StreamResult F
  add_to_interval_list rp new = record rp { interval_results = rp.interval_results ++ new ∷ [] }

  -- What the result takes from the information on the connection, and what the interval does.
  unfoldable pub count_retransmits :
      TcpInfo → Interval F → StreamResult F → Interval F × StreamResult F
  unfolding get_total_retransmits get_snd_cwnd get_rtt get_rttvar get_pmtu
  count_retransmits info temp rp =
      let total_retrans = get_total_retransmits info in
      let interval_retrans = sub_u32 total_retrans rp.stream_prev_total_retrans in
      let cwnd = get_snd_cwnd info in
      let rtt = get_rtt info in
      (
        record temp {
          interval_retrans = interval_retrans;
          snd_cwnd = cwnd;
          rtt = rtt;
          rttvar = get_rttvar info;
          pmtu = get_pmtu info;
        },
        record rp {
          stream_retrans = u32 (rp.stream_retrans + interval_retrans);
          stream_prev_total_retrans = total_retrans;
          stream_max_snd_cwnd =
              if lt_int rp.stream_max_snd_cwnd cwnd then cwnd else rp.stream_max_snd_cwnd;
          stream_max_rtt = if lt_int rp.stream_max_rtt rtt then rtt else rp.stream_max_rtt;
          stream_min_rtt =
              if rp.stream_min_rtt == 0 || lt_int rtt rp.stream_min_rtt
              then rtt
              else rp.stream_min_rtt;
          stream_sum_rtt = u32 (rp.stream_sum_rtt + rtt);
          stream_count_rtt = u32 (rp.stream_count_rtt + 1);
        },
      )

  abbrev keep_counts : Measured F → Interval F → Interval F
  keep_counts sp temp = record temp {
    packet_count = sp.packet_count;
    jitter = sp.jitter;
    outoforder_packets = sp.outoforder_packets;
    cnt_error = sp.cnt_error;
  }

  -- The counts of the packets, and how much they are above those of the interval before.
  unfoldable pub count_packets : Option (Interval F) → Measured F → Interval F → Interval F
  count_packets none sp temp = keep_counts sp (record temp {
    interval_packet_count = sp.packet_count;
    interval_outoforder_packets = sp.outoforder_packets;
    interval_cnt_error = sp.cnt_error;
  })
  count_packets (some irp) sp temp = keep_counts sp (record temp {
    interval_packet_count = sub_u32 sp.packet_count irp.packet_count;
    interval_outoforder_packets = sub_u32 sp.outoforder_packets irp.outoforder_packets;
    interval_cnt_error = sub_u32 sp.cnt_error irp.cnt_error;
  })

  abbrev interval_start : Option (Interval F) → StreamResult F → IperfTime
  interval_start none rp = rp.start_time
  interval_start (some irp) rp = rp.end_time

  module _ {W : Type 0} (to_float : F.Double → F.Double) (clock : W → IperfTime × W)
      (tcp_info : ℕ → W → Option TcpInfo × W) where
    -- save_tcpinfo; where getsockopt fails, what the interval holds stays.
    abbrev pub saved : Option TcpInfo → Interval F → Interval F
    saved none ir = ir
    saved (some info) ir = record ir { tcp_info = info }

    unfoldable pub save_tcpinfo : ℕ → Interval F → W → Interval F × W
    save_tcpinfo socket ir w = let a = tcp_info socket w in (saved a.0 ir, a.1)

    -- The times of the interval, with the clock read for its end.
    unfoldable pub time_interval : Measured F → Interval F → W → Interval F × StreamResult F × W
    time_interval sp temp w =
        let rp = sp.result in
        let begun = interval_start (last_interval rp.interval_results) rp in
        let now = clock w in
        (
          record temp {
            bytes_transferred =
                if sp.sender then rp.bytes_sent_this_interval else rp.bytes_received_this_interval;
            interval_start_time = begun;
            interval_end_time = now.0;
            interval_duration = to_float (iperf_time_in_secs F (iperf_time_diff begun now.0).1);
          },
          record rp { end_time = now.0 },
          now.1,
        )

    -- The part that depends on the protocol.
    unfoldable pub measure :
        Counted F → Measured F → Interval F → StreamResult F → W → Interval F × StreamResult F × W
    unfolding save_tcpinfo count_retransmits count_packets
    measure test sp temp rp w =
        if same_protocol test.protocol tcp
        then (let a = save_tcpinfo sp.socket temp w in
            let b = count_retransmits a.0.tcp_info a.0 rp in
            if test.sender_has_retransmits == 1 then (b.0, b.1, a.1) else (a.0, rp, a.1))
        else (count_packets (last_interval sp.result.interval_results) sp temp, rp, w)

    -- One stream. `temp` keeps what it held from the stream before.
    unfoldable pub gather : Counted F → Measured F → Interval F → W → Interval F × Measured F × W
    unfolding time_interval measure add_to_interval_list
    gather test sp temp w =
        let a = time_interval sp (record temp { omitted = test.omitting }) w in
        let b = measure test sp a.0 a.1 a.2 in
        let rp = add_to_interval_list b.1 b.0 in
        (
          b.0,
          record sp {
            result = record rp { bytes_sent_this_interval = 0; bytes_received_this_interval = 0 };
          },
          b.2,
        )

    unfoldable pub gather_all :
        Counted F → List (Measured F) → Interval F → W → List (Measured F) × W
    unfolding gather
    gather_all test [] temp w = ([], w)
    gather_all test (sp ∷ rest) temp w =
        let a = gather test sp temp w in let b = gather_all test rest a.0 a.2 in (a.1 ∷ b.0, b.1)

    -- `temp` is what the local variable holds before it is set.
    unfoldable pub iperf_stats_callback : Interval F → Counted F → W → Counted F × W
    unfolding gather_all
    iperf_stats_callback temp test w =
        let a = gather_all test test.streams temp w in (record test { streams = a.0 }, a.1)

    -- One stream of iperf_reset_stats.
    unfoldable pub reset_stream :
        Counted F → IperfTime → Interval F → Measured F → W → Measured F × W
    unfolding save_tcpinfo get_total_retransmits
    reset_stream test now ir sp w =
        let rp = sp.result in
        let a = save_tcpinfo sp.socket ir w in
        let retransmits = test.sender_has_retransmits == 1 in
        (
          record sp {
            omitted_packet_count = sp.packet_count;
            omitted_cnt_error = sp.cnt_error;
            omitted_outoforder_packets = sp.outoforder_packets;
            jitter = F.of_ℕ 0;
            result = record rp {
              bytes_sent_omit = rp.bytes_sent;
              bytes_received = 0;
              bytes_sent_this_interval = 0;
              bytes_received_this_interval = 0;
              stream_prev_total_retrans =
                  if retransmits
                  then get_total_retransmits a.0.tcp_info
                  else rp.stream_prev_total_retrans;
              stream_retrans = 0;
              start_time = now;
            };
          },
          if retransmits then a.1 else w,
        )

    unfoldable pub reset_all :
        Counted F → IperfTime → Interval F → List (Measured F) → W → List (Measured F) × W
    unfolding reset_stream
    reset_all test now ir [] w = ([], w)
    reset_all test now ir (sp ∷ rest) w =
        let a = reset_stream test now ir sp w in
        let b = reset_all test now ir rest a.1 in (a.0 ∷ b.0, b.1)

    unfoldable pub iperf_reset_stats : Interval F → Counted F → W → Counted F × W
    unfolding reset_all
    iperf_reset_stats ir test w =
        let now = clock w in
        let a = reset_all test now.0 ir test.streams now.1 in
        (record test { bytes_sent = 0; blocks_sent = 0; streams = a.0 }, a.1)
