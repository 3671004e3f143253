-- ===== src/Stats/Tcp.antt =====
-- app/src/main/cpp/iperf/iperf_tcp.c: iperf_tcp_recv and iperf_tcp_send, with what Nread, and what
-- Nwrite or Nsendfile, have returned.
use sber_wifi.Prelude.{ℕ, ◌+◌}
use sber_wifi.Prelude.Int.{ℤ, pos, negsuc}
use sber_wifi.Prelude.Float.{Float}
use sber_wifi.Udp.{u64}
use sber_wifi.Stats.{StreamResult}
use sber_wifi.Control.{State, test_running}

module _ {F : Float} where
  abbrev count_recv : State → ℕ → StreamResult F → StreamResult F
  count_recv test_running r rp = record rp {
    bytes_received = u64 (rp.bytes_received + r);
    bytes_received_this_interval = u64 (rp.bytes_received_this_interval + r);
  }
  count_recv _ r rp = rp

  unfoldable pub iperf_tcp_recv : State → ℤ → StreamResult F → ℤ × StreamResult F
  iperf_tcp_recv state (pos r) rp = (pos r, count_recv state r rp)
  iperf_tcp_recv state (negsuc e) rp = (negsuc e, rp)

  unfoldable pub iperf_tcp_send : ℤ → StreamResult F → ℤ × StreamResult F
  iperf_tcp_send (pos r) rp = (
    pos r,
    record rp {
      bytes_sent = u64 (rp.bytes_sent + r);
      bytes_sent_this_interval = u64 (rp.bytes_sent_this_interval + r);
    },
  )
  iperf_tcp_send (negsuc e) rp = (negsuc e, rp)
