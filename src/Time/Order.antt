-- ===== src/Time/Order.antt =====
-- iperf_time.c: iperf_time_compare orders time stamps as numbers of microseconds.
use sber_wifi.Prelude.{◌<◌, ◌≡◌, ◌↔◌, arith}
use sber_wifi.Prelude.Int.{pos, negsuc}
use sber_wifi.Time.{IperfTime, IsNormal, iperf_time_compare, iperf_time_in_usecs}

-- For two normal time stamps the comparison returns -1, 1 or 0 exactly when the first is earlier
-- than, later than, or the same number of microseconds as the second.
pub compare_iff :
    (s t : IperfTime)
    → IsNormal s
    → IsNormal t
    → ((iperf_time_compare s t ≡ negsuc 0) ↔ (iperf_time_in_usecs s < iperf_time_in_usecs t))
      × ((iperf_time_compare s t ≡ pos 1) ↔ (iperf_time_in_usecs t < iperf_time_in_usecs s))
      × ((iperf_time_compare s t ≡ pos 0) ↔ (iperf_time_in_usecs s ≡ iperf_time_in_usecs t))
unfolding iperf_time_compare iperf_time_in_usecs
compare_iff s t hs ht = ground arith
