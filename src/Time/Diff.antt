-- ===== src/Time/Diff.antt =====
-- iperf_time.c: iperf_time_diff is the distance between two time stamps.
use sber_wifi.Prelude.{◌+◌, ◌-◌, ◌≤◌, ◌≡◌, ◌↔◌, true, arith}
use sber_wifi.Time.{IperfTime, IsNormal, iperf_time_diff, iperf_time_in_usecs}

-- For two normal time stamps the difference is normal, it is the distance between them in
-- microseconds, and the flag says whether the first is not later than the second.
pub diff_exact :
    (s t : IperfTime)
    → IsNormal s
    → IsNormal t
    → IsNormal (iperf_time_diff s t).1
      × (((iperf_time_diff s t).0 ≡ true) ↔ (iperf_time_in_usecs s ≤ iperf_time_in_usecs t))
      × (iperf_time_in_usecs (iperf_time_diff s t).1
          ≡ (iperf_time_in_usecs s - iperf_time_in_usecs t)
            + (iperf_time_in_usecs t - iperf_time_in_usecs s))
unfolding iperf_time_diff iperf_time_in_usecs
diff_exact s t hs ht = ground arith
