-- ===== src/Time/Examples.antt =====
-- iperf_time.c at two time stamps a second and a bit apart.
use sber_wifi.Prelude.{◌+◌, ◌-◌, ◌≤◌, ◌<◌, ◌≡◌, refl, ◌↔◌, true, arith}
use sber_wifi.Prelude.Int.{pos, negsuc}
use sber_wifi.Time.{IperfTime, IsNormal, iperf_time_compare, iperf_time_diff, iperf_time_in_usecs}
use sber_wifi.Time.Order.{compare_iff}
use sber_wifi.Time.Diff.{diff_exact}

abbrev early : IperfTime
early = record { secs = 3; usecs = 900000 }

abbrev late : IperfTime
late = record { secs = 5; usecs = 100000 }

early-IsNormal : IsNormal early
early-IsNormal = record { secs_fit = omega arith; usecs_small = omega arith }

late-IsNormal : IsNormal late
late-IsNormal = record { secs_fit = omega arith; usecs_small = omega arith }

diff_runs : iperf_time_diff early late ≡ (true, record { secs = 1; usecs = 200000 })
unfolding iperf_time_diff
diff_runs = refl

compare_iff_example :
    ((iperf_time_compare early late ≡ negsuc 0)
      ↔ (iperf_time_in_usecs early < iperf_time_in_usecs late))
    × ((iperf_time_compare early late ≡ pos 1)
        ↔ (iperf_time_in_usecs late < iperf_time_in_usecs early))
    × ((iperf_time_compare early late ≡ pos 0)
        ↔ (iperf_time_in_usecs early ≡ iperf_time_in_usecs late))
compare_iff_example = compare_iff early late early-IsNormal late-IsNormal

diff_exact_example :
    IsNormal (iperf_time_diff early late).1
    × (((iperf_time_diff early late).0 ≡ true)
        ↔ (iperf_time_in_usecs early ≤ iperf_time_in_usecs late))
    × (iperf_time_in_usecs (iperf_time_diff early late).1
        ≡ (iperf_time_in_usecs early - iperf_time_in_usecs late)
          + (iperf_time_in_usecs late - iperf_time_in_usecs early))
diff_exact_example = diff_exact early late early-IsNormal late-IsNormal
