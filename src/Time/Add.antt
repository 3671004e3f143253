-- ===== src/Time/Add.antt =====
-- iperf_time.c: iperf_time_add_usecs adds microseconds and keeps a time stamp normal.
use sber_wifi.Prelude.{ℕ, ◌+◌, ◌*◌, ◌^◌, ◌<◌, ◌≡◌, arith}
use sber_wifi.Time.{IperfTime, IsNormal, sec_to_us, iperf_time_add_usecs, iperf_time_in_usecs}

-- Adding to a normal time stamp gives a normal one, whatever the number added.
pub add_usecs-IsNormal :
    (t : IperfTime) (usecs : ℕ) → IsNormal t → IsNormal (iperf_time_add_usecs t usecs)
unfolding iperf_time_add_usecs
add_usecs-IsNormal t usecs h = ground arith

-- A sum whose seconds fit in 32 bits is exact.
pub add_usecs_exact :
    (t : IperfTime) (usecs : ℕ)
    → IsNormal t
    → iperf_time_in_usecs t + usecs < 2 ^ 32 * sec_to_us
    → iperf_time_in_usecs (iperf_time_add_usecs t usecs) ≡ iperf_time_in_usecs t + usecs
unfolding iperf_time_add_usecs iperf_time_in_usecs
add_usecs_exact t usecs h fits = ground arith
