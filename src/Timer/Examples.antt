-- ===== src/Timer/Examples.antt =====
-- timer.c with two active timers and one node on the free list.
use sber_wifi.Prelude.{ℕ, suc, ◌^◌, ◌<◌, ◌≡◌, refl, true, false, Option, none, some, [], ◌∷◌, arith}
use sber_wifi.Time.{IperfTime, IsNormal, iperf_time_compare, iperf_time_in_usecs}
use sber_wifi.Timer.{Timer, Timers, fresh_timer, list_add, tmr_create}
use sber_wifi.Timer.Api.{Inv, Updates, tmr_create-Updates}
use sber_wifi.Timer.Run.{finished, out_of_fuel, tmr_run}
use sber_wifi.Timer.Due.{Ready, lag_all}
use sber_wifi.Timer.Ends.{IsQuiet, tmr_run-ends}
use sber_wifi.Timer.Endless.{Spins, both, tmr_run-endless}

abbrev at_time : ℕ → ℕ → IperfTime
at_time secs usecs = record { secs = secs; usecs = usecs }

abbrev ticking : ℕ → ℕ → ℕ → Timer
ticking h secs usecs = record {
  handle = h;
  proc = 0;
  client_data = 0;
  usecs = usecs;
  periodic = true;
  time = at_time secs 0;
}

abbrev spare : Timer
spare = record {
  handle = 30;
  proc = 0;
  client_data = 0;
  usecs = 0;
  periodic = false;
  time = at_time 0 0;
}

abbrev two_timers : Timers
two_timers = record {
  timers = ticking 10 2 500000 ∷ ticking 20 4 1000000 ∷ [];
  free_timers = spare ∷ [];
}

abbrev now : IperfTime
now = at_time 3 250000

at_time-IsNormal : (s u : ℕ) → s < 2 ^ 32 → u < 1000000 → IsNormal (at_time s u)
at_time-IsNormal s u hs hu = record { secs_fit = hs; usecs_small = hu }

two_timers-Inv : Inv two_timers
unfolding iperf_time_in_usecs
two_timers-Inv = record {
  sorted = ((omega arith, tt), (tt, tt));
  normal = (
    at_time-IsNormal 2 0 (omega arith) (omega arith),
    (at_time-IsNormal 4 0 (omega arith) (omega arith), tt),
  );
  distinct = λ h. ground arith;
}

now-IsNormal : IsNormal now
now-IsNormal = at_time-IsNormal 3 250000 (omega arith) (omega arith)

two_timers-Ready : Ready (iperf_time_in_usecs now) two_timers
unfolding iperf_time_in_usecs
two_timers-Ready = record {
  inv = two_timers-Inv;
  prompt = (λ _. (omega arith, omega arith), (λ _. (omega arith, omega arith), tt));
}

-- A timer function that counts its calls.
abbrev counting : Timer → IperfTime → Timers → ℕ → Option (Timers × ℕ)
counting t at s w = some (s, suc w)

counting-IsQuiet : IsQuiet counting
counting-IsQuiet t at s w = (suc w, refl)

abbrev created : Timer
created = fresh_timer 30 now 1 2 1500000 false

tmr_create-Updates_example :
    Updates two_timers
      (record { timers = list_add created two_timers.timers; free_timers = [] })
      30
      (some created)
unfolding tmr_create
tmr_create-Updates_example =
    tmr_create-Updates none now 1 2 1500000 false two_timers two_timers-Inv now-IsNormal
      (λ m e. ground arith) 30
      (record { timers = list_add created two_timers.timers; free_timers = [] }) refl

abbrev no_memory : Option ℕ
no_memory = none

enough : lag_all (iperf_time_in_usecs now) two_timers.timers < 2000000
unfolding iperf_time_in_usecs
enough = omega arith

tmr_run-ends_example :
    (s' : Timers) × (w' : ℕ) × (tmr_run counting 2000000 now two_timers 0 ≡ finished s' w')
    × Ready (iperf_time_in_usecs now) s'
tmr_run-ends_example =
    tmr_run-ends counting 2000000 now two_timers 0 counting-IsQuiet now-IsNormal two_timers-Ready
      enough

spinning : (h : ℕ) → Spins (ticking h 2 0) now
unfolding iperf_time_compare
spinning h = (refl, refl, at_time-IsNormal 2 0 (omega arith) (omega arith), refl)

tmr_run-endless_example :
    tmr_run counting 1000000 now (both (ticking 10 2 0) (ticking 20 2 0) []) 0 ≡ out_of_fuel
tmr_run-endless_example =
    tmr_run-endless counting 1000000 now (ticking 10 2 0) (ticking 20 2 0) [] 0 counting-IsQuiet
      (spinning 10) (spinning 20) refl
