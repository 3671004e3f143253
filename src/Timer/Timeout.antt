-- ===== src/Timer/Timeout.antt =====
-- timer.c: tmr_timeout waits until the earliest timer is due, and no longer.
use mathlib.Core.Path.{subst}
use sber_wifi.Prelude.{
  ℕ, ◌+◌, ◌-◌, ◌*◌, ◌/◌, ◌%◌, ◌≤◌, ◌<◌, ◌≡◌, refl, ◌∙◌, ◌⊎◌, inl, inr, none, some, List, [], ◌∷◌,
  arith,
}
use sber_wifi.Time.{IperfTime, IsNormal, iperf_time_in_usecs}
use sber_wifi.Time.Diff.{diff_exact}
use sber_wifi.Timer.{Timer, Timers, tmr_timeout, wait_usecs}
use sber_wifi.Timer.Insert.{All, due, AreNormal, IsSorted}
use sber_wifi.Timer.Api.{Inv}

wait_usecs-due :
    (now : IperfTime) (t : Timer)
    → IsNormal t.time
    → IsNormal now
    → wait_usecs now t ≡ due t - iperf_time_in_usecs now
unfolding wait_usecs
wait_usecs-due now t ht hn = ground (arith, diff_exact t.time now ht hn)

All-sooner :
    (n m k : ℕ) (l : List Timer) → k ≡ m - n → All (λ u. m ≤ due u) l → All (λ u. k ≤ due u - n) l
All-sooner n m k [] e a = tt
All-sooner n m k (x ∷ l) e a = (omega arith, All-sooner n m k l e a.1)

timeout_of :
    (now : IperfTime) (l : List Timer) (s : Timers)
    → s.timers ≡ l
    → Inv s
    → IsNormal now
    → ((l ≡ []) × (tmr_timeout now s ≡ none))
      ⊎ ((t : Timer) × (rest : List Timer) × (l ≡ t ∷ rest)
          × ((sec : ℕ) × (usec : ℕ) × (tmr_timeout now s ≡ some (sec, usec))
              × (usec < 1000000)
              × (sec * 1000000 + usec ≡ due t - iperf_time_in_usecs now)
              × All (λ u. sec * 1000000 + usec ≤ due u - iperf_time_in_usecs now) l))
unfolding tmr_timeout
timeout_of now [] s e v n = inl (refl, rw (e, tmr_timeout) refl)
timeout_of now (t ∷ rest) s e v n =
    let normal : AreNormal (t ∷ rest) = subst AreNormal e v.normal in
    let sorted : IsSorted (t ∷ rest) = subst IsSorted e v.sorted in
    let w = wait_usecs now t in
    let exact : w ≡ due t - iperf_time_in_usecs now = wait_usecs-due now t normal.0 n in
    let total : w / 1000000 * 1000000 + w % 1000000 ≡ w = omega arith in
    inr (
      t,
      rest,
      refl,
      (
        w / 1000000,
        w % 1000000,
        rw (e, tmr_timeout) refl,
        omega arith,
        total ∙ exact,
        (omega arith, All-sooner (iperf_time_in_usecs now) (due t) _ rest (total ∙ exact) sorted.0),
      ),
    )

-- With no active timer there is no timeout. Otherwise the timeout is a valid struct timeval, it is
-- the time from `now` until the first timer of the list is due, 0 if that is past, and no active
-- timer is due sooner.
pub tmr_timeout_exact :
    (now : IperfTime) (s : Timers)
    → Inv s
    → IsNormal now
    → ((s.timers ≡ []) × (tmr_timeout now s ≡ none))
      ⊎ ((t : Timer) × (rest : List Timer) × (s.timers ≡ t ∷ rest)
          × ((sec : ℕ) × (usec : ℕ) × (tmr_timeout now s ≡ some (sec, usec))
              × (usec < 1000000)
              × (sec * 1000000 + usec ≡ due t - iperf_time_in_usecs now)
              × All (λ u. sec * 1000000 + usec ≤ due u - iperf_time_in_usecs now) s.timers))
tmr_timeout_exact now s v n = timeout_of now s.timers s refl v n
