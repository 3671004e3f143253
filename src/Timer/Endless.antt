-- ===== src/Timer/Endless.antt =====
-- timer.c: two periodic timers of period zero keep tmr_run going for ever. The pacing timers that
-- iperf_create_send_timers makes have the period `pacing_timer`, which the option --pacing-timer
-- and the "pacing_timer" parameter set with no check.
use sber_wifi.Prelude.{
  ℕ, zero, suc, ◌≡◌, refl, sym, true, false, Option, some, List, [], ◌∷◌, arith,
}
use sber_wifi.Prelude.Int.{pos, ltb_ℤ, is_neg}
use sber_wifi.Time.{IperfTime, IsNormal, iperf_time_add_usecs, iperf_time_compare}
use sber_wifi.Timer.{Timer, Timers, find, next, node}
use sber_wifi.Timer.Run.{out_of_fuel, reschedule, run_from, tmr_run}
use sber_wifi.Timer.Ends.{IsQuiet}

add_nothing : (t : IperfTime) → IsNormal t → iperf_time_add_usecs t 0 ≡ t
unfolding iperf_time_add_usecs
add_nothing t h = ground arith

-- A periodic timer of period zero that is due at `now`.
abbrev pub Spins : Timer → IperfTime → Type 0
Spins t now =
    (t.periodic ≡ true)
    × (t.usecs ≡ 0)
    × IsNormal t.time
    × (ltb_ℤ (pos 0) (iperf_time_compare t.time now) ≡ false)

same_time : (t : IperfTime) → is_neg (iperf_time_compare t t) ≡ false
unfolding iperf_time_compare
same_time t = ground arith

abbrev pub both : Timer → Timer → List Timer → Timers
both a b free = record { timers = a ∷ b ∷ []; free_timers = free }

-- A round over two such timers changes their order and nothing else.
reschedule-both :
    (a b : Timer) (free : List Timer) (now : IperfTime)
    → Spins a now
    → a.time ≡ b.time
    → reschedule a.handle (both a b free) ≡ some (both b a free)
unfolding reschedule
reschedule-both a b free now h e = ground (arith, add_nothing a.time h.2, same_time a.time)

next-both : (a b : Timer) (free : List Timer) → next a.handle (both a b free) ≡ some b.handle
unfolding next find
next-both a b free = ground arith

node-both : (a b : Timer) (free : List Timer) → node a.handle (both a b free) ≡ some a
unfolding node find
node-both a b free = ground arith

module _ {W : Type 0} (call : Timer → IperfTime → Timers → W → Option (Timers × W)) where
  spin :
      (fuel : ℕ) (now : IperfTime) (a b : Timer) (free : List Timer) (w : W)
      → IsQuiet call
      → Spins a now
      → Spins b now
      → a.time ≡ b.time
      → run_from call fuel now (some a.handle) (both a b free) w ≡ out_of_fuel
  unfolding run_from
  spin zero now a b free w quiet ha hb e = refl
  spin (suc fuel) now a b free w quiet ha hb e =
      let (w1, called) = quiet a now (both a b free) w in
      rw (node-both a b free, run_from)
        (rw ha.3 (
          rw called (
            rw (reschedule-both a b free now ha e, next-both a b free)
              (spin fuel now b a free w1 quiet hb ha (sym e)))))

  -- Where exactly two timers are active, both periodic, of period zero and due at the same normal
  -- time, which is not after `now`: with timer functions that leave the timers alone, no number of
  -- rounds ends the loop of tmr_run.
  pub tmr_run-endless :
      (fuel : ℕ) (now : IperfTime) (a b : Timer) (free : List Timer) (w : W)
      → IsQuiet call
      → Spins a now
      → Spins b now
      → a.time ≡ b.time
      → tmr_run call fuel now (both a b free) w ≡ out_of_fuel
  unfolding tmr_run
  tmr_run-endless fuel now a b free w quiet ha hb e = spin fuel now a b free w quiet ha hb e
