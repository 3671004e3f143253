-- ===== src/Timer/Ends.antt =====
-- timer.c: the loop of tmr_run ends, for timer functions that leave the timers alone and periods
-- that are not zero; with two timers of period zero it does not.
use sber_wifi.Prelude.{
  ℕ, zero, suc, ◌<◌, ◌≡◌, refl, ◌∙◌, inl, inr, false, Option, none, some, List, [], ◌∷◌, arith, ltb,
  Bool-cases,
}
use sber_wifi.Prelude.Int.{pos, ltb_ℤ}
use sber_wifi.Time.{IperfTime, IsNormal, iperf_time_compare, iperf_time_in_usecs}
use sber_wifi.Timer.{Timer, Timers, find, next, node}
use sber_wifi.Timer.Insert.{due, count}
use sber_wifi.Timer.Unlink.{find-count, All-find}
use sber_wifi.Timer.Due.{lag_all, Ready, Round, reschedule-Round, next-active}
use sber_wifi.Timer.Run.{finished, reschedule, run_from, tmr_run, head_of}

-- The test of the loop, at a normal timer.
due_test :
    (t : Timer) (now : IperfTime)
    → IsNormal t.time
    → IsNormal now
    → ltb_ℤ (pos 0) (iperf_time_compare t.time now) ≡ ltb (iperf_time_in_usecs now) (due t)
unfolding iperf_time_compare iperf_time_in_usecs
due_test t now ht hn = ground arith

still_active :
    {n : ℕ} (h : ℕ) (s : Timers) (t : Timer) (s1 : Timers)
    → Ready n s
    → find h s.timers ≡ some t
    → Round n h s s1
    → (j : ℕ) → next h s ≡ some j
    → 0 < count j s1.timers
still_active h s t s1 v e round j k =
    let (a, ne) = next-active h s t j v.inv e k in round.stays j ne a

head_active : (l : List Timer) (h : ℕ) → head_of l ≡ some h → 0 < count h l
head_active [] h e = absurd (ground arith)
head_active (t ∷ l) h e = ground arith

module _ {W : Type 0} (call : Timer → IperfTime → Timers → W → Option (Timers × W)) where
  -- A timer function that changes no timer and has no fault of its own.
  abbrev pub IsQuiet : Type 0
  IsQuiet =
      (t : Timer) (now : IperfTime) (s : Timers) (w : W)
      → (w' : W) × (call t now s w ≡ some (s, w'))

  -- A round that fires a timer.
  run_from-step :
      (fuel : ℕ) (now : IperfTime) (h : ℕ) (s : Timers) (w : W) (t : Timer) (s1 : Timers) (w1 : W)
      → node h s ≡ some t
      → ltb_ℤ (pos 0) (iperf_time_compare t.time now) ≡ false
      → call t now s w ≡ some (s, w1)
      → reschedule h s ≡ some s1
      → run_from call (suc fuel) now (some h) s w ≡ run_from call fuel now (next h s) s1 w1
  unfolding run_from
  run_from-step fuel now h s w t s1 w1 at test called made =
      rw (at, run_from) (rw test (rw called (rw made refl)))

  run_from-ends :
      (fuel : ℕ) (now : IperfTime) (p : Option ℕ) (s : Timers) (w : W)
      → IsQuiet
      → IsNormal now
      → Ready (iperf_time_in_usecs now) s
      → ((h : ℕ) → p ≡ some h → 0 < count h s.timers)
      → lag_all (iperf_time_in_usecs now) s.timers < fuel
      → (s' : Timers) × (w' : W) × (run_from call fuel now p s w ≡ finished s' w')
        × Ready (iperf_time_in_usecs now) s'
  unfolding run_from
  run_from-ends zero now p s w quiet n v active enough = absurd (omega arith)
  run_from-ends (suc fuel) now none s w quiet n v active enough = (s, w, refl, v)
  run_from-ends (suc fuel) now (some h) s w quiet n v active enough = elim (find-count h s.timers) [
    | inl (p, q) ↦ absurd (omega (arith, active h refl))
    | inr (t, e, q) ↦
        let at : node h s ≡ some t = unfold node in rw e refl in
        let normal = All-find (λ u. IsNormal u.time) h s.timers t e v.inv.normal in
        elim (Bool-cases (ltb (iperf_time_in_usecs now) (due t))) [
          | inl early ↦ (s, w, rw (at, run_from) (rw (due_test t now normal n, early) refl), v)
          | inr late ↦
              let (w1, called) = quiet t now s w in
              let (s1, made, round) =
                reschedule-Round (iperf_time_in_usecs now) h s t v e (ground arith) in
              let (s2, w2, rest, ready) =
                run_from-ends fuel now (next h s) s1 w1 quiet n round.ready
                  (still_active h s t s1 v e round) (omega (arith, round.less)) in
              let test = due_test t now normal n ∙ late in
              (s2, w2, run_from-step fuel now h s w t s1 w1 at test called made ∙ rest, ready)
        ]
  ]

  -- At a normal time, with timer functions that leave the timers alone, from a well-formed package
  -- whose periodic timers have a period that is not zero and, added to the time, stays below 2 ^ 32
  -- seconds, tmr_run ends without a fault and leaves such a package; fuel above the total lateness
  -- of the timers is enough.
  pub tmr_run-ends :
      (fuel : ℕ) (now : IperfTime) (s : Timers) (w : W)
      → IsQuiet
      → IsNormal now
      → Ready (iperf_time_in_usecs now) s
      → lag_all (iperf_time_in_usecs now) s.timers < fuel
      → (s' : Timers) × (w' : W) × (tmr_run call fuel now s w ≡ finished s' w')
        × Ready (iperf_time_in_usecs now) s'
  unfolding tmr_run
  tmr_run-ends fuel now s w quiet n v enough =
      run_from-ends fuel now (head_of s.timers) s w quiet n v (head_active s.timers) enough
