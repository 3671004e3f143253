-- ===== src/Timer/Run.antt =====
-- timer.c: tmr_run, over any timer functions. `call` is the indirect call of `timer_proc`: it may
-- change the timers and the rest of the program's state `W`, and `none` is a fault of its own.
-- `fuel` bounds the rounds of the loop; the module Ends shows how much is enough.
use sber_wifi.Prelude.{ℕ, zero, suc, true, false, Option, none, some, List, [], ◌∷◌, if◌then◌else◌}
use sber_wifi.Prelude.Int.{pos, ltb_ℤ}
use sber_wifi.Time.{IperfTime, iperf_time_add_usecs, iperf_time_compare}
use sber_wifi.Timer.{Timer, Timers, list_resort, tmr_cancel, node, next}

pub data Outcome (W : Type 0) : Type 0 where
  finished : Timers → W → Outcome W
  fault : Outcome W
  out_of_fuel : Outcome W

abbrev with_timers : Timers → Option (List Timer) → Option Timers
with_timers s none = none
with_timers s (some l) = some (record s { timers = l })

-- The end of a round: `periodic` and `usecs` are read after the call.
unfoldable pub reschedule : ℕ → Timers → Option Timers
unfolding node list_resort tmr_cancel
reschedule h s = elim (node h s) [
  | none ↦ none
  | some t ↦
      if t.periodic
      then with_timers s
          (list_resort (record t { time = iperf_time_add_usecs t.time t.usecs }) s.timers)
      else tmr_cancel h s
]

abbrev pub head_of : List Timer → Option ℕ
head_of [] = none
head_of (t ∷ l) = some t.handle

module _ {W : Type 0} (call : Timer → IperfTime → Timers → W → Option (Timers × W)) where
  -- One round per unit of fuel; `t` is the loop variable.
  unfoldable pub run_from : ℕ → IperfTime → Option ℕ → Timers → W → Outcome W
  unfolding reschedule next node
  run_from zero now t s w = out_of_fuel
  run_from (suc fuel) now none s w = finished s w
  run_from (suc fuel) now (some h) s w = elim (node h s) [
    | none ↦ fault
    | some t ↦ elim (ltb_ℤ (pos 0) (iperf_time_compare t.time now)) [
      | true ↦ finished s w
      | false ↦ elim (call t now s w) [
        | none ↦ fault
        | some (s', w') ↦ elim (reschedule h s') [
          | none ↦ fault
          | some s'' ↦ run_from fuel now (next h s) s'' w'
        ]
      ]
    ]
  ]

  unfoldable pub tmr_run : ℕ → IperfTime → Timers → W → Outcome W
  unfolding run_from
  tmr_run fuel now s w = run_from fuel now (head_of s.timers) s w
