-- ===== src/Timing/Procs.antt =====
-- The timer functions of the client and of the server, and the round of tmr_run that calls them.
use sber_wifi.Prelude.{
  ℕ, ◌+◌, ◌<◌, ◌≡◌, refl, ap, ◌∙◌, inl, inr, Bool, true, false, Option, none, some, List, [], ◌∷◌,
  arith, Bool-cases, Option-cases,
}
use sber_wifi.Prelude.Float.{Float}
use sber_wifi.Time.{IperfTime, IsNormal}
use sber_wifi.Timer.{Timer, Timers, find}
use sber_wifi.Timer.Run.{reschedule}
use sber_wifi.Timing.{Sender, Timed, Calls}
use sber_wifi.Timing.Callbacks.{
  cancel_in, change, free_streams, server_timer_proc, test_timer_proc, stats_timer_proc,
  reporter_timer_proc, omit_timer_proc, timer_proc,
}
use sber_wifi.Timing.Sound.{
  holds, refs, of_timer, active, periodic_at, Sound, no_others, one_other, world-Sound, find-active,
  active-found,
}
use sber_wifi.Timing.Fires.{cancelled-Sound, reset_in-Sound, again-Sound, over-Sound}
use sber_wifi.Timing.Ended.{
  one_other-Drops, ended-Sound, omitted-Sound, unpaced-Sound, stream-Drops, kinds_of,
}

module _ {F : Float} {W : Type 0} (calls : Calls F W) where
  -- A round of tmr_run on the timer `h`: the call and what follows it end without a fault.
  Fires : Bool → Timer → IperfTime → ℕ → Timed W → Type 0
  Fires is_server t now h s =
      (s' : Timed W) × (ts : Timers) × (timer_proc calls is_server t now s ≡ some s')
      × (reschedule h s'.timers ≡ some ts)
      × Sound no_others (record s' { timers = ts })

  -- The end of a round whose function leaves the pointer to its timer NULL.
  ends_once :
      (is_server : Bool) (t : Timer) (now : IperfTime) (k h : ℕ) (s s' : Timed W)
      → timer_proc calls is_server t now s ≡ some s'
      → periodic_at k ≡ false
      → Sound (one_other k h) s'
      → Fires is_server t now h s
  unfolding Fires
  ends_once is_server t now k h s s' e once v =
      let held : 0 < active k h s'.timers = ground (arith, v.matches k h) in
      let (u, found, at) = find-active k h s'.timers held in
      let (ts, ends, sound) =
        over-Sound k h u s' v found (v.periods h u found ∙ ap periodic_at at ∙ once)
          (one_other-Drops k h s') in
      (s', ts, e, ends, sound)

  -- The end of a round whose function leaves the timers alone.
  ends_again :
      (is_server : Bool) (t : Timer) (now : IperfTime) (h : ℕ) (s : Timed W) (w : W)
      → timer_proc calls is_server t now s ≡ some (record s { world = w })
      → find h s.timers.timers ≡ some t
      → t.periodic ≡ true
      → Sound no_others s
      → Fires is_server t now h s
  unfolding Fires
  ends_again is_server t now h s w e found per v =
      let (ts, ends, sound) =
        again-Sound h t (record s { world = w }) (world-Sound s s.done s.omitting w v) found per in
      (record s { world = w }, ts, e, ends, sound)

  free_streams-Sound :
      {e : ℕ → ℕ → ℕ} (l : List Sender) (s : Timed W)
      → s.streams ≡ l
      → Sound e s
      → (s' : Timed W) × (free_streams calls l s ≡ some s') × Sound e s' × (s'.streams ≡ [])
  unfolding free_streams cancel_in
  free_streams-Sound [] s at v = (s, refl, v, at)
  free_streams-Sound (x ∷ rest) s at v =
      let w = calls.free_stream x.sp (calls.close_socket x.sp s.world) in
      elim (Option-cases x.send_timer) [
        | inl never ↦
            let (s', ends, sound, empty) =
              free_streams-Sound rest (record s { streams = rest; world = w }) refl
                (unpaced-Sound x rest s w at never v) in
            (s', rw never ends, sound, empty)
        | inr (a, held) ↦
            let (ts, cancels, sound1) =
              cancelled-Sound s (record s { streams = rest; world = w }) 4 a v
                (stream-Drops a x rest s w at held) in
            let (s', ends, sound, empty) =
              free_streams-Sound rest (record s { streams = rest; world = w; timers = ts }) refl
                sound1 in
            (s', rw held (rw cancels ends), sound, empty)
      ]

  Fires-test :
      (t : Timer) (now : IperfTime) (h : ℕ) (s : Timed W)
      → t.proc ≡ 0
      → find h s.timers.timers ≡ some t
      → Sound no_others s
      → Fires false t now h s
  unfolding timer_proc test_timer_proc periodic_at of_timer
  Fires-test t now h s at found v =
      let one : 0 < active 0 h s.timers = ground (arith, active-found 0 h s.timers t found) in
      ends_once false t now 0 h s (record s { timer = none; done = true }) (rw at refl) refl
        (ended-Sound h s true v one)

  Fires-server :
      (t : Timer) (now : IperfTime) (h : ℕ) (s : Timed W)
      → t.proc ≡ 0
      → find h s.timers.timers ≡ some t
      → Sound no_others s
      → Fires true t now h s
  unfolding timer_proc server_timer_proc periodic_at of_timer
  Fires-server t now h s at found v =
      let one : 0 < active 0 h s.timers = ground (arith, active-found 0 h s.timers t found) in
      elim (Bool-cases s.done) [
        | inl over ↦
            ends_once true t now 0 h s (record s { timer = none }) (rw (at, over) refl) refl
              (ended-Sound h s s.done v one)
        | inr running ↦
            let (s', ends, sound, empty) =
              free_streams-Sound s.streams (record s { timer = none; done = true }) refl
                (ended-Sound h s true v one) in
            ends_once true t now 0 h s (change calls.close_ctrl_sck s')
              (rw (at, running) (rw ends refl)) refl
              (world-Sound s' s'.done s'.omitting (calls.close_ctrl_sck s'.world) sound)
      ]

  Fires-stats :
      (is_server : Bool) (t : Timer) (now : IperfTime) (h : ℕ) (s : Timed W)
      → t.proc ≡ 1
      → find h s.timers.timers ≡ some t
      → Sound no_others s
      → Fires is_server t now h s
  unfolding timer_proc stats_timer_proc periodic_at
  Fires-stats is_server t now h s at found v = elim (Bool-cases s.done) [
    | inl over ↦
        ends_again is_server t now h s s.world (rw (at, over) refl) found
          (v.periods h t found ∙ ap periodic_at at) v
    | inr running ↦
        ends_again is_server t now h s (calls.stats_callback s.world) (rw (at, running) refl) found
          (v.periods h t found ∙ ap periodic_at at) v
  ]

  Fires-reporter :
      (is_server : Bool) (t : Timer) (now : IperfTime) (h : ℕ) (s : Timed W)
      → t.proc ≡ 2
      → find h s.timers.timers ≡ some t
      → Sound no_others s
      → Fires is_server t now h s
  unfolding timer_proc reporter_timer_proc periodic_at
  Fires-reporter is_server t now h s at found v = elim (Bool-cases s.done) [
    | inl over ↦
        ends_again is_server t now h s s.world (rw (at, over) refl) found
          (v.periods h t found ∙ ap periodic_at at) v
    | inr running ↦
        ends_again is_server t now h s (calls.reporter_callback s.world) (rw (at, running) refl)
          found (v.periods h t found ∙ ap periodic_at at) v
  ]

  held_for :
      (e : ℕ → ℕ → ℕ) (k : ℕ) (p : Option ℕ) (s : Timed W)
      → ((h : ℕ) → refs k h s ≡ holds p h)
      → (h : ℕ) → p ≡ some h
      → 0 < refs k h s + e k h
  unfolding holds
  held_for e k p s same h at = ground (arith, same h)

  Fires-omit :
      (is_server : Bool) (t : Timer) (now : IperfTime) (h : ℕ) (s : Timed W)
      → IsNormal now
      → t.proc ≡ 3
      → find h s.timers.timers ≡ some t
      → Sound no_others s
      → Fires is_server t now h s
  unfolding timer_proc omit_timer_proc periodic_at of_timer refs
  Fires-omit is_server t now h s n at found v =
      let one : 0 < active 3 h s.timers = ground (arith, active-found 3 h s.timers t found) in
      let w = calls.report_omit_done (calls.iperf_reset_stats s.world) in
      let s1 : Timed W = record s { omit_timer = none; omitting = false; world = w } in
      let (ts, resets, v2) =
        reset_in-Sound now s.stats_timer 1 s1 n (omitted-Sound h s w v one)
          (held_for (one_other 3 h) 1 s.stats_timer s1 (λ j. refl)) in
      let s2 : Timed W = record s1 { timers = ts } in
      let (ts', resets', v3) =
        reset_in-Sound now s.reporter_timer 2 s2 n v2
          (held_for (one_other 3 h) 2 s.reporter_timer s2 (λ j. refl)) in
      ends_once is_server t now 3 h s (record s2 { timers = ts' }) (rw at (rw resets resets')) refl
        v3

  Fires-send :
      (is_server : Bool) (t : Timer) (now : IperfTime) (h : ℕ) (s : Timed W)
      → t.proc ≡ 4
      → find h s.timers.timers ≡ some t
      → Sound no_others s
      → Fires is_server t now h s
  unfolding timer_proc periodic_at
  Fires-send is_server t now h s at found v =
      ends_again is_server t now h s (calls.iperf_check_throttle t.client_data now s.world)
        (rw at refl) found (v.periods h t found ∙ ap periodic_at at) v

  Fires-end :
      (is_server : Bool) (t : Timer) (now : IperfTime) (h : ℕ) (s : Timed W)
      → t.proc ≡ 0
      → find h s.timers.timers ≡ some t
      → Sound no_others s
      → Fires is_server t now h s
  Fires-end true t now h s at found v = Fires-server t now h s at found v
  Fires-end false t now h s at found v = Fires-test t now h s at found v

  -- In a test that holds exactly its active timers, the call of the timer function of any active
  -- timer, and the end of the round of tmr_run, find every timer that they cancel, reset or sort
  -- again on the active list, and the test again holds exactly its active timers; on the client and
  -- on the server, whatever the callbacks do to the rest of the program. The time is normal.
  pub timer_proc-Sound :
      (is_server : Bool) (t : Timer) (now : IperfTime) (h : ℕ) (s : Timed W)
      → IsNormal now
      → find h s.timers.timers ≡ some t
      → Sound no_others s
      → (s' : Timed W) × (ts : Timers) × (timer_proc calls is_server t now s ≡ some s')
        × (reschedule h s'.timers ≡ some ts)
        × Sound no_others (record s' { timers = ts })
  unfolding Fires
  timer_proc-Sound is_server t now h s n found v = elim (kinds_of t h s found v) [
    | inl at ↦ Fires-end is_server t now h s at found v
    | inr (inl at) ↦ Fires-stats is_server t now h s at found v
    | inr (inr (inl at)) ↦ Fires-reporter is_server t now h s at found v
    | inr (inr (inr (inl at))) ↦ Fires-omit is_server t now h s n at found v
    | inr (inr (inr (inr at))) ↦ Fires-send is_server t now h s at found v
  ]
