-- ===== src/Timing/Fires.antt =====
-- The timer functions, as tmr_run calls them, and the end of its round: the agreement of the test
-- with the active timers is kept, and no pointer to a timer that is gone is followed.
use sber_wifi.Prelude.{
  ℕ, ◌+◌, ◌<◌, ◌≡◌, refl, sym, ◌∙◌, ◌≢◌, inl, inr, true, false, Option, none, some, arith, ◌==◌,
  if◌then◌else◌, Bool-cases,
}
use sber_wifi.Time.{IperfTime, IsNormal, iperf_time_add_usecs}
use sber_wifi.Time.Add.{add_usecs-IsNormal}
use sber_wifi.Timer.{Timer, Timers, find, tmr_cancel, list_resort, list_add, node}
use sber_wifi.Timer.Unlink.{find-list_remove, All-find}
use sber_wifi.Timer.Run.{reschedule}
use sber_wifi.Timer.Api.{Updates, tmr_cancel-Updates, tmr_reset-Updates, moved-Updates}
use sber_wifi.Timing.{Timed}
use sber_wifi.Timing.Callbacks.{reset_in}
use sber_wifi.Timing.Sound.{
  refs, of_timer, Sound, no_others, Updates-Sound, find-active, active-found, active_le_one,
}

-- The call ends without a fault, and in a state of which `P` holds.
pub Ends : {W : Type 0} → (Timed W → Type 0) → Option (Timed W) → Type 0
Ends P o = (s : _) × (o ≡ some s) × P s

-- Once fewer, the handle `h` in the place for the timer function at `k`.
pub record Drops {W : Type 0} (k h : ℕ) (before after : ℕ → ℕ → ℕ) (s s' : Timed W) : Type 0 where
  pub elsewhere : (c j : ℕ) → j ≢ h → refs c j s' + after c j ≡ refs c j s + before c j
  pub here : (c : ℕ) → refs c h s + before c h ≡ refs c h s' + after c h + (if c == k then 1 else 0)

held-active :
    {W : Type 0} {before after : ℕ → ℕ → ℕ} (s s' : Timed W) (k h : ℕ)
    → Sound before s
    → Drops k h before after s s'
    → (t : Timer) × (find h s.timers.timers ≡ some t) × (t.proc ≡ k)
held-active s s' k h v d = find-active k h s.timers (ground (arith, d.here k, v.matches k h))

dropped :
    {W : Type 0} {before after : ℕ → ℕ → ℕ} (s s' : Timed W) (k h : ℕ)
    → Sound before s
    → Drops k h before after s s'
    → (c : ℕ) → refs c h s' + after c h ≡ 0
unfolding of_timer
dropped s s' k h v d c =
    let (t, found, proc) = held-active s s' k h v d in
    let was = sym (v.matches c h) ∙ d.here c in
    elim (Bool-cases (c == k)) [
      | inl same ↦ ground (arith, was, active_le_one c h s.timers)
      | inr other ↦ ground (arith, was, active-found c h s.timers t found)
    ]

-- Cancelling the timer behind a pointer that the test then forgets.
pub cancelled-Sound :
    {W : Type 0} {before after : ℕ → ℕ → ℕ} (s s' : Timed W) (k h : ℕ)
    → Sound before s
    → Drops k h before after s s'
    → (ts : Timers) × (tmr_cancel h s.timers ≡ some ts) × Sound after (record s' { timers = ts })
unfolding of_timer refs
cancelled-Sound s s' k h v d =
    let (t, found, proc) = held-active s s' k h v d in
    let (ts, cancels, free, u) = tmr_cancel-Updates h s.timers t v.inv found in
    (
      ts,
      cancels,
      Updates-Sound s (record s' { timers = ts }) h none v u d.elsewhere (dropped s s' k h v d)
          (λ t' no. absurd cc),
    )

-- Moving an active timer in time.
moved-Sound :
    {W : Type 0} {e : ℕ → ℕ → ℕ} (s : Timed W) (ts : Timers) (h : ℕ) (t : Timer) (at : IperfTime)
    → Sound e s
    → find h s.timers.timers ≡ some t
    → Updates s.timers ts h (some (record t { time = at }))
    → Sound e (record s { timers = ts })
unfolding of_timer refs
moved-Sound s ts h t at v found u =
    Updates-Sound s (record s { timers = ts }) h (some (record t { time = at })) v u
      (λ c j ne. refl) (λ c. v.matches c h ∙ active-found c h s.timers t found)
      (λ t' same. let ok = v.periods h t found in cc)

pub reset_in-Sound :
    {W : Type 0} {e : ℕ → ℕ → ℕ} (now : IperfTime) (p : Option ℕ) (k : ℕ) (s : Timed W)
    → IsNormal now
    → Sound e s
    → ((h : ℕ) → p ≡ some h → 0 < refs k h s + e k h)
    → (ts : Timers) × (reset_in now p s ≡ some (record s { timers = ts }))
      × Sound e (record s { timers = ts })
unfolding reset_in
reset_in-Sound now none k s n v held = (s.timers, refl, v)
reset_in-Sound now (some h) k s n v held =
    let (t, found, proc) = find-active k h s.timers (ground (arith, held h refl, v.matches k h)) in
    let (ts, resets, u) = tmr_reset-Updates now h s.timers t v.inv n found in
    (ts, rw resets refl, moved-Sound s ts h t _ v found u)

-- The end of a round for a periodic timer.
pub again-Sound :
    {W : Type 0} {e : ℕ → ℕ → ℕ} (h : ℕ) (t : Timer) (s : Timed W)
    → Sound e s
    → find h s.timers.timers ≡ some t
    → t.periodic ≡ true
    → (ts : Timers) × (reschedule h s.timers ≡ some ts) × Sound e (record s { timers = ts })
unfolding reschedule node list_resort
again-Sound h t s v found per = elim (find-list_remove h s.timers.timers) [
  | inl (p, q) ↦ absurd (ground arith)
  | inr (u, r, p, q, same) ↦
      let t' : Timer = record t { time = iperf_time_add_usecs t.time t.usecs } in
      let at : t.handle ≡ h = ground arith in
      let ts : Timers = record s.timers { timers = list_add t' r } in
      let normal = All-find (λ x. IsNormal x.time) h s.timers.timers t found v.inv.normal in
      let u = moved-Updates s.timers h r t' v.inv q at (add_usecs-IsNormal t.time t.usecs normal) in
      (ts, ground arith, moved-Sound s ts h t _ v found u)
]

-- The end of a round for a timer that is not periodic, and that the test no longer holds.
pub over-Sound :
    {W : Type 0} {e : ℕ → ℕ → ℕ} (k h : ℕ) (t : Timer) (s : Timed W)
    → Sound e s
    → find h s.timers.timers ≡ some t
    → t.periodic ≡ false
    → Drops k h e no_others s s
    → (ts : Timers) × (reschedule h s.timers ≡ some ts) × Sound no_others (record s { timers = ts })
unfolding reschedule node
over-Sound k h t s v found once d =
    let (ts, cancels, sound) = cancelled-Sound s s k h v d in
    (ts, rw (reschedule, found) (rw once cancels), sound)
