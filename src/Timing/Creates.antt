-- ===== src/Timing/Creates.antt =====
-- create_client_timers, create_server_timers and the omit timer's: what is created is held.
use sber_wifi.Prelude.{
  ℕ, ◌+◌, ◌≡◌, refl, sym, ap, ◌∙◌, ◌≢◌, inl, inr, Bool, true, false, not, Option, none, some, arith,
  ◌==◌, if◌then◌else◌, Bool-cases, Option-cases,
}
use sber_wifi.Prelude.Int.{ℤ, pos, eq_ℤ}
use sber_wifi.Prelude.Float.{Float}
use sber_wifi.Time.{IperfTime, IsNormal}
use sber_wifi.Timer.{Timer, Timers, find, tmr_create, fresh_timer}
use sber_wifi.Timer.Insert.{count}
use sber_wifi.Timer.Api.{tmr_create-Updates, tmr_create-new}
use sber_wifi.Timing.{
  started, store_timer, store_stats, store_reporter, store_omit, Kind, code, is_periodic, Plan,
  Timed, Calls, test_end, stats, reporter, omit, send, Made, made, failed, if_made, create,
  create_when, timers_at, create_client_timers, create_server_timers, omit_at, create_omit_timer,
}
use sber_wifi.Timing.Sound.{
  world-Sound, holds, refs, of_timer, active, periodic_at, Sound, no_others, Behaves, Updates-Sound,
}

-- Whatever a function that creates timers returns, it leaves this.
unfoldable pub Leaves : {W : Type 0} → (Timed W → Type 0) → Made W → Type 0
Leaves P (made s) = P s
Leaves P (failed s) = P s

pub Leaves-if_made :
    {W : Type 0} (P Q : Timed W → Type 0) (m : Made W) (f : Timed W → Made W)
    → Leaves P m
    → ((s : Timed W) → P s → Q s)
    → ((s : Timed W) → P s → Leaves Q (f s))
    → Leaves Q (if_made m f)
unfolding Leaves
Leaves-if_made P Q (made s) f p q next = next s p
Leaves-if_made P Q (failed s) f p q next = q s p

pub is_periodic-code : (k : Kind) → is_periodic k ≡ periodic_at (code k)
unfolding periodic_at
is_periodic-code test_end = refl
is_periodic-code stats = refl
is_periodic-code reporter = refl
is_periodic-code omit = refl
is_periodic-code send = refl

-- One handle more, in the place for the timer function at `k`.
pub record Adds {W : Type 0} (k h : ℕ) (s s' : Timed W) : Type 0 where
  pub elsewhere : (c j : ℕ) → j ≢ h → refs c j s' ≡ refs c j s
  pub here : (c : ℕ) → refs c h s' ≡ refs c h s + (if c == k then 1 else 0)

-- The test holds no handle that is not active.
unheld :
    {W : Type 0} (c h : ℕ) (s : Timed W)
    → Sound no_others s
    → find h s.timers.timers ≡ none
    → refs c h s ≡ 0
unfolding active of_timer
unheld c h s v free =
    let e : refs c h s + 0 ≡ 0 = v.matches c h ∙ ap (of_timer c) free in omega arith

-- A handle that tmr_create returns, stored in its place.
pub created-Sound :
    {W : Type 0} (memory : Option ℕ) (now : IperfTime) (k : Kind) (client_data usecs : ℕ)
    (s s' : Timed W) (h : ℕ)
    → Sound no_others s
    → IsNormal now
    → ((m : ℕ) → memory ≡ some m → count m s.timers.timers + count m s.timers.free_timers ≡ 0)
    → tmr_create memory now (code k) client_data usecs (is_periodic k) s.timers
      ≡ some (h, s'.timers)
    → Adds (code k) h s s'
    → Sound no_others s'
unfolding of_timer
created-Sound memory now k d u s s' h v n fresh e adds =
    let free =
      tmr_create-new memory now (code k) d u (is_periodic k) s.timers v.inv fresh h s'.timers e in
    let t : Timer = fresh_timer h now (code k) d u (is_periodic k) in
    Updates-Sound s s' h (some t) v
      (tmr_create-Updates memory now (code k) d u (is_periodic k) s.timers v.inv n fresh h s'.timers
        e)
      (λ c j ne. ap (λ x. x + 0) (adds.elsewhere c j ne))
      (λ c. elim (Bool-cases (c == code k)) [
        | inl same ↦ ground (arith, adds.here c, unheld c h s v free)
        | inr other ↦ ground (arith, adds.here c, unheld c h s v free)
      ])
      (λ t' same. let ok : t.periodic ≡ periodic_at t.proc = is_periodic-code k in cc)

-- The pointers of the test that create_client_timers and create_server_timers set are NULL.
unfoldable pub IsIdle : {W : Type 0} → Timed W → Type 0
IsIdle s = (s.timer ≡ none) × (s.stats_timer ≡ none) × (s.reporter_timer ≡ none)

Adds-timer :
    {W : Type 0} (s : Timed W) (h : ℕ) (ts : Timers) (w : W)
    → s.timer ≡ none
    → Adds 0 h s (record s { timer = some h; timers = ts; world = w })
unfolding refs holds
Adds-timer s h ts w e = record { elsewhere = λ c j ne. ground arith; here = λ c. ground arith }

Adds-stats :
    {W : Type 0} (s : Timed W) (h : ℕ) (ts : Timers) (w : W)
    → s.stats_timer ≡ none
    → Adds 1 h s (record s { stats_timer = some h; timers = ts; world = w })
unfolding refs holds
Adds-stats s h ts w e = record { elsewhere = λ c j ne. ground arith; here = λ c. ground arith }

Adds-reporter :
    {W : Type 0} (s : Timed W) (h : ℕ) (ts : Timers) (w : W)
    → s.reporter_timer ≡ none
    → Adds 2 h s (record s { reporter_timer = some h; timers = ts; world = w })
unfolding refs holds
Adds-reporter s h ts w e = record { elsewhere = λ c j ne. ground arith; here = λ c. ground arith }

Adds-omit :
    {W : Type 0} (s : Timed W) (h : ℕ) (ts : Timers) (w : W)
    → s.omit_timer ≡ none
    → Adds 3 h s (record s { omit_timer = some h; timers = ts; world = w })
unfolding refs holds
Adds-omit s h ts w e = record { elsewhere = λ c j ne. ground arith; here = λ c. ground arith }

-- What `create` leaves: nothing but the world is changed, or the timer is created and stored.
module _ {F : Float} {W : Type 0} (calls : Calls F W) (good : Behaves calls) where
  pub create-Leaves :
      (Q : Timed W → Type 0) (k : Kind) (now : IperfTime) (client_data usecs : ℕ)
      (put : ℕ → Timed W → Timed W) (s : Timed W)
      → Sound no_others s
      → IsNormal now
      → ((w : W) → Sound no_others (record s { world = w }) → Q (record s { world = w }))
      → ((h : ℕ) (ts : Timers) (w : W)
          → let s' = put h (record s { timers = ts; world = w }) in
            (s'.timers ≡ ts) × Adds (code k) h s s' × (Sound no_others s' → Q s'))
      → Leaves Q (create calls k now client_data usecs put s)
  unfolding create Leaves
  create-Leaves Q k now d u put s v n fails stores =
      let memory = calls.malloc s.timers s.world in
      elim (Option-cases (tmr_create memory.0 now (code k) d u (is_periodic k) s.timers)) [
        | inl fail ↦ rw fail (fails memory.1 (world-Sound s s.done s.omitting memory.1 v))
        | inr ((h, ts), ok) ↦
            let (at, adds, keep) = stores h ts memory.1 in
            rw ok (
              keep (
                created-Sound memory.0 now k d u s _ h v n (good.fresh s.timers s.world)
                  (ok ∙ ap (λ x. some (h, x)) (sym at)) adds))
      ]

  create_when-Leaves :
      (Q : Timed W → Type 0) (wanted : Bool) (k : Kind) (now : IperfTime) (usecs : ℕ)
      (put : ℕ → Timed W → Timed W) (s : Timed W)
      → Sound no_others s
      → IsNormal now
      → ((w : W) → Sound no_others (record s { world = w }) → Q (record s { world = w }))
      → ((h : ℕ) (ts : Timers) (w : W)
          → let s' = put h (record s { timers = ts; world = w }) in
            (s'.timers ≡ ts) × Adds (code k) h s s' × (Sound no_others s' → Q s'))
      → Leaves Q (create_when calls wanted k now usecs put s)
  unfolding create_when Leaves
  create_when-Leaves Q true k now u put s v n fails stores =
      create-Leaves Q k now 0 u put s v n fails stores
  create_when-Leaves Q false k now u put s v n fails stores = fails s.world v

  started-Sound :
      (timed : Bool) (s : Timed W)
      → IsIdle s
      → Sound no_others s
      → Sound no_others (started calls timed s)
  unfolding IsIdle refs holds
  started-Sound timed s (a, b, c) v = record {
    inv = v.inv;
    matches = λ k h. rw (a, b, c) at v.matches k h;
    periods = v.periods;
  }

  timers_at-Leaves :
      (grace : ℤ) (plan : Plan F) (now : Option IperfTime) (s : Timed W)
      → ((t : IperfTime) → now ≡ some t → IsNormal t)
      → IsIdle s
      → Sound no_others s
      → Leaves (Sound no_others) (timers_at calls grace plan now s)
  unfolding timers_at Leaves
  timers_at-Leaves grace plan none s n idle v = v
  timers_at-Leaves grace plan (some t) s n idle v =
      let timed = not (eq_ℤ plan.duration (pos 0)) in
      let second : Timed W → Type 0 = λ s1. (s1.reporter_timer ≡ none) × Sound no_others s1 in
      let first : Timed W → Type 0 = λ s1. (s1.stats_timer ≡ none) × second s1 in
      Leaves-if_made second (Sound no_others) _ _
        (Leaves-if_made first second _ _
          (create_when-Leaves first timed test_end t _ store_timer (started calls timed s)
            (started-Sound timed s idle v) (n t refl) (λ w k. (refl, (refl, k)))
            (λ h ts w.
              (refl, Adds-timer (started calls timed s) h ts w refl, λ k. (refl, (refl, k)))))
          (λ s1 p. p.1)
          (λ s1 p.
            create_when-Leaves second _ stats t _ store_stats s1 p.1.1 (n t refl)
              (λ w k. (p.1.0, k)) (λ h ts w. (refl, Adds-stats s1 h ts w p.0, λ k. (p.1.0, k)))))
        (λ s1 p. p.1)
        (λ s1 p.
          create_when-Leaves (Sound no_others) _ reporter t _ store_reporter s1 p.1 (n t refl)
            (λ w k. k) (λ h ts w. (refl, Adds-reporter s1 h ts w p.0, λ k. k)))

  -- From a test that holds exactly the active timers and has NULL in the places of the three that
  -- they make, create_client_timers and create_server_timers end, whether they fail or not, with the test holding exactly the active timers, each in its
  -- place, in a well-formed timers package. malloc returns an address that is not in use, and the
  -- clock a normal time.
  pub create_timers-Sound :
      (plan : Plan F) (s : Timed W)
      → IsIdle s
      → Sound no_others s
      → Leaves (Sound no_others) (create_client_timers calls plan s)
        × Leaves (Sound no_others) (create_server_timers calls plan s)
  unfolding create_client_timers create_server_timers IsIdle
  create_timers-Sound plan s idle v =
      let now = calls.clock s.world in
      let read : Sound no_others (record s { world = now.1 }) =
        world-Sound s s.done s.omitting now.1 v in
      (
        timers_at-Leaves (pos 0) plan now.0 (record s { world = now.1 })
            (λ t e. good.normal s.world t e) idle read,
        timers_at-Leaves (pos 40) plan now.0 (record s { world = now.1 })
            (λ t e. good.normal s.world t e) idle read,
      )

  nulled :
      (omitting : Bool) (s : Timed W)
      → s.omit_timer ≡ none
      → Sound no_others s
      → Sound no_others (record s { omit_timer = none; omitting = omitting })
  unfolding refs holds
  nulled omitting s idle v = record {
    inv = v.inv;
    matches = λ k h. rw idle at v.matches k h;
    periods = v.periods;
  }

  omit_at-Leaves :
      (plan : Plan F) (now : Option IperfTime) (s : Timed W)
      → ((t : IperfTime) → now ≡ some t → IsNormal t)
      → s.omit_timer ≡ none
      → Sound no_others s
      → Leaves (Sound no_others) (omit_at calls plan now s)
  unfolding omit_at Leaves
  omit_at-Leaves plan none s n idle v = v
  omit_at-Leaves plan (some t) s n idle v =
      let begun : Timed W = record s { omitting = true; omit_timer = none } in
      create-Leaves (Sound no_others) omit t 0 _ store_omit begun (nulled true s idle v) (n t refl)
        (λ w k. k) (λ h ts w. (refl, Adds-omit begun h ts w refl, λ k. k))

  -- The omit timer's, likewise, from a test that holds no omit timer.
  pub create_omit_timer-Sound :
      (plan : Plan F) (s : Timed W)
      → s.omit_timer ≡ none
      → Sound no_others s
      → Leaves (Sound no_others) (create_omit_timer calls plan s)
  unfolding create_omit_timer Leaves
  create_omit_timer-Sound plan s idle v =
      let now = calls.clock s.world in
      elim (Bool-cases (eq_ℤ plan.omit_time (pos 0))) [
        | inl never ↦ rw never (nulled false s idle v)
        | inr more ↦ rw more (
            omit_at-Leaves plan now.0 (record s { world = now.1 }) (λ t e. good.normal s.world t e)
              idle (world-Sound s s.done s.omitting now.1 v))
      ]
