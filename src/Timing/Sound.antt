-- ===== src/Timing/Sound.antt =====
-- The timers of a test: which handles the test holds, which of its timers are active, and that the
-- two agree. How one change of the active list carries this on.
use sber_wifi.Prelude.{
  ℕ, ◌+◌, ◌≤◌, ◌<◌, ◌≡◌, refl, sym, ap, ◌∙◌, ◌≢◌, inl, inr, Bool, ◌||◌, Option, none, some, List,
  [], ◌∷◌, arith, ◌==◌, if◌then◌else◌, Bool-cases, Option-cases,
}
use sber_wifi.Prelude.Float.{Float}
use sber_wifi.Time.{IperfTime, IsNormal}
use sber_wifi.Timer.{Timer, Timers, find}
use sber_wifi.Timer.Insert.{count}
use sber_wifi.Timer.Api.{Inv, Updates}
use sber_wifi.Timing.{Sender, Timed, Calls}

unfoldable pub holds : Option ℕ → ℕ → ℕ
holds none h = 0
holds (some a) h = if a == h then 1 else 0

unfoldable pub send_refs : List Sender → ℕ → ℕ
unfolding holds
send_refs [] h = 0
send_refs (x ∷ l) h = holds x.send_timer h + send_refs l h

-- How often the test holds the handle `h` for the timer function at `c`.
unfoldable pub refs : {W : Type 0} → ℕ → ℕ → Timed W → ℕ
unfolding holds send_refs
refs c h s =
    if c == 0
    then holds s.timer h
    else if c == 1
    then holds s.stats_timer h
    else if c == 2
    then holds s.reporter_timer h
    else if c == 3
    then holds s.omit_timer h
    else if c == 4
    then send_refs s.streams h
    else 0

unfoldable pub of_timer : ℕ → Option Timer → ℕ
of_timer c none = 0
of_timer c (some t) = if t.proc == c then 1 else 0

-- 1 if the timer `h` is active and calls the timer function at `c`, else 0.
unfoldable pub active : ℕ → ℕ → Timers → ℕ
unfolding of_timer find
active c h s = of_timer c (find h s.timers)

-- Whether the timers of the timer function at `c` are periodic.
unfoldable pub periodic_at : ℕ → Bool
periodic_at c = (c == 1) || (c == 2) || (c == 4)

-- The timers package is well formed. The active timers are the ones whose handles the test holds, each
-- in the place for its timer function, and `extra` others.
pub record Sound {W : Type 0} (extra : ℕ → ℕ → ℕ) (s : Timed W) : Type 0 where
  pub inv : Inv s.timers
  pub matches : (c h : ℕ) → refs c h s + extra c h ≡ active c h s.timers
  pub periods :
      (h : ℕ) (t : Timer) → find h s.timers.timers ≡ some t → t.periodic ≡ periodic_at t.proc

abbrev pub no_others : ℕ → ℕ → ℕ
no_others c h = 0

-- A timer of the function at `k` that the test no longer holds.
abbrev pub one_other : ℕ → ℕ → ℕ → ℕ → ℕ
one_other k h0 c h = if c == k then if h == h0 then 1 else 0 else 0

-- What malloc and the clock promise.
pub record Behaves {F : Float} {W : Type 0} (calls : Calls F W) : Type 0 where
  pub fresh :
      (s : Timers) (w : W) (m : ℕ)
      → (calls.malloc s w).0 ≡ some m
      → count m s.timers + count m s.free_timers ≡ 0
  pub normal : (w : W) (t : IperfTime) → (calls.clock w).0 ≡ some t → IsNormal t
  pub getnow : (w : W) → IsNormal (calls.getnow w).0

-- The pointers to the timers of the test are NULL, in the streams too.
unfoldable pub HasNone : {W : Type 0} → Timed W → Type 0
HasNone s =
    (s.timer ≡ none)
    × (s.stats_timer ≡ none)
    × (s.reporter_timer ≡ none)
    × (s.omit_timer ≡ none)
    × ((h : ℕ) → send_refs s.streams h ≡ 0)

pub refs-other :
    {W : Type 0} (s : Timed W) (timers : Timers) (w : W) (c h : ℕ)
    → refs c h (record s { timers = timers; world = w }) ≡ refs c h s
unfolding refs
refs-other s timers w c h = refl

-- One change of the active list carries the agreement on, if the handles that the test holds change
-- with it.
pub Updates-Sound :
    {W : Type 0} {before after : ℕ → ℕ → ℕ} (s s' : Timed W) (h : ℕ) (contents : Option Timer)
    → Sound before s
    → Updates s.timers s'.timers h contents
    → ((c j : ℕ) → j ≢ h → refs c j s' + after c j ≡ refs c j s + before c j)
    → ((c : ℕ) → refs c h s' + after c h ≡ of_timer c contents)
    → ((t : Timer) → contents ≡ some t → t.periodic ≡ periodic_at t.proc)
    → Sound after s'
unfolding active
Updates-Sound s s' h contents v u others same kept = record {
  inv = u.inv;
  matches = λ c j. elim (Bool-cases (j == h)) [
    | inl eq ↦ let at : j ≡ h = ground arith in rw at (same c ∙ sym (ap (of_timer c) u.here))
    | inr ne ↦
        let away : j ≢ h = ground arith in
        others c j away ∙ v.matches c j ∙ sym (ap (of_timer c) (u.elsewhere j away))
  ];
  periods = λ j t e. elim (Bool-cases (j == h)) [
    | inl eq ↦
        let at : j ≡ h = ground arith in
        kept t (sym u.here ∙ (sym (ap (λ i. find i s'.timers.timers) at) ∙ e))
    | inr ne ↦ v.periods j t (sym (u.elsewhere j (ground arith)) ∙ e)
  ];
}

-- The active timer behind a handle that is counted once.
pub find-active :
    (c h : ℕ) (s : Timers)
    → 0 < active c h s
    → (t : Timer) × (find h s.timers ≡ some t) × (t.proc ≡ c)
unfolding active of_timer
find-active c h s e = elim (Option-cases (find h s.timers)) [
  | inl missing ↦ absurd (ground arith)
  | inr (t, found) ↦ (t, found, ground arith)
]

pub active-found :
    (c h : ℕ) (s : Timers) (t : Timer)
    → find h s.timers ≡ some t
    → active c h s ≡ of_timer c (some t)
unfolding active
active-found c h s t e = ap (of_timer c) e

pub active_le_one : (c h : ℕ) (s : Timers) → active c h s ≤ 1
unfolding active of_timer
active_le_one c h s = elim (Option-cases (find h s.timers)) [
  | inl missing ↦ ground arith
  | inr (t, found) ↦ ground arith
]

-- What changes neither the timers nor the pointers to them.
pub world-Sound :
    {W : Type 0} {e : ℕ → ℕ → ℕ} (s : Timed W) (over omits : Bool) (w : W)
    → Sound e s
    → Sound e (record s { done = over; omitting = omits; world = w })
unfolding refs
world-Sound s over omits w v = record { inv = v.inv; matches = v.matches; periods = v.periods }
