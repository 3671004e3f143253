-- ===== src/Timer/Due.antt =====
-- timer.c: how late the timers are, and what one round of tmr_run does about it.
use sber_wifi.Prelude.{
  ℕ, suc, ◌+◌, ◌-◌, ◌*◌, ◌^◌, ◌≤◌, ◌<◌, ◌≡◌, refl, ◌≢◌, inl, inr, true, some, List, [], ◌∷◌, arith,
  ◌==◌, Bool-cases, Option-cases,
}
use sber_wifi.Time.{IsNormal, sec_to_us, iperf_time_add_usecs}
use sber_wifi.Time.Add.{add_usecs-IsNormal, add_usecs_exact}
use sber_wifi.Timer.{
  Timer, Timers, find, list_add, list_walk, list_remove, next, next_in, tmr_cancel,
}
use sber_wifi.Timer.Insert.{All, All-list_add, due, count, list_add-list_walk, count-list_add}
use sber_wifi.Timer.Unlink.{find-list_remove, All-find, All-list_remove, count-list_remove}
use sber_wifi.Timer.Api.{Inv, moved-Updates, tmr_cancel-Updates}
use sber_wifi.Timer.Run.{reschedule}

-- How many microseconds a timer is overdue at the time `n`, 1 for one that is due just then.
abbrev pub lag : ℕ → Timer → ℕ
lag n t = suc n - due t

abbrev pub lag_all : ℕ → List Timer → ℕ
lag_all n [] = 0
lag_all n (t ∷ l) = lag n t + lag_all n l

lag_all-list_walk :
    (n : ℕ) (t : Timer) (l : List Timer) → lag_all n (list_walk t l) ≡ lag n t + lag_all n l
unfolding list_walk
lag_all-list_walk n t [] = refl
lag_all-list_walk n t (x ∷ l) = ground (arith, lag_all-list_walk n t l)

pub lag_all-list_add :
    (n : ℕ) (t : Timer) (l : List Timer) → lag_all n (list_add t l) ≡ lag n t + lag_all n l
lag_all-list_add n t l = rw (list_add-list_walk t l) (lag_all-list_walk n t l)

pub lag_all-list_remove :
    (n h : ℕ) (l r : List Timer) (t : Timer)
    → find h l ≡ some t
    → list_remove h l ≡ some r
    → lag_all n l ≡ lag n t + lag_all n r
unfolding find list_remove
lag_all-list_remove n h [] r t e f = absurd (ground arith)
lag_all-list_remove n h (x ∷ l) r t e f = elim (Bool-cases (x.handle == h)) [
  | inl same ↦ ground arith
  | inr other ↦ elim (Option-cases (list_remove h l)) [
    | inl missing ↦ absurd (ground arith)
    | inr (q, found) ↦ ground (arith, lag_all-list_remove n h l q t)
  ]
]

-- A periodic timer has a period, and adding it to the time `n` does not wrap the seconds.
abbrev pub IsPrompt : ℕ → Timer → Type 0
IsPrompt n t = t.periodic ≡ true → (0 < t.usecs) × (n + t.usecs < 2 ^ 32 * sec_to_us)

pub record Ready (n : ℕ) (s : Timers) : Type 0 where
  pub inv : Inv s
  pub prompt : All (IsPrompt n) s.timers

-- A round ends with the timers ready, less overdue, and all but the one that fired still active.
pub record Round (n h : ℕ) (s s' : Timers) : Type 0 where
  pub ready : Ready n s'
  pub less : lag_all n s'.timers < lag_all n s.timers
  pub stays : (j : ℕ) → j ≢ h → 0 < count j s.timers → 0 < count j s'.timers

fire_again :
    (n h : ℕ) (s : Timers) (t : Timer) (r : List Timer)
    → Ready n s
    → find h s.timers ≡ some t
    → list_remove h s.timers ≡ some r
    → t.handle ≡ h
    → due t ≤ n
    → t.periodic ≡ true
    → Round n h s
        (record s { timers = list_add (record t { time = iperf_time_add_usecs t.time t.usecs }) r })
fire_again n h s t r v e q at d per =
    let normal = All-find (λ u. IsNormal u.time) h s.timers t e v.inv.normal in
    let prompt = All-find (IsPrompt n) h s.timers t e v.prompt per in
    let t' : Timer = record t { time = iperf_time_add_usecs t.time t.usecs } in
    let later : due t' ≡ due t + t.usecs = add_usecs_exact t.time t.usecs normal (omega arith) in
    let moved = moved-Updates s h r t' v.inv q at (add_usecs-IsNormal t.time t.usecs normal) in
    record {
      ready = record {
        inv = moved.inv;
        prompt =
            All-list_add (IsPrompt n) t' r (λ p. prompt)
              (All-list_remove (IsPrompt n) h s.timers r q v.prompt);
      };
      less = omega (arith, lag_all-list_add n t' r, lag_all-list_remove n h s.timers r t e q);
      stays =
          λ j ne some_j. ground (arith, count-list_add j t' r, count-list_remove j h s.timers r q);
    }

fire_once :
    (n h : ℕ) (s : Timers) (t : Timer) (r : List Timer) (s' : Timers)
    → Ready n s
    → find h s.timers ≡ some t
    → list_remove h s.timers ≡ some r
    → due t ≤ n
    → s'.timers ≡ r
    → Inv s'
    → Round n h s s'
fire_once n h s t r s' v e q d is w = record {
  ready = record { inv = w; prompt = rw is (All-list_remove (IsPrompt n) h s.timers r q v.prompt) };
  less = rw is (omega (arith, lag_all-list_remove n h s.timers r t e q));
  stays = λ j ne some_j. rw is (ground (arith, count-list_remove j h s.timers r q));
}

pub reschedule-Round :
    (n h : ℕ) (s : Timers) (t : Timer)
    → Ready n s
    → find h s.timers ≡ some t
    → due t ≤ n
    → (s' : Timers) × (reschedule h s ≡ some s') × Round n h s s'
unfolding reschedule tmr_cancel
reschedule-Round n h s t v e d = elim (find-list_remove h s.timers) [
  | inl (p, q) ↦ absurd (ground arith)
  | inr (u, r, p, q, at) ↦
      let same : u ≡ t = ground arith in
      let at' : t.handle ≡ h = rw (← same) at in
      elim (Bool-cases t.periodic) [
        | inl per ↦ (
          record s {
            timers = list_add (record t { time = iperf_time_add_usecs t.time t.usecs }) r;
          },
          ground arith,
          fire_again n h s t r v e q at' d per,
        )
        | inr once ↦
            let (s', made, _, up) = tmr_cancel-Updates h s t v.inv e in
            (s', ground arith, fire_once n h s t r s' v e q d (ground arith) up.inv)
      ]
]

-- What `next` leads to is another active timer.
next_in-active :
    (h : ℕ) (l : List Timer) (j : ℕ)
    → next_in h l ≡ some j
    → count h l ≤ 1
    → (0 < count j l) × (j ≢ h)
unfolding next_in
next_in-active h [] j e c = absurd (ground arith)
next_in-active h (x ∷ []) j e c = absurd (ground arith)
next_in-active h (x ∷ y ∷ l) j e c = elim (Bool-cases (x.handle == h)) [
  | inl same ↦ (ground arith, λ k. ground arith)
  | inr other ↦
      let (seen, differs) = next_in-active h (y ∷ l) j (ground arith) (ground arith) in
      (omega arith, differs)
]

pub next-active :
    (h : ℕ) (s : Timers) (t : Timer) (j : ℕ)
    → Inv s
    → find h s.timers ≡ some t
    → next h s ≡ some j
    → (0 < count j s.timers) × (j ≢ h)
unfolding next
next-active h s t j v e n = next_in-active h s.timers j (ground arith) (omega (arith, v.distinct h))
