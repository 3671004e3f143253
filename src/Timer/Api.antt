-- ===== src/Timer/Api.antt =====
-- timer.c: tmr_create, tmr_reset and tmr_cancel keep the timers package well formed, and change
-- the one timer that they are asked to change.
use sber_wifi.Prelude.{
  ℕ, ◌+◌, ◌≤◌, ◌≡◌, refl, ◌∙◌, ◌≢◌, ◌↔◌, ◌⊎◌, inl, inr, Bool, Option, none, some, List, [], ◌∷◌,
  arith, ◌==◌, if◌then◌else◌, Bool-cases, Option-cases, List-cases,
}
use sber_wifi.Time.{IperfTime, IsNormal, iperf_time_add_usecs}
use sber_wifi.Time.Add.{add_usecs-IsNormal}
use sber_wifi.Timer.{
  Timer, Timers, fresh_timer, find, list_add, list_walk, list_remove, tmr_create, tmr_reset,
  tmr_cancel,
}
use sber_wifi.Timer.Insert.{
  AreNormal, IsSorted, count, list_add-IsSorted, list_add-AreNormal, count-list_add,
  list_add-list_walk,
}
use sber_wifi.Timer.Unlink.{
  All-list_remove, list_remove-IsSorted, count-list_remove, find-list_remove, find-count,
}

-- The active list is sorted, its time stamps are normal, and no node is on the lists twice.
pub record Inv (s : Timers) : Type 0 where
  pub sorted : IsSorted s.timers
  pub normal : AreNormal s.timers
  pub distinct : (h : ℕ) → count h s.timers + count h s.free_timers ≤ 1

find-list_walk :
    (j : ℕ) (t : Timer) (l : List Timer)
    → count t.handle l ≡ 0
    → find j (list_walk t l) ≡ (if t.handle == j then some t else find j l)
unfolding find list_walk
find-list_walk j t [] e = refl
find-list_walk j t (x ∷ l) e = ground (arith, find-list_walk j t l)

pub find-list_add :
    (j : ℕ) (t : Timer) (l : List Timer)
    → count t.handle l ≡ 0
    → find j (list_add t l) ≡ (if t.handle == j then some t else find j l)
find-list_add j t l e = rw (list_add-list_walk t l) (find-list_walk j t l e)

find-list_remove_ne :
    (j h : ℕ) (l r : List Timer) → list_remove h l ≡ some r → j ≢ h → find j r ≡ find j l
unfolding find list_remove
find-list_remove_ne j h [] r e ne = absurd (ground arith)
find-list_remove_ne j h (x ∷ l) r e ne = elim (Bool-cases (x.handle == h)) [
  | inl same ↦ ground arith
  | inr other ↦ elim (Option-cases (list_remove h l)) [
    | inl missing ↦ absurd (ground arith)
    | inr (q, found) ↦ ground (arith, find-list_remove_ne j h l q found ne)
  ]
]

find_of_count : (h : ℕ) (l : List Timer) → count h l ≡ 0 → find h l ≡ none
find_of_count h l e = elim (find-count h l) [
  | inl (p, q) ↦ p
  | inr (t, p, q) ↦ absurd (omega arith)
]

-- What a call leaves: the package well formed, the node with the given contents, and every other
-- active timer as it was.
pub record Updates (s s' : Timers) (h : ℕ) (contents : Option Timer) : Type 0 where
  pub inv : Inv s'
  pub here : find h s'.timers ≡ contents
  pub elsewhere : (j : ℕ) → j ≢ h → find j s'.timers ≡ find j s.timers

insert-Updates :
    (s : Timers) (t : Timer) (free : List Timer)
    → Inv s
    → IsNormal t.time
    → count t.handle s.timers ≡ 0
    → ((j : ℕ) → (if t.handle == j then 1 else 0) + count j s.timers + count j free ≤ 1)
    → Updates s (record { timers = list_add t s.timers; free_timers = free }) t.handle (some t)
insert-Updates s t free v ht absent room = record {
  inv = record {
    sorted = list_add-IsSorted t s.timers ht v.normal v.sorted;
    normal = list_add-AreNormal t s.timers ht v.normal;
    distinct = λ j. ground (arith, count-list_add j t s.timers, room j);
  };
  here = ground (arith, find-list_add t.handle t s.timers);
  elsewhere = λ j ne. ground (arith, find-list_add j t s.timers);
}

reuse-Updates :
    (now : IperfTime) (p d u : ℕ) (per : Bool) (s : Timers) (x : Timer) (rest : List Timer)
    → Inv s
    → IsNormal now
    → s.free_timers ≡ x ∷ rest
    → Updates s
        (record {
          timers = list_add (fresh_timer x.handle now p d u per) s.timers;
          free_timers = rest;
        })
        x.handle
        (some (fresh_timer x.handle now p d u per))
reuse-Updates now p d u per s x rest v n e =
    insert-Updates s (fresh_timer x.handle now p d u per) rest v (add_usecs-IsNormal now u n)
      (ground (arith, v.distinct x.handle)) (λ j. ground (arith, v.distinct j))

malloc-Updates :
    (now : IperfTime) (p d u : ℕ) (per : Bool) (s : Timers) (m : ℕ)
    → Inv s
    → IsNormal now
    → s.free_timers ≡ []
    → count m s.timers + count m s.free_timers ≡ 0
    → Updates s
        (record { timers = list_add (fresh_timer m now p d u per) s.timers; free_timers = [] })
        m
        (some (fresh_timer m now p d u per))
malloc-Updates now p d u per s m v n e fresh =
    insert-Updates s (fresh_timer m now p d u per) [] v (add_usecs-IsNormal now u n) (omega arith)
      (λ j. ground (arith, v.distinct j))

-- The two ways in which tmr_create finds a node.
create_cases :
    (memory : Option ℕ) (now : IperfTime) (p d u : ℕ) (per : Bool) (s : Timers) (h : ℕ)
    (s' : Timers)
    → tmr_create memory now p d u per s ≡ some (h, s')
    → ((x : Timer) × (rest : List Timer) × (s.free_timers ≡ x ∷ rest)
        × (h ≡ x.handle)
        × (s' ≡ record {
          timers = list_add (fresh_timer x.handle now p d u per) s.timers;
          free_timers = rest;
        }))
      ⊎ ((s.free_timers ≡ [])
          × (memory ≡ some h)
          × (s' ≡ record {
            timers = list_add (fresh_timer h now p d u per) s.timers;
            free_timers = [];
          }))
unfolding tmr_create
create_cases memory now p d u per s h s' e = elim (List-cases s.free_timers) [
  | inr (x, rest, free) ↦ inl (x, rest, free, ground arith, ground arith)
  | inl free ↦ elim (Option-cases memory) [
    | inl fails ↦ absurd (ground arith)
    | inr (m, got) ↦ inr (free, ground arith, ground arith)
  ]
]

-- In a well-formed package, at a normal time, a created timer is active with the given function,
-- data and period, due the given number of microseconds after `now`; the other active timers are
-- unchanged, and the package stays well formed. The address that malloc returns is not in use.
pub tmr_create-Updates :
    (memory : Option ℕ) (now : IperfTime) (timer_proc client_data usecs : ℕ) (periodic : Bool)
    (s : Timers)
    → Inv s
    → IsNormal now
    → ((m : ℕ) → memory ≡ some m → count m s.timers + count m s.free_timers ≡ 0)
    → (h : ℕ) (s' : Timers)
    → tmr_create memory now timer_proc client_data usecs periodic s ≡ some (h, s')
    → Updates s s' h (some (fresh_timer h now timer_proc client_data usecs periodic))
tmr_create-Updates memory now p d u per s v n fresh h s' e =
    elim (create_cases memory now p d u per s h s' e) [
      | inl (x, rest, free, at, becomes) ↦
          rw (at, becomes) (reuse-Updates now p d u per s x rest v n free)
      | inr (free, got, becomes) ↦
          rw becomes (malloc-Updates now p d u per s h v n free (fresh h got))
    ]

-- The node of a created timer was not an active one.
pub tmr_create-new :
    (memory : Option ℕ) (now : IperfTime) (timer_proc client_data usecs : ℕ) (periodic : Bool)
    (s : Timers)
    → Inv s
    → ((m : ℕ) → memory ≡ some m → count m s.timers + count m s.free_timers ≡ 0)
    → (h : ℕ) (s' : Timers)
    → tmr_create memory now timer_proc client_data usecs periodic s ≡ some (h, s')
    → find h s.timers ≡ none
tmr_create-new memory now p d u per s v fresh h s' e =
    elim (create_cases memory now p d u per s h s' e) [
      | inl (x, rest, free, at, becomes) ↦ find_of_count h s.timers (ground (arith, v.distinct h))
      | inr (free, got, becomes) ↦ find_of_count h s.timers (ground (arith, fresh h got))
    ]

-- tmr_create fails only where no free node is left and malloc fails.
pub tmr_create-none :
    (memory : Option ℕ) (now : IperfTime) (timer_proc client_data usecs : ℕ) (periodic : Bool)
    (s : Timers)
    → (tmr_create memory now timer_proc client_data usecs periodic s ≡ none)
      ↔ ((s.free_timers ≡ []) × (memory ≡ none))
unfolding tmr_create
tmr_create-none memory now p d u per s = ground arith

-- list_resort, on an active timer with a new normal time stamp.
pub moved-Updates :
    (s : Timers) (h : ℕ) (r : List Timer) (t : Timer)
    → Inv s
    → list_remove h s.timers ≡ some r
    → t.handle ≡ h
    → IsNormal t.time
    → Updates s (record s { timers = list_add t r }) h (some t)
moved-Updates s h r t v q at ht =
    let gone : count h r ≡ 0 = ground (arith, count-list_remove h h s.timers r q, v.distinct h) in
    let smaller : Timers = record s { timers = r } in
    let w : Inv smaller = record {
      sorted = list_remove-IsSorted h s.timers r q v.sorted;
      normal = All-list_remove _ h s.timers r q v.normal;
      distinct = λ j. ground (arith, count-list_remove j h s.timers r q, v.distinct j);
    } in
    let added =
      insert-Updates smaller t s.free_timers w ht (rw at gone)
        (λ j. ground (arith, count-list_remove j h s.timers r q, v.distinct j)) in
    record {
      inv = added.inv;
      here = ground (arith, added.here);
      elsewhere = λ j ne.
          added.elsewhere j (λ same. ne (same ∙ at)) ∙ find-list_remove_ne j h s.timers r q ne;
    }

-- Resetting an active timer makes it due its own interval after `now`, and changes no other.
pub tmr_reset-Updates :
    (now : IperfTime) (h : ℕ) (s : Timers) (t : Timer)
    → Inv s
    → IsNormal now
    → find h s.timers ≡ some t
    → (s' : Timers) × (tmr_reset now h s ≡ some s')
      × Updates s s' h (some (record t { time = iperf_time_add_usecs now t.usecs }))
unfolding tmr_reset
tmr_reset-Updates now h s t v n e = elim (find-list_remove h s.timers) [
  | inl (p, q) ↦ absurd (ground arith)
  | inr (u, r, p, q, same) ↦
      let t' = record t { time = iperf_time_add_usecs now t.usecs } in
      let at : t.handle ≡ h = ground arith in
      let added = moved-Updates s h r t' v q at (add_usecs-IsNormal now t.usecs n) in
      (record s { timers = list_add t' r }, ground arith, added)
]

-- Cancelling an active timer moves its node to the head of the free list, and changes no other.
pub tmr_cancel-Updates :
    (h : ℕ) (s : Timers) (t : Timer)
    → Inv s
    → find h s.timers ≡ some t
    → (s' : Timers) × (tmr_cancel h s ≡ some s')
      × (s'.free_timers ≡ t ∷ s.free_timers)
      × Updates s s' h none
unfolding tmr_cancel
tmr_cancel-Updates h s t v e = elim (find-list_remove h s.timers) [
  | inl (p, q) ↦ absurd (ground arith)
  | inr (u, r, p, q, same) ↦ (
    record { timers = r; free_timers = t ∷ s.free_timers },
    ground arith,
    refl,
    record {
      inv = record {
        sorted = list_remove-IsSorted h s.timers r q v.sorted;
        normal = All-list_remove _ h s.timers r q v.normal;
        distinct = λ j. ground (arith, count-list_remove j h s.timers r q, v.distinct j);
      };
      here = find_of_count h r (ground (arith, count-list_remove h h s.timers r q, v.distinct h));
      elsewhere = λ j ne. find-list_remove_ne j h s.timers r q ne;
    },
  )
]
