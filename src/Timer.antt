-- ===== src/Timer.antt =====
-- app/src/main/cpp/iperf/timer.h and timer.c: the timers package.
-- The two linked lists are lists of timers in list order. A `Timer *` is the field `handle`, the
-- address of the node; `next` of a node is what follows it in its list. Unlinking a node that is
-- not on the active list would splice the free list into the active one: it is the fault `none`.
pub mod Insert
pub mod Unlink
pub mod Api
pub mod Timeout
pub mod Due
pub mod Run
pub mod Ends
pub mod Endless
pub mod Examples
use sber_wifi.Prelude.{
  ℕ, ◌/◌, ◌%◌, Bool, Option, none, some, List, [], ◌∷◌, map, ◌==◌, if◌then◌else◌,
}
use sber_wifi.Prelude.Int.{is_neg}
use sber_wifi.Time.{
  IperfTime, iperf_time_add_usecs, iperf_time_compare, iperf_time_diff, iperf_time_in_usecs,
}

-- `proc` and `client_data` say which function is called and on what. `usecs` is the int64_t of the
-- source as the uint64_t that it is converted to where it is added.
pub record Timer : Type 0 where
  pub handle : ℕ
  pub proc : ℕ
  pub client_data : ℕ
  pub usecs : ℕ
  pub periodic : Bool
  pub time : IperfTime

-- The two static variables of timer.c.
pub record Timers : Type 0 where
  pub timers : List Timer
  pub free_timers : List Timer

abbrev earlier : Timer → Timer → Bool
earlier t t2 = is_neg (iperf_time_compare t.time t2.time)

-- The `for` loop of list_add, over the timers behind the head.
unfoldable pub list_walk : Timer → List Timer → List Timer
list_walk t [] = t ∷ []
list_walk t (t2 ∷ rest) = if earlier t t2 then t ∷ t2 ∷ rest else t2 ∷ list_walk t rest

unfoldable pub list_add : Timer → List Timer → List Timer
unfolding list_walk
list_add t [] = t ∷ []
list_add t (head ∷ rest) = if earlier t head then t ∷ head ∷ rest else head ∷ list_walk t rest

unfoldable pub find : ℕ → List Timer → Option Timer
find h [] = none
find h (t ∷ rest) = if t.handle == h then some t else find h rest

abbrev cons_to : Timer → Option (List Timer) → Option (List Timer)
cons_to t none = none
cons_to t (some l) = some (t ∷ l)

unfoldable pub list_remove : ℕ → List Timer → Option (List Timer)
list_remove h [] = none
list_remove h (t ∷ rest) = if t.handle == h then some rest else cons_to t (list_remove h rest)

abbrev add_to : Timer → Option (List Timer) → Option (List Timer)
add_to t none = none
add_to t (some l) = some (list_add t l)

unfoldable pub list_resort : Timer → List Timer → Option (List Timer)
unfolding list_add list_remove
list_resort t l = add_to t (list_remove t.handle l)

-- `now` is what getnow leaves in its second argument; `memory` is what malloc returns.
abbrev pub fresh_timer : ℕ → IperfTime → ℕ → ℕ → ℕ → Bool → Timer
fresh_timer h now timer_proc client_data usecs periodic = record {
  handle = h;
  proc = timer_proc;
  client_data = client_data;
  usecs = usecs;
  periodic = periodic;
  time = iperf_time_add_usecs now usecs;
}

unfoldable pub tmr_create : Option ℕ → IperfTime → ℕ → ℕ → ℕ → Bool → Timers → Option (ℕ × Timers)
unfolding list_add
tmr_create memory now timer_proc client_data usecs periodic s = elim s.free_timers [
  | t ∷ rest ↦ some (
    t.handle,
    record {
      timers = list_add (fresh_timer t.handle now timer_proc client_data usecs periodic) s.timers;
      free_timers = rest;
    },
  )
  | [] ↦ elim memory [
    | none ↦ none
    | some h ↦ some (
      h,
      record {
        timers = list_add (fresh_timer h now timer_proc client_data usecs periodic) s.timers;
        free_timers = [];
      },
    )
  ]
]

-- The microseconds until a timer is due, 0 if that is past.
unfoldable pub wait_usecs : IperfTime → Timer → ℕ
wait_usecs now t =
    let (past, diff) = iperf_time_diff t.time now in if past then 0 else iperf_time_in_usecs diff

-- tv_sec and tv_usec of the returned struct timeval; `none` for a NULL pointer.
unfoldable pub tmr_timeout : IperfTime → Timers → Option (ℕ × ℕ)
tmr_timeout now s = elim s.timers [
  | [] ↦ none
  | t ∷ rest ↦ let usecs = wait_usecs now t in some (usecs / 1000000, usecs % 1000000)
]

unfoldable pub tmr_reset : IperfTime → ℕ → Timers → Option Timers
unfolding find list_resort
tmr_reset now h s = elim (find h s.timers) [
  | none ↦ none
  | some t ↦ elim (list_resort (record t { time = iperf_time_add_usecs now t.usecs }) s.timers) [
    | none ↦ none
    | some l ↦ some (record s { timers = l })
  ]
]

unfoldable pub tmr_cancel : ℕ → Timers → Option Timers
unfolding find list_remove
tmr_cancel h s = elim (find h s.timers) [
  | none ↦ none
  | some t ↦ elim (list_remove h s.timers) [
    | none ↦ none
    | some l ↦ some (record { timers = l; free_timers = t ∷ s.free_timers })
  ]
]

-- The handles of the freed nodes, in the order of the calls of free(), and the list left.
unfoldable pub tmr_cleanup : Timers → List ℕ × Timers
tmr_cleanup s = (map (λ t. t.handle) s.free_timers, record s { free_timers = [] })

-- The loop of tmr_destroy, over the active list: it cancels the head until there is none.
unfoldable pub cancel_all : List Timer → List Timer → Timers
cancel_all [] free = record { timers = []; free_timers = free }
cancel_all (t ∷ rest) free = cancel_all rest (t ∷ free)

unfoldable pub tmr_destroy : Timers → List ℕ × Timers
unfolding cancel_all tmr_cleanup
tmr_destroy s = tmr_cleanup (cancel_all s.timers s.free_timers)

-- `t->next`, read in whichever list the node is on.
unfoldable pub next_in : ℕ → List Timer → Option ℕ
next_in h [] = none
next_in h (t ∷ []) = none
next_in h (t ∷ u ∷ rest) = if t.handle == h then some u.handle else next_in h (u ∷ rest)

abbrev or_else {ℓ} : {A : Type ℓ} → Option A → Option A → Option A
or_else none b = b
or_else (some a) b = some a

-- The node behind a pointer, on either list.
unfoldable pub node : ℕ → Timers → Option Timer
unfolding find
node h s = or_else (find h s.timers) (find h s.free_timers)

unfoldable pub next : ℕ → Timers → Option ℕ
unfolding next_in
next h s = elim (find h s.timers) [ some t ↦ next_in h s.timers | none ↦ next_in h s.free_timers ]
