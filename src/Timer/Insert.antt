-- ===== src/Timer/Insert.antt =====
-- timer.c: list_add inserts behind every timer that is due no later, so the list stays sorted.
use sber_wifi.Prelude.{
  ℕ, ◌+◌, ◌≤◌, ◌<◌, ◌≡◌, refl, sym, ap, ◌∙◌, inl, inr, false, List, [], ◌∷◌, ◌++◌, arith, ltb, ◌==◌,
  if◌then◌else◌, ltb→lt, Bool-cases,
}
use sber_wifi.Time.{IsNormal, iperf_time_compare, iperf_time_in_usecs}
use sber_wifi.Timer.{Timer, earlier, list_walk, list_add}

-- When a timer is due, in microseconds.
abbrev pub due : Timer → ℕ
due t = iperf_time_in_usecs t.time

abbrev pub All {ℓ} : (Timer → Type ℓ) → List Timer → Type ℓ
All P [] = Unit
All P (t ∷ l) = P t × All P l

abbrev pub AreNormal : List Timer → Type 0
AreNormal = All (λ t. IsNormal t.time)

abbrev pub IsSorted : List Timer → Type 0
IsSorted [] = Unit {0}
IsSorted (t ∷ l) = All (λ u. due t ≤ due u) l × IsSorted l

-- How many timers of the list stand at the address.
abbrev pub count : ℕ → List Timer → ℕ
count h [] = 0
count h (t ∷ l) = (if t.handle == h then 1 else 0) + count h l

pub earlier-ltb :
    (t u : Timer) → IsNormal t.time → IsNormal u.time → earlier t u ≡ ltb (due t) (due u)
unfolding iperf_time_compare iperf_time_in_usecs
earlier-ltb t u ht hu = ground arith

pub All-weaken :
    (m n : ℕ) (l : List Timer) → m ≤ n → All (λ u. n ≤ due u) l → All (λ u. m ≤ due u) l
All-weaken m n [] h a = tt
All-weaken m n (x ∷ l) h a = (omega arith, All-weaken m n l h a.1)

-- Both loops of list_add do the same.
pub list_add-list_walk : (t : Timer) (l : List Timer) → list_add t l ≡ list_walk t l
unfolding list_add
list_add-list_walk t [] = refl
list_add-list_walk t (x ∷ l) = refl

All-list_walk :
    (P : Timer → Type 0) (t : Timer) (l : List Timer) → P t → All P l → All P (list_walk t l)
unfolding list_walk
All-list_walk P t [] h a = (h, tt)
All-list_walk P t (x ∷ l) h a = elim (Bool-cases (earlier t x)) [
  | inl e ↦ rw e (h, a)
  | inr e ↦ rw e (a.0, All-list_walk P t l h a.1)
]

list_walk-IsSorted :
    (t : Timer) (l : List Timer)
    → IsNormal t.time
    → AreNormal l
    → IsSorted l
    → IsSorted (list_walk t l)
unfolding list_walk
list_walk-IsSorted t [] ht hl s = (tt, tt)
list_walk-IsSorted t (x ∷ l) ht hl s = elim (Bool-cases (earlier t x)) [
  | inl e ↦
      let first : due t < due x = ltb→lt _ _ (sym (earlier-ltb t x ht hl.0) ∙ e) in
      rw e ((omega arith, All-weaken (due t) (due x) l (omega arith) s.0), s)
  | inr e ↦
      let later : ltb (due t) (due x) ≡ false = sym (earlier-ltb t x ht hl.0) ∙ e in
      rw e (
        All-list_walk (λ u. due x ≤ due u) t l (ground arith) s.0,
        list_walk-IsSorted t l ht hl.1 s.1,
      )
]

pub list_add-IsSorted :
    (t : Timer) (l : List Timer)
    → IsNormal t.time
    → AreNormal l
    → IsSorted l
    → IsSorted (list_add t l)
list_add-IsSorted t l ht hl s = rw (list_add-list_walk t l) (list_walk-IsSorted t l ht hl s)

pub All-list_add :
    (P : Timer → Type 0) (t : Timer) (l : List Timer) → P t → All P l → All P (list_add t l)
All-list_add P t l h a = rw (list_add-list_walk t l) (All-list_walk P t l h a)

pub list_add-AreNormal :
    (t : Timer) (l : List Timer) → IsNormal t.time → AreNormal l → AreNormal (list_add t l)
list_add-AreNormal t l ht hl =
    rw (list_add-list_walk t l) (All-list_walk (λ u. IsNormal u.time) t l ht hl)

count-list_walk : (h : ℕ) (t : Timer) (l : List Timer) → count h (list_walk t l) ≡ count h (t ∷ l)
unfolding list_walk
count-list_walk h t [] = refl
count-list_walk h t (x ∷ l) = ground (arith, count-list_walk h t l)

pub count-list_add : (h : ℕ) (t : Timer) (l : List Timer) → count h (list_add t l) ≡ count h (t ∷ l)
count-list_add h t l = rw (list_add-list_walk t l) (count-list_walk h t l)

-- Where the new timer goes.
pub record Placed (t : Timer) (l r : List Timer) : Type 0 where
  pub before : List Timer
  pub after : List Timer
  pub was : l ≡ before ++ after
  pub becomes : r ≡ before ++ t ∷ after
  pub not_later : All (λ u. due u ≤ due t) before
  pub later : All (λ u. due t < due u) after

All-later :
    (t x : Timer) (l : List Timer)
    → due t < due x
    → All (λ u. due x ≤ due u) l
    → All (λ u. due t < due u) l
All-later t x [] h a = tt
All-later t x (y ∷ l) h a = (omega arith, All-later t x l h a.1)

list_walk-Placed :
    (t : Timer) (l : List Timer)
    → IsNormal t.time
    → AreNormal l
    → IsSorted l
    → Placed t l (list_walk t l)
unfolding list_walk
list_walk-Placed t [] ht hl s = record {
  before = [];
  after = [];
  was = refl;
  becomes = refl;
  not_later = tt;
  later = tt;
}
list_walk-Placed t (x ∷ l) ht hl s = elim (Bool-cases (earlier t x)) [
  | inl e ↦
      let first : due t < due x = ltb→lt _ _ (sym (earlier-ltb t x ht hl.0) ∙ e) in
      record {
        before = [];
        after = x ∷ l;
        was = refl;
        becomes = rw e refl;
        not_later = tt;
        later = (first, All-later t x l first s.0);
      }
  | inr e ↦
      let rest = list_walk-Placed t l ht hl.1 s.1 in
      let later : ltb (due t) (due x) ≡ false = sym (earlier-ltb t x ht hl.0) ∙ e in
      record {
        before = x ∷ rest.before;
        after = rest.after;
        was = ap (◌∷◌ x) rest.was;
        becomes = rw e (ap (◌∷◌ x) rest.becomes);
        not_later = (ground arith, rest.not_later);
        later = rest.later;
      }
]

-- Into a sorted list of normal time stamps list_add puts the timer between those that are due no
-- later and those that are due later, which all stay in their order.
pub list_add-Placed :
    (t : Timer) (l : List Timer)
    → IsNormal t.time
    → AreNormal l
    → IsSorted l
    → Placed t l (list_add t l)
list_add-Placed t l ht hl s = rw (list_add-list_walk t l) (list_walk-Placed t l ht hl s)
