-- ===== src/Timer/Unlink.antt =====
-- timer.c: list_remove takes one node off a list and keeps the order of the rest.
use mathlib.Core.Path.{subst}
use sber_wifi.Prelude.{
  ℕ, ◌+◌, ◌≤◌, ◌<◌, ◌≡◌, refl, sym, ◌≢◌, ◌⊎◌, inl, inr, none, some, List, [], ◌∷◌, arith, ◌==◌,
  if◌then◌else◌, Bool-cases, Option-cases,
}
use sber_wifi.Timer.{Timer, list_remove, find}
use sber_wifi.Timer.Insert.{All, IsSorted, count, due}

-- The node is the head, or it is taken off the rest.
Unlinked : ℕ → Timer → List Timer → List Timer → Type 0
Unlinked h x l r =
    ((x.handle ≡ h) × (r ≡ l))
    ⊎ ((x.handle ≢ h) × ((q : List Timer) × (list_remove h l ≡ some q) × (r ≡ x ∷ q)))

list_remove-cons :
    (h : ℕ) (x : Timer) (l r : List Timer) → list_remove h (x ∷ l) ≡ some r → Unlinked h x l r
unfolding list_remove Unlinked
list_remove-cons h x l r e = elim (Bool-cases (x.handle == h)) [
  | inl same ↦ inl (ground arith, ground arith)
  | inr other ↦ elim (Option-cases (list_remove h l)) [
    | inl missing ↦ absurd (ground arith)
    | inr (q, found) ↦ inr (ground arith, (q, found, ground arith))
  ]
]

pub All-list_remove :
    (P : Timer → Type 0) (h : ℕ) (l r : List Timer) → list_remove h l ≡ some r → All P l → All P r
unfolding list_remove Unlinked
All-list_remove P h [] r e a = absurd (ground arith)
All-list_remove P h (x ∷ l) r e a = elim (list_remove-cons h x l r e) [
  | inl (_, same) ↦ subst (All P) (sym same) a.1
  | inr (_, (q, found, cons)) ↦ subst (All P) (sym cons) (a.0, All-list_remove P h l q found a.1)
]

pub list_remove-IsSorted :
    (h : ℕ) (l r : List Timer) → list_remove h l ≡ some r → IsSorted l → IsSorted r
unfolding list_remove Unlinked
list_remove-IsSorted h [] r e s = absurd (ground arith)
list_remove-IsSorted h (x ∷ l) r e s = elim (list_remove-cons h x l r e) [
  | inl (_, same) ↦ subst IsSorted (sym same) s.1
  | inr (_, (q, found, cons)) ↦
      subst IsSorted (sym cons)
        (All-list_remove (λ u. due x ≤ due u) h l q found s.0, list_remove-IsSorted h l q found s.1)
]

pub count-list_remove :
    (j h : ℕ) (l r : List Timer)
    → list_remove h l ≡ some r
    → count j l ≡ (if h == j then 1 else 0) + count j r
unfolding list_remove Unlinked
count-list_remove j h [] r e = absurd (ground arith)
count-list_remove j h (x ∷ l) r e = elim (list_remove-cons h x l r e) [
  | inl (same, rest) ↦ ground arith
  | inr (_, (q, found, cons)) ↦ ground (arith, count-list_remove j h l q found)
]

-- The node is found exactly when it can be taken off, and it is the node asked for.
pub find-list_remove :
    (h : ℕ) (l : List Timer)
    → ((find h l ≡ none) × (list_remove h l ≡ none))
      ⊎ ((t : Timer) × (r : List Timer) × (find h l ≡ some t)
          × (list_remove h l ≡ some r)
          × (t.handle ≡ h))
unfolding find list_remove
find-list_remove h [] = inl (refl, refl)
find-list_remove h (x ∷ l) = elim (Bool-cases (x.handle == h)) [
  | inl same ↦ inr (x, l, rw same refl, rw same refl, ground arith)
  | inr other ↦ elim (find-list_remove h l) [
    | inl (p, q) ↦ inl (rw other p, rw (other, q) refl)
    | inr (t, r, p, q, e) ↦ inr (t, x ∷ r, rw other p, rw (other, q) refl, e)
  ]
]

pub All-find :
    (P : Timer → Type 0) (h : ℕ) (l : List Timer) (t : Timer) → find h l ≡ some t → All P l → P t
unfolding find
All-find P h [] t e a = absurd (ground arith)
All-find P h (x ∷ l) t e a = elim (Bool-cases (x.handle == h)) [
  | inl same ↦ subst P (ground arith) a.0
  | inr other ↦ All-find P h l t (ground arith) a.1
]

-- A node is found exactly when one stands at the address.
pub find-count :
    (h : ℕ) (l : List Timer)
    → ((find h l ≡ none) × (count h l ≡ 0)) ⊎ ((t : Timer) × (find h l ≡ some t) × (0 < count h l))
unfolding find
find-count h [] = inl (refl, refl)
find-count h (x ∷ l) = elim (Bool-cases (x.handle == h)) [
  | inl same ↦ inr (x, rw same refl, ground arith)
  | inr other ↦ elim (find-count h l) [
    | inl (p, q) ↦ inl (rw other p, ground arith)
    | inr (t, p, q) ↦ inr (t, rw other p, ground arith)
  ]
]
