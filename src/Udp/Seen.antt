-- ===== src/Udp/Seen.antt =====
-- Sequence numbers seen by a receiver: a list with no repetition, all from 1 to some bound, is
-- no longer than the bound.
use sber_wifi.Prelude.{
  ℕ, zero, suc, ◌+◌, ◌≤◌, ◌<◌, ◌≡◌, refl, sym, ap, inl, inr, ◌&&◌, List, [], ◌∷◌, arith, leb, ◌==◌,
  if◌then◌else◌, Bool-cases, length,
}

abbrev pub count : ℕ → List ℕ → ℕ
count x [] = 0
count x (y ∷ l) = (if y == x then 1 else 0) + count x l

-- Every entry is from 1 to `n`.
abbrev pub Within : ℕ → List ℕ → Type 0
Within n [] = Unit {0}
Within n (y ∷ l) = (1 ≤ y) × (y ≤ n) × Within n l

-- How many entries are from 1 to `n`.
abbrev tally : ℕ → List ℕ → ℕ
tally zero l = 0
tally (suc n) l = count (suc n) l + tally n l

tally-nil : (n : ℕ) → tally n [] ≡ 0
tally-nil zero = refl
tally-nil (suc n) = omega (arith, tally-nil n)

tally-cons :
    (n y : ℕ) (l : List ℕ) → tally n (y ∷ l) ≡ (if leb 1 y && leb y n then 1 else 0) + tally n l
tally-cons zero y l = ground arith
tally-cons (suc n) y l = ground (arith, tally-cons n y l)

length-tally : (n : ℕ) (l : List ℕ) → Within n l → length l ≡ tally n l
length-tally n [] w = sym (tally-nil n)
length-tally n (y ∷ l) w = ground (arith, tally-cons n y l, length-tally n l w.2)

tally-le : (n : ℕ) (l : List ℕ) → ((x : ℕ) → count x l ≤ 1) → tally n l ≤ n
tally-le zero l once = omega arith
tally-le (suc n) l once = omega (arith, once (suc n), tally-le n l once)

tally-lt :
    (n : ℕ) (l : List ℕ) (p : ℕ)
    → ((x : ℕ) → count x l ≤ 1)
    → 1 ≤ p
    → p ≤ n
    → count p l ≡ 0
    → tally n l < n
tally-lt zero l p once lo hi absent = absurd (omega arith)
tally-lt (suc n) l p once lo hi absent = elim (Bool-cases (p == suc n)) [
  | inl last ↦
      let at : p ≡ suc n = ground arith in omega (arith, ap (λ k. count k l) at, tally-le n l once)
  | inr before ↦ omega (arith, once (suc n), tally-lt n l p once lo (ground arith) absent)
]

-- A list with no repetition that lacks a number of its range is shorter than the range.
pub length-lt :
    (n : ℕ) (l : List ℕ) (p : ℕ)
    → Within n l
    → ((x : ℕ) → count x l ≤ 1)
    → 1 ≤ p
    → p ≤ n
    → count p l ≡ 0
    → length l < n
length-lt n l p w once lo hi absent =
    omega (arith, length-tally n l w, tally-lt n l p once lo hi absent)

pub Within-weaken : (m n : ℕ) (l : List ℕ) → m ≤ n → Within m l → Within n l
Within-weaken m n [] h w = tt
Within-weaken m n (y ∷ l) h w = (w.0, omega arith, Within-weaken m n l h w.2)

-- An entry above the range is not in the list.
pub count-above : (m p : ℕ) (l : List ℕ) → Within m l → m < p → count p l ≡ 0
count-above m p [] w h = refl
count-above m p (y ∷ l) w h = ground (arith, count-above m p l w.2 h)
