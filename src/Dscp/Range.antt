-- ===== src/Dscp/Range.antt =====
-- dscp.c: parse_qos answers a type-of-service byte or -1, and reads what iptos2str writes.
use Prim.Native.String.{String}
use sber_wifi.Prelude.{
  ℕ, zero, suc, ◌≤◌, ◌≡◌, refl, ◌⊎◌, inl, inr, Bool, true, false, ◌&&◌, Option, none, some, List,
  [], ◌∷◌, arith, ltb, leb, if◌then◌else◌, Bool-cases, Option-cases,
}
use sber_wifi.Prelude.Int.{ℤ, pos, negsuc, eq_ℤ}
use sber_wifi.Libc.{Text, strtol, same_ignoring_case}
use sber_wifi.Dscp.{parse_qos, find_name, parse_number, checked_tos, ipqos, iptos2str, codes}

abbrev IsByte : ℤ → Type 0
IsByte r = (r ≡ negsuc 0) ⊎ ((v : ℕ) × (r ≡ pos v) × (v ≤ 255))

abbrev AreBytes : List (String × ℕ) → Type 0
AreBytes [] = Unit {0}
AreBytes ((name, value) ∷ table) = (value ≤ 255) × AreBytes table

find_name-le :
    (cp : Text) (table : List (String × ℕ)) (v : ℕ)
    → AreBytes table
    → find_name cp table ≡ some v
    → v ≤ 255
unfolding find_name
find_name-le cp [] v h e = absurd (ground arith)
find_name-le cp ((name, value) ∷ table) v h e =
    elim (Bool-cases (same_ignoring_case cp (codes name))) [
      | inl same ↦ let is : value ≡ v = ground arith in omega (arith, h.0)
      | inr other ↦ find_name-le cp table v h.1 (ground arith)
    ]

checked_tos-IsByte : (bad : Bool) (v : ℤ) → IsByte (checked_tos bad v)
unfolding checked_tos
checked_tos-IsByte true v = inl refl
checked_tos-IsByte false (negsuc n) = inl refl
checked_tos-IsByte false (pos n) = elim (Bool-cases (ltb 255 n)) [
  | inl large ↦ inl (ground arith)
  | inr small ↦ inr (n, ground arith, ground arith)
]

parse_number-IsByte : (cp : Text) → IsByte (parse_number cp)
unfolding parse_number
parse_number-IsByte cp = checked_tos-IsByte _ (strtol cp 0).value

-- The answer of parse_qos, for any text, is -1 or a number from 0 to 255.
pub parse_qos_range :
    (cp : Option Text) → (parse_qos cp ≡ negsuc 0) ⊎ ((v : ℕ) × (parse_qos cp ≡ pos v) × (v ≤ 255))
unfolding parse_qos
parse_qos_range none = inl refl
parse_qos_range (some cp) = elim (Option-cases (find_name cp ipqos)) [
  | inl unknown ↦ rw (unknown, parse_qos) (parse_number-IsByte cp)
  | inr (v, named) ↦
      inr (v, rw (named, parse_qos) refl, find_name-le cp ipqos v (omega arith) named)
]

all_upto : ℕ → (ℕ → Bool) → Bool
all_upto zero p = p 0
all_upto (suc n) p = p (suc n) && all_upto n p

all_upto_sound : (n : ℕ) (p : ℕ → Bool) (x : ℕ) → all_upto n p ≡ true → x ≤ n → p x ≡ true
unfolding all_upto
all_upto_sound zero p x h le = let is : x ≡ 0 = omega arith in rw is h
all_upto_sound (suc n) p x h le = ground (arith, all_upto_sound n p x)

abbrev kept : ℕ → ℕ
kept v = if leb v 64 then v else 0

abbrev reads_back : ℕ → Bool
reads_back v = eq_ℤ (parse_qos (some (iptos2str (pos v)))) (pos (kept v))

table : all_upto 255 reads_back ≡ true
unfolding all_upto parse_qos iptos2str find_name parse_number strtol same_ignoring_case
table = refl

eq_ℤ→eq : (a b : ℤ) → eq_ℤ a b ≡ true → a ≡ b
eq_ℤ→eq a b h = ground arith

-- For every type-of-service byte, parse_qos reads the text that iptos2str writes: as the byte
-- itself up to 64, and as 0 above, since iptos2str writes every larger byte as it writes 0.
pub parse_qos-iptos2str :
    (v : ℕ) → v ≤ 255 → parse_qos (some (iptos2str (pos v))) ≡ pos (if leb v 64 then v else 0)
parse_qos-iptos2str v h = eq_ℤ→eq _ _ (all_upto_sound 255 reads_back v table h)
