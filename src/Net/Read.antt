-- ===== src/Net/Read.antt =====
-- net.c: Nread reports what it stored, and reads all that a reliable socket delivers.
use sber_wifi.Prelude.{
  ℕ, ◌^◌, zero, suc, ◌+◌, ◌-◌, ◌≤◌, ◌<◌, ◌≡◌, refl, sym, ap, ◌∙◌, ◌⊎◌, inl, inr, some, List, [],
  ◌∷◌, ◌++◌, arith, ◌==◌, Bool-cases, length, length-append, take, drop, take-append, drop-append,
}
use sber_wifi.Prelude.Int.{ℤ, pos}
use sber_wifi.Libc.{int_of_pattern}
use sber_wifi.Net.{
  ReadResult, got, read_error, Errno, net_harderror, nread_loop, nread, breaks_read,
}

-- The three ways in which read(2) returns.
abbrev ReadCases : ReadResult → Type 0
ReadCases r =
    (r ≡ got [])
    ⊎ ((b : ℕ) × (bs : List ℕ) × (r ≡ got (b ∷ bs)))
    ⊎ ((e : Errno) × (r ≡ read_error e))

pub read_cases : (r : ReadResult) → ReadCases r
read_cases (got []) = inl refl
read_cases (got (b ∷ bs)) = inr (inl (b, bs, refl))
read_cases (read_error e) = inr (inr (e, refl))

-- The conversion of a size_t to an int keeps what an int holds.
pub int_of_pattern_small : (n : ℕ) → n < 2 ^ 31 → int_of_pattern n ≡ pos n
unfolding int_of_pattern
int_of_pattern_small n h = ground arith

module _ {S : Type 0} (read : S → ℕ → ReadResult × S) where
  -- read(2) stores at most the number of bytes asked for.
  abbrev pub ReadsWithin : Type 0
  ReadsWithin = (s : S) (n : ℕ) (bs : List ℕ) → (read s n).0 ≡ got bs → length bs ≤ n

  -- The number returned is the number of bytes stored, or the read failed hard; either way no
  -- more than `nleft` bytes were stored.
  abbrev pub Reports : ℕ → ℕ → ℤ × List ℕ × S → Type 0
  Reports count nleft r =
      ((r.0 ≡ pos (count - nleft + length r.1)) ⊎ (r.0 ≡ net_harderror)) × (length r.1 ≤ nleft)

  nread_loop-Reports :
      (fuel count nleft : ℕ) (s : S)
      → ReadsWithin
      → nleft ≤ count
      → count < 2 ^ 31
      → nleft < fuel
      → (r : ℤ × List ℕ × S) × (nread_loop read fuel count nleft s ≡ some r) × Reports count nleft r
  unfolding nread_loop
  nread_loop-Reports zero count nleft s within le small enough = absurd (omega arith)
  nread_loop-Reports (suc fuel) count nleft s within le small enough =
      let number = int_of_pattern_small (count - nleft) (omega arith) in
      elim (Bool-cases (nleft == 0)) [
        | inl none_left ↦
            ((int_of_pattern (count - nleft), [], s), ground arith, (ground arith, omega arith))
        | inr some_left ↦ elim (read_cases (read s nleft).0) [
          | inl end ↦ (
            (int_of_pattern (count - nleft), [], (read s nleft).1),
            ground arith,
            (ground arith, omega arith),
          )
          | inr (inr (e, failed)) ↦ elim (Bool-cases (breaks_read e)) [
            | inl breaks ↦ (
              (int_of_pattern (count - nleft), [], (read s nleft).1),
              ground arith,
              (ground arith, omega arith),
            )
            | inr hard ↦
                ((net_harderror, [], (read s nleft).1), ground arith, (inr refl, omega arith))
          ]
          | inr (inl (b, bs, stored)) ↦
              let bound : length (b ∷ bs) ≤ nleft = within s nleft (b ∷ bs) stored in
              let (r, e, (reported, rest)) =
                nread_loop-Reports fuel count (nleft - length (b ∷ bs)) (read s nleft).1 within
                  (omega arith) small (omega arith) in
              (
                (r.0, (b ∷ bs) ++ r.1, r.2),
                ground arith,
                (
                  ground (arith, length-append (b ∷ bs) r.1),
                  omega (arith, length-append (b ∷ bs) r.1),
                ),
              )
        ]
      ]

  -- Where read(2) keeps to its bound and `count` is an int, Nread ends, a round for each byte and one more are enough,
  -- it never stores more than `count` bytes, and unless it fails hard it returns their number.
  pub nread-Reports :
      (fuel count : ℕ) (s : S)
      → ReadsWithin
      → count < 2 ^ 31
      → count < fuel
      → (r : ℤ × List ℕ × S) × (nread read fuel count s ≡ some r)
        × ((r.0 ≡ pos (length r.1)) ⊎ (r.0 ≡ net_harderror))
        × (length r.1 ≤ count)
  unfolding nread
  nread-Reports fuel count s within small enough =
      let (r, e, (number, bound)) =
        nread_loop-Reports fuel count count s within (omega arith) small enough in
      (r, e, ground arith, bound)

  -- A socket with bytes to come: read(2) stores at least one of them, at most as many as asked
  -- for, from the front.
  abbrev pub Delivers : (S → List ℕ) → Type 0
  Delivers pending =
      (s : S) (n : ℕ)
      → 0 < n
      → 0 < length (pending s)
      → (b : ℕ) × (bs : List ℕ) × (s' : S) × (read s n ≡ (got (b ∷ bs), s'))
        × (length (b ∷ bs) ≤ n)
        × (pending s ≡ (b ∷ bs) ++ pending s')

  nread_loop_exact :
      (pending : S → List ℕ) (fuel count nleft : ℕ) (s : S)
      → Delivers pending
      → nleft ≤ count
      → count < 2 ^ 31
      → nleft ≤ length (pending s)
      → nleft < fuel
      → (s' : S) × (nread_loop read fuel count nleft s
          ≡ some (pos count, take nleft (pending s), s'))
        × (pending s' ≡ drop nleft (pending s))
  unfolding nread_loop
  nread_loop_exact pending zero count nleft s delivers le small there enough = absurd (omega arith)
  nread_loop_exact pending (suc fuel) count zero s delivers le small there enough =
      (s, ground (arith, int_of_pattern_small count small), refl)
  nread_loop_exact pending (suc fuel) count (suc n) s delivers le small there enough =
      let (b, bs, s1, stored, bound, front) = delivers s (suc n) (omega arith) (omega arith) in
      let sizes : length (pending s) ≡ length (b ∷ bs) + length (pending s1) =
        ap length front ∙ length-append (b ∷ bs) (pending s1) in
      let (s2, e, rest) =
        nread_loop_exact pending fuel count (suc n - length (b ∷ bs)) s1 delivers (omega arith)
          small (omega arith) (omega arith) in
      (
        s2,
        ground
            (arith, e, ap (take (suc n)) front ∙ take-append (suc n) (b ∷ bs) (pending s1) bound),
        rest ∙ sym (ap (drop (suc n)) front ∙ drop-append (suc n) (b ∷ bs) (pending s1) bound),
      )

  -- Where the socket delivers at least `count` bytes and `count` is an int, Nread returns `count` with the first `count`
  -- of them in the buffer, and leaves the others to be read.
  pub nread_exact :
      (pending : S → List ℕ) (fuel count : ℕ) (s : S)
      → Delivers pending
      → count < 2 ^ 31
      → count ≤ length (pending s)
      → count < fuel
      → (s' : S) × (nread read fuel count s ≡ some (pos count, take count (pending s), s'))
        × (pending s' ≡ drop count (pending s))
  unfolding nread
  nread_exact pending fuel count s delivers small there enough =
      nread_loop_exact pending fuel count count s delivers (omega arith) small there enough
