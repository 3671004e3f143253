-- ===== src/Net/Write.antt =====
-- net.c: Nwrite reports how much it sent, and sends all that a reliable socket accepts.
use mathlib.Core.Path.{subst}
use native.Mathlib.Nat.{zero-add, add_assoc}
use mathlib.Core.List.{append-nil, append_assoc}
use sber_wifi.Prelude.{
  ℕ, ◌^◌, zero, suc, ◌+◌, ◌≤◌, ◌<◌, ◌≡◌, refl, sym, ap, ◌∙◌, ◌⊎◌, inl, inr, some, List, [], ◌∷◌,
  ◌++◌, arith, length, take, drop, length-drop, take-add,
}
use sber_wifi.Prelude.Int.{ℤ, pos}
use sber_wifi.Net.Read.{int_of_pattern_small}
use sber_wifi.Net.{
  WriteResult, wrote, write_error, Errno, eintr, eagain, enobufs, other, net_softerror,
  net_harderror, nwrite_loop, nwrite,
}

abbrev WriteCases : WriteResult → Type 0
WriteCases r = (r ≡ wrote 0) ⊎ ((n : ℕ) × (r ≡ wrote (suc n))) ⊎ ((e : Errno) × (r ≡ write_error e))

write_cases : (r : WriteResult) → WriteCases r
write_cases (wrote zero) = inl refl
write_cases (wrote (suc n)) = inr (inl (n, refl))
write_cases (write_error e) = inr (inr (e, refl))

module _ {S : Type 0} (write : S → List ℕ → WriteResult × S) where
  -- What one call of write(2) does to the bytes sent so far: it adds the ones that it reports,
  -- from the front of the buffer, and none on an error.
  abbrev pub SentBy : (S → List ℕ) → S → List ℕ → WriteResult → S → Type 0
  SentBy sent s buf (wrote n) s' = (n ≤ length buf) × (sent s' ≡ sent s ++ take n buf)
  SentBy sent s buf (write_error e) s' = sent s' ≡ sent s

  abbrev pub Sends : (S → List ℕ) → Type 0
  Sends sent = (s : S) (buf : List ℕ) → SentBy sent s buf (write s buf).0 (write s buf).1

  -- A number that is not negative is the number of bytes sent; an error number may leave a part
  -- sent.
  abbrev pub Sent : (S → List ℕ) → ℕ → List ℕ → S → ℤ × S → Type 0
  Sent sent before buf s r =
      (n : ℕ) × (n ≤ length buf)
      × (sent r.1 ≡ sent s ++ take n buf)
      × ((r.0 ≡ pos (before + n)) ⊎ (r.0 ≡ net_softerror) ⊎ (r.0 ≡ net_harderror))

  nwrite_loop-Sent :
      (sent : S → List ℕ) (fuel before : ℕ) (buf : List ℕ) (s : S)
      → Sends sent
      → before + length buf < 2 ^ 31
      → length buf < fuel
      → (r : ℤ × S) × (nwrite_loop write fuel (before + length buf) buf s ≡ some r)
        × Sent sent before buf s r
  unfolding nwrite_loop
  nwrite_loop-Sent sent zero before buf s sends small enough = absurd (omega arith)
  nwrite_loop-Sent sent (suc fuel) before [] s sends small enough = (
    (pos (before + 0), s),
    ground (arith, int_of_pattern_small (before + 0) small),
    (0, omega arith, sym (append-nil (sent s)), inl refl),
  )
  nwrite_loop-Sent sent (suc fuel) before (b ∷ bs) s sends small enough =
      let kept = int_of_pattern_small before (omega arith) in
      elim (write_cases (write s (b ∷ bs)).0) [
        | inl nothing ↦
            let law = subst by nothing (sends s (b ∷ bs)) in
            ((net_softerror, s1), ground arith, (0, omega arith, law.1, inr (inl refl)))
        | inr (inr (eintr, failed)) ↦
            let law = subst by failed (sends s (b ∷ bs)) ∙ sym (append-nil (sent s)) in
            ((pos before, s1), ground (arith, kept), (0, omega arith, law, inl (ground arith)))
        | inr (inr (eagain, failed)) ↦
            let law = subst by failed (sends s (b ∷ bs)) ∙ sym (append-nil (sent s)) in
            ((pos before, s1), ground (arith, kept), (0, omega arith, law, inl (ground arith)))
        | inr (inr (enobufs, failed)) ↦
            let law = subst by failed (sends s (b ∷ bs)) ∙ sym (append-nil (sent s)) in
            ((net_softerror, s1), ground arith, (0, omega arith, law, inr (inl refl)))
        | inr (inr (other, failed)) ↦
            let law = subst by failed (sends s (b ∷ bs)) ∙ sym (append-nil (sent s)) in
            ((net_harderror, s1), ground arith, (0, omega arith, law, inr (inr refl)))
        | inr (inl (n, some_sent)) ↦
            let law = subst by some_sent (sends s (b ∷ bs)) in
            let sizes = length-drop (suc n) (b ∷ bs) in
            let (r, e, (m, bound, more, number)) =
              nwrite_loop-Sent sent fuel (before + suc n) (drop (suc n) (b ∷ bs)) s1 sends
                (omega (arith, sizes)) (omega arith) in
            let sums : before + length (b ∷ bs) ≡ before + suc n + length (drop n bs) =
              omega (arith, sizes) in
            (
              r,
              ground (arith, e, sums),
              (
                suc n + m,
                omega (arith, sizes),
                more
                    ∙ ap (λ l. l ++ take m (drop (suc n) (b ∷ bs))) law.1
                    ∙ append_assoc (sent s) (take (suc n) (b ∷ bs)) _
                    ∙ ap (◌++◌ (sent s)) (sym (take-add (suc n) m (b ∷ bs))),
                rw (← add_assoc before (suc n) m) number,
              ),
            )
      ]
    where
      s1 : S
      s1 = (write s (b ∷ bs)).1

      by : WriteResult → Type 0
      by r = SentBy sent s (b ∷ bs) r s1

  -- Where write(2) sends what it says and the buffer has fewer than 2 ^ 31 bytes, Nwrite ends, a round for each byte and one more are enough,
  -- what it sends is a front part of the buffer, and unless it returns an error it returns the
  -- length of that part, which can be less than the whole.
  pub nwrite-Sent :
      (sent : S → List ℕ) (fuel : ℕ) (buf : List ℕ) (s : S)
      → Sends sent
      → length buf < 2 ^ 31
      → length buf < fuel
      → (r : ℤ × S) × (nwrite write fuel buf s ≡ some r)
        × ((n : ℕ) × (n ≤ length buf)
            × (sent r.1 ≡ sent s ++ take n buf)
            × ((r.0 ≡ pos n) ⊎ (r.0 ≡ net_softerror) ⊎ (r.0 ≡ net_harderror)))
  unfolding nwrite
  nwrite-Sent sent fuel buf s sends small enough =
      let (r, e, (n, bound, more, number)) =
        nwrite_loop-Sent sent fuel 0 buf s sends (rw zero-add small) enough in
      (r, rw zero-add at e, (n, bound, more, rw zero-add at number))
