-- ===== src/Net/Whole.antt =====
-- net.c: Nwrite over a socket that accepts bytes sends the whole buffer.
use mathlib.Core.List.{append-nil, append_assoc}
use sber_wifi.Prelude.{
  ℕ, ◌^◌, zero, suc, ◌≤◌, ◌<◌, ◌≡◌, sym, ap, ◌∙◌, some, List, [], ◌∷◌, ◌++◌, arith, length, take,
  drop, take-append-drop, length-drop,
}
use sber_wifi.Prelude.Int.{pos}
use sber_wifi.Net.Read.{int_of_pattern_small}
use sber_wifi.Net.{WriteResult, wrote, nwrite_loop, nwrite}

module _ {S : Type 0} (write : S → List ℕ → WriteResult × S) where
  -- write(2) takes at least one byte of a buffer that has one, from the front.
  abbrev pub Accepts : (S → List ℕ) → Type 0
  Accepts sent =
      (s : S) (buf : List ℕ)
      → 0 < length buf
      → (n : ℕ) × (s' : S) × (write s buf ≡ (wrote (suc n), s'))
        × (suc n ≤ length buf)
        × (sent s' ≡ sent s ++ take (suc n) buf)

  nwrite_loop_exact :
      (sent : S → List ℕ) (fuel count : ℕ) (buf : List ℕ) (s : S)
      → Accepts sent
      → count < 2 ^ 31
      → length buf < fuel
      → (s' : S) × (nwrite_loop write fuel count buf s ≡ some (pos count, s'))
        × (sent s' ≡ sent s ++ buf)
  unfolding nwrite_loop
  nwrite_loop_exact sent zero count buf s accepts small enough = absurd (omega arith)
  nwrite_loop_exact sent (suc fuel) count [] s accepts small enough =
      (s, ground (arith, int_of_pattern_small count small), sym (append-nil (sent s)))
  nwrite_loop_exact sent (suc fuel) count (b ∷ bs) s accepts small enough =
      let (n, s1, taken, bound, more) = accepts s (b ∷ bs) (omega arith) in
      let sizes = length-drop (suc n) (b ∷ bs) in
      let (s2, e, rest) =
        nwrite_loop_exact sent fuel count (drop (suc n) (b ∷ bs)) s1 accepts small
          (omega (arith, sizes)) in
      (
        s2,
        ground (arith, e, taken),
        rest
            ∙ ap (λ l. l ++ drop (suc n) (b ∷ bs)) more
            ∙ append_assoc (sent s) (take (suc n) (b ∷ bs)) (drop (suc n) (b ∷ bs))
            ∙ ap (◌++◌ (sent s)) (take-append-drop (suc n) (b ∷ bs)),
      )

  -- Where write(2) always takes some of the buffer and this has fewer than 2 ^ 31 bytes, Nwrite sends all of it and returns its length.
  pub nwrite_exact :
      (sent : S → List ℕ) (fuel : ℕ) (buf : List ℕ) (s : S)
      → Accepts sent
      → length buf < 2 ^ 31
      → length buf < fuel
      → (s' : S) × (nwrite write fuel buf s ≡ some (pos (length buf), s'))
        × (sent s' ≡ sent s ++ buf)
  unfolding nwrite
  nwrite_exact sent fuel buf s accepts small enough =
      nwrite_loop_exact sent fuel (length buf) buf s accepts small enough
