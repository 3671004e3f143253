-- ===== src/Net/Examples.antt =====
-- net.c over a socket that is the list of the bytes still to be read, or already sent.
use sber_wifi.Prelude.{
  ℕ, zero, suc, ◌≤◌, ◌≡◌, refl, ◌⊎◌, some, List, [], ◌∷◌, ◌++◌, arith, take, drop,
}
use sber_wifi.Prelude.Int.{ℤ, pos}
use sber_wifi.Net.{ReadResult, got, WriteResult, wrote, net_softerror, net_harderror, nread, nwrite}
use sber_wifi.Net.Read.{ReadsWithin, Delivers, nread_exact}
use sber_wifi.Net.Write.{Sends, nwrite-Sent}

-- read(2) that gives one byte at a time.
abbrev pub read_one : List ℕ → ℕ → ReadResult × List ℕ
read_one s zero = (got [], s)
read_one [] (suc n) = (got [], [])
read_one (b ∷ s) (suc n) = (got (b ∷ []), s)

-- write(2) that takes one byte at a time.
abbrev pub write_one : List ℕ → List ℕ → WriteResult × List ℕ
write_one s [] = (wrote 0, s ++ [])
write_one s (b ∷ buf) = (wrote 1, s ++ b ∷ [])

read_one-ReadsWithin : ReadsWithin read_one
read_one-ReadsWithin s zero bs e = ground arith
read_one-ReadsWithin [] (suc n) bs e = ground arith
read_one-ReadsWithin (b ∷ s) (suc n) bs e = ground arith

pub read_one-Delivers : Delivers read_one (λ s. s)
read_one-Delivers s zero hn hs = absurd (omega arith)
read_one-Delivers [] (suc n) hn hs = absurd (omega arith)
read_one-Delivers (b ∷ s) (suc n) hn hs = (b, [], s, refl, omega arith, refl)

write_one-Sends : Sends write_one (λ s. s)
write_one-Sends s [] = (omega arith, refl)
write_one-Sends s (b ∷ buf) = (omega arith, refl)

nread_exact_example :
    (s' : List ℕ) × (nread read_one 3 2 (7 ∷ 8 ∷ 9 ∷ [])
      ≡ some (pos 2, take 2 (7 ∷ 8 ∷ 9 ∷ []), s'))
    × (s' ≡ drop 2 (7 ∷ 8 ∷ 9 ∷ []))
nread_exact_example =
    nread_exact read_one (λ s. s) 3 2 (7 ∷ 8 ∷ 9 ∷ []) read_one-Delivers (omega arith) (omega arith)
      (omega arith)

nwrite-Sent_example :
    (r : ℤ × List ℕ) × (nwrite write_one 3 (7 ∷ 8 ∷ []) (1 ∷ []) ≡ some r)
    × ((n : ℕ) × (n ≤ 2)
        × (r.1 ≡ (1 ∷ []) ++ take n (7 ∷ 8 ∷ []))
        × ((r.0 ≡ pos n) ⊎ (r.0 ≡ net_softerror) ⊎ (r.0 ≡ net_harderror)))
nwrite-Sent_example =
    nwrite-Sent write_one (λ s. s) 3 (7 ∷ 8 ∷ []) (1 ∷ []) write_one-Sends (omega arith)
      (omega arith)
