-- ===== src/Framing/Examples.antt =====
-- JSON_write and JSON_read of the text 7 8 9, over a socket that moves one byte at a time.
use sber_wifi.Prelude.{ℕ, ◌≡◌, refl, true, Option, some, List, [], ◌∷◌, ◌++◌, arith}
use sber_wifi.Prelude.Int.{pos}
use sber_wifi.Net.Examples.{read_one, write_one, read_one-Delivers}
use sber_wifi.Net.Whole.{Accepts, nwrite_exact}
use sber_wifi.Net.{nwrite}
use sber_wifi.Framing.{json_write, json_read}
use sber_wifi.Framing.Exact.{frame, json_write_exact, json_read_exact}

abbrev bytes : List ℕ
bytes = 7 ∷ 8 ∷ 9 ∷ []

-- An object that is its own text.
abbrev as_text : List ℕ → Option (List ℕ)
as_text json = some json

write_one-Accepts : Accepts write_one (λ s. s)
write_one-Accepts s [] nonempty = absurd (omega arith)
write_one-Accepts s (b ∷ buf) nonempty = (0, s ++ b ∷ [], refl, omega arith, refl)

nwrite_exact_example :
    (s' : List ℕ) × (nwrite write_one 4 bytes (1 ∷ []) ≡ some (pos 3, s'))
    × (s' ≡ (1 ∷ []) ++ bytes)
nwrite_exact_example =
    nwrite_exact write_one (λ s. s) 4 bytes (1 ∷ []) write_one-Accepts (omega arith) (omega arith)

json_write_exact_example :
    (s' : List ℕ) × (json_write as_text write_one bytes [] ≡ some (pos 0, s'))
    × (s' ≡ [] ++ frame bytes)
json_write_exact_example =
    json_write_exact as_text as_text write_one (λ s. s) bytes bytes [] write_one-Accepts refl
      (omega arith)

json_read_exact_example :
    (s' : List ℕ) × (json_read as_text read_one true [] (frame bytes ++ 5 ∷ [])
      ≡ some (some bytes, s'))
    × (s' ≡ 5 ∷ [])
json_read_exact_example =
    json_read_exact as_text as_text read_one (λ s. s) [] bytes (5 ∷ []) (frame bytes ++ 5 ∷ [])
      read_one-Delivers (omega arith) refl
