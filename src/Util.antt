-- ===== src/Util.antt =====
-- app/src/main/cpp/iperf/iperf_util.c: fill_with_repeating_pattern and make_cookie, with what
-- readentropy has read. A buffer is the list of its bytes.
pub mod Examples
use sber_wifi.Prelude.{ℕ, zero, suc, ◌+◌, ◌%◌, List, [], ◌∷◌, ◌++◌, map, leb, if◌then◌else◌, take}
use sber_wifi.Dscp.{codes}

-- The bytes that are still to be written, from the value of `counter` on.
unfoldable pub fill_from : ℕ → ℕ → List ℕ
fill_from counter zero = []
fill_from counter (suc left) =
    (b'0' + counter) ∷ fill_from (if leb 9 counter then 0 else counter + 1) left

unfoldable pub fill_with_repeating_pattern : ℕ → List ℕ
unfolding fill_from
fill_with_repeating_pattern outsize = fill_from 0 outsize

abbrev rndchars : List ℕ
rndchars = codes "abcdefghijklmnopqrstuvwxyz234567"

abbrev byte_at : ℕ → List ℕ → ℕ
byte_at n [] = 0
byte_at zero (b ∷ rest) = b
byte_at (suc n) (b ∷ rest) = byte_at n rest

-- COOKIE_SIZE is 37: 36 characters and the end of the text. `entropy` has 37 bytes.
unfoldable pub make_cookie : List ℕ → List ℕ
make_cookie entropy = map (λ b. byte_at (b % 32) rndchars) (take 36 entropy) ++ 0 ∷ []
