-- ===== src/Util/Examples.antt =====
-- A buffer of twelve bytes, and a cookie.
use sber_wifi.Prelude.{◌≡◌, refl, [], ◌∷◌, ◌++◌, replicate}
use sber_wifi.Dscp.{codes}
use sber_wifi.Util.{fill_with_repeating_pattern, make_cookie}

first_bytes : fill_with_repeating_pattern 12 ≡ codes "012345678901"
unfolding fill_with_repeating_pattern
first_bytes = refl

cookie_letters : make_cookie (replicate 37 33) ≡ replicate 36 b'b' ++ 0 ∷ []
unfolding make_cookie
cookie_letters = refl
