-- ===== src/Ids/Examples.antt =====
-- Three streams of a test.
use sber_wifi.Prelude.{ℕ, ◌≡◌, none, some, List, [], ◌∷◌}
use sber_wifi.Ids.{add_streams, find_stream}
use sber_wifi.Ids.Found.{find_stream-add_streams}

abbrev three : List ℕ
three = 10 ∷ 20 ∷ 30 ∷ []

find_stream-add_streams_example :
    (find_stream 1 (add_streams [] three) ≡ some 10)
    × (find_stream 4 (add_streams [] three) ≡ some 30)
    × (find_stream 0 (add_streams [] three) ≡ none)
    × (find_stream 2 (add_streams [] three) ≡ none)
find_stream-add_streams_example = find_stream-add_streams three 1
