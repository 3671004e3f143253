-- ===== src/Ids.antt =====
-- app/src/main/cpp/iperf/iperf_api.c: iperf_add_stream, which numbers the streams of a test, and the
-- search for a number in get_results. Client and server number their streams alike, and exchange
-- results by these numbers.
pub mod Found
pub mod Examples
use sber_wifi.Prelude.{ℕ, ◌+◌, Option, none, some, List, [], ◌∷◌, ◌++◌, ◌==◌, if◌then◌else◌, length}

pub record Numbered (S : Type 0) : Type 0 where
  pub id : ℕ
  pub stream : S

module _ {S : Type 0} where
  -- The new stream goes to the end; `i` is 2 and one more for each stream before it.
  unfoldable pub iperf_add_stream : List (Numbered S) → S → List (Numbered S)
  iperf_add_stream [] sp = record { id = 1; stream = sp } ∷ []
  iperf_add_stream (n ∷ rest) sp =
      (n ∷ rest) ++ record { id = 2 + length (n ∷ rest); stream = sp } ∷ []

  unfoldable pub add_streams : List (Numbered S) → List S → List (Numbered S)
  unfolding iperf_add_stream
  add_streams streams [] = streams
  add_streams streams (sp ∷ rest) = add_streams (iperf_add_stream streams sp) rest

  -- `SLIST_FOREACH(sp, &test->streams, streams) if (sp->id == sid) break;`
  unfoldable pub find_stream : ℕ → List (Numbered S) → Option S
  find_stream sid [] = none
  find_stream sid (n ∷ rest) =
      let later = find_stream sid rest in if n.id == sid then some n.stream else later
