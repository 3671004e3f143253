-- ===== src/Ids/Found.antt =====
-- iperf_api.c: a stream is found by its number, and by no other one.
use mathlib.Core.List.{append_assoc, append-nil}
use sber_wifi.Prelude.{
  ℕ, zero, suc, ◌+◌, ◌<◌, ◌≡◌, refl, sym, ap, ◌∙◌, Option, none, some, List, [], ◌∷◌, ◌++◌, arith,
  length, length-append,
}
use sber_wifi.Ids.{Numbered, iperf_add_stream, add_streams, find_stream}

add_suc : (i d : ℕ) → i + suc d ≡ i + 1 + d
add_suc i d = omega arith

module _ {S : Type 0} where
  abbrev pub get_elem? : ℕ → List S → Option S
  get_elem? n [] = none
  get_elem? zero (sp ∷ rest) = some sp
  get_elem? (suc n) (sp ∷ rest) = get_elem? n rest

  -- The streams from the number `i` on.
  abbrev number_from : ℕ → List S → List (Numbered S)
  number_from i [] = []
  number_from i (sp ∷ rest) = record { id = i; stream = sp } ∷ number_from (i + 1) rest

  add_streams-number_from :
      (n : Numbered S) (l : List (Numbered S)) (new : List S)
      → add_streams (n ∷ l) new ≡ (n ∷ l) ++ number_from (2 + length (n ∷ l)) new
  unfolding add_streams iperf_add_stream
  add_streams-number_from n l [] = sym (append-nil (n ∷ l))
  add_streams-number_from n l (sp ∷ rest) =
      let i = 2 + length (n ∷ l) in
      let m : Numbered S = record { id = i; stream = sp } in
      add_streams-number_from n (l ++ m ∷ []) rest
      ∙ append_assoc (n ∷ l) (m ∷ []) (number_from (2 + length (n ∷ l ++ m ∷ [])) rest)
      ∙ ap (λ t. (n ∷ l) ++ m ∷ number_from t rest)
          (ap (λ t. 2 + t) (length-append (n ∷ l) (m ∷ [])) ∙ omega arith)

  find_stream-number_from :
      (i d : ℕ) (l : List S) → find_stream (i + d) (number_from i l) ≡ get_elem? d l
  unfolding find_stream
  find_stream-number_from i d [] = refl
  find_stream-number_from i zero (sp ∷ rest) = ground arith
  find_stream-number_from i (suc d) (sp ∷ rest) =
      let e =
        ap (λ t. find_stream t (number_from (i + 1) rest)) (add_suc i d)
        ∙ find_stream-number_from (i + 1) d rest in
      ground arith

  -- A number below the first one is not found.
  find_stream_below : (i sid : ℕ) (l : List S) → sid < i → find_stream sid (number_from i l) ≡ none
  unfolding find_stream
  find_stream_below i sid [] h = refl
  find_stream_below i sid (sp ∷ rest) h =
      let e = find_stream_below (i + 1) sid rest (omega arith) in ground arith

  add_streams-new :
      (sp : S) (rest : List S)
      → add_streams [] (sp ∷ rest) ≡ record { id = 1; stream = sp } ∷ number_from 3 rest
  unfolding add_streams iperf_add_stream
  add_streams-new sp rest = add_streams-number_from (record { id = 1; stream = sp }) [] rest

  later :
      (sp : S) (k : ℕ) (rest : List S)
      → find_stream (3 + k) (record { id = 1; stream = sp } ∷ number_from 3 rest)
        ≡ find_stream (3 + k) (number_from 3 rest)
  unfolding find_stream
  later sp k rest = ground arith

  -- The streams that are added to a test without streams, however many: the first is found as number 1,
  -- and the one at the place k + 1 behind it as number k + 3; the numbers 0 and 2 find none.
  pub find_stream-add_streams :
      (l : List S) (k : ℕ)
      → (find_stream 1 (add_streams [] l) ≡ get_elem? 0 l)
        × (find_stream (3 + k) (add_streams [] l) ≡ get_elem? (suc k) l)
        × (find_stream 0 (add_streams [] l) ≡ none)
        × (find_stream 2 (add_streams [] l) ≡ none)
  unfolding find_stream add_streams
  find_stream-add_streams [] k = (refl, refl, refl, refl)
  find_stream-add_streams (sp ∷ rest) k =
      let e = add_streams-new sp rest in
      let found = find_stream-number_from 3 k rest in
      (
        ap (find_stream 1) e,
        ap (find_stream (3 + k)) e ∙ later sp k rest ∙ found,
        ap (find_stream 0) e ∙ find_stream_below 3 0 rest (omega arith),
        ap (find_stream 2) e ∙ find_stream_below 3 2 rest (omega arith),
      )
