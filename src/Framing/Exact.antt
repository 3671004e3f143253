-- ===== src/Framing/Exact.antt =====
-- iperf_api.c: what JSON_write sends is what JSON_read reads.
use sber_wifi.Prelude.{
  ℕ, suc, ◌^◌, ◌<◌, ◌≡◌, refl, ap, ◌∙◌, true, Option, some, List, ◌++◌, arith, ◌==◌, length,
  length-append, take, drop, take-length-append, drop-length-append,
}
use sber_wifi.Prelude.Int.{pos}
use sber_wifi.Time.{u32}
use sber_wifi.Net.{ReadResult, WriteResult}
use sber_wifi.Net.Read.{Delivers, nread_exact}
use sber_wifi.Net.Whole.{Accepts, nwrite_exact}
use sber_wifi.Udp.{be32, from_be}
use sber_wifi.Framing.{json_write, json_read, write_text, read_text}
use mathlib.Core.List.{append_assoc}

-- The bytes of a message.
abbrev pub frame : List ℕ → List ℕ
frame str = be32 (length str) ++ str

same : (n : ℕ) → (n == n) ≡ true
same n = ground arith

size_read : (n : ℕ) (nsize : List ℕ) → n < 2 ^ 31 → from_be 4 0 (be32 n ++ drop 4 nsize) ≡ n
unfolding from_be be32
size_read n nsize h = ground arith

module _ {Object : Type 0} (print : Object → Option (List ℕ)) (parse : List ℕ → Option Object)
    {S : Type 0} where
  -- Where write(2) always takes some of the buffer, JSON_write of an object whose text is shorter
  -- than 2 ^ 31 bytes returns 0 and has sent the length and the text.
  pub json_write_exact :
      (write : S → List ℕ → WriteResult × S) (sent : S → List ℕ) (json : Object) (str : List ℕ)
      (s : S)
      → Accepts write sent
      → print json ≡ some str
      → length str < 2 ^ 31
      → (s' : S) × (json_write print write json s ≡ some (pos 0, s'))
        × (sent s' ≡ sent s ++ frame str)
  unfolding json_write write_text be32
  json_write_exact write sent json str s accepts printed short =
      let small : u32 (length str) ≡ length str = omega arith in
      let (s1, e1, sent1) =
        nwrite_exact write sent 5 (be32 (u32 (length str))) s accepts (omega arith) (omega arith) in
      let (s2, e2, sent2) =
        nwrite_exact write sent (suc (length str)) str s1 accepts short (omega arith) in
      (
        s2,
        rw (printed, json_write) (rw e1 (rw (e2, write_text) refl)),
        sent2
            ∙ ap (λ l. l ++ str) sent1
            ∙ append_assoc (sent s) (be32 (u32 (length str))) str
            ∙ ap (λ n. sent s ++ (be32 n ++ str)) small,
      )

  -- Where the socket delivers the message of a text shorter than 2 ^ 31 bytes, whatever follows
  -- it, and memory is at hand, JSON_read gives what the text parses to and leaves what follows.
  pub json_read_exact :
      (read : S → ℕ → ReadResult × S) (pending : S → List ℕ) (nsize str rest : List ℕ) (s : S)
      → Delivers read pending
      → length str < 2 ^ 31
      → pending s ≡ frame str ++ rest
      → (s' : S) × (json_read parse read true nsize s ≡ some (parse str, s')) × (pending s' ≡ rest)
  unfolding json_read read_text be32
  json_read_exact read pending nsize str rest s delivers short there =
      let n = length str in
      let parts = ap length there in
      let sum = length-append str rest in
      let (s1, e1, left1) =
        nread_exact read pending 5 4 s delivers (omega arith) (omega (arith, parts))
          (omega arith) in
      let head : take 4 (pending s) ≡ be32 n = ap (take 4) there in
      let tail : pending s1 ≡ str ++ rest = left1 ∙ ap (drop 4) there in
      let size : length (pending s1) ≡ length (str ++ rest) = ap length tail in
      let (s2, e2, left2) =
        nread_exact read pending (suc n) n s1 delivers short (omega (arith, size, sum))
          (omega arith) in
      let text : take n (pending s1) ≡ str = ap (take n) tail ∙ take-length-append str rest in
      let step : json_read parse read true nsize s ≡ read_text parse read true n s1 =
        rw (e1, json_read) (rw head (rw (size_read n nsize short) refl)) in
      let done : read_text parse read true n s1 ≡ some (parse str, s2) =
        rw (e2, read_text) (rw (same n) (rw text refl)) in
      (s2, step ∙ done, left2 ∙ ap (drop n) tail ∙ drop-length-append str rest)
