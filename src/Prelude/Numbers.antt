-- ===== src/Prelude/Numbers.antt =====
-- An instance of the interface Float for the tests: the natural numbers.
use sber_wifi.Prelude.{ℕ, ◌+◌, ◌-◌, ◌*◌, ◌/◌, ltb, ◌==◌, if◌then◌else◌}
use sber_wifi.Prelude.Int.{pos}
use sber_wifi.Prelude.Float.{Float}

abbrev pub whole_numbers : Float
whole_numbers = record {
  Double = ℕ;
  of_ℕ = λ n. n;
  add = λ a b. a + b;
  sub = λ a b. a - b;
  mul = λ a b. a * b;
  div = λ a b. if b == 0 then 0 else a / b;
  neg = λ a. a;
  lt = ltb;
  trunc = λ a. a;
  to_int = pos;
}
