-- ===== src/Prelude/Float.antt =====
-- The type `double`, of which the program is given no laws: an interface of its operations.
use sber_wifi.Prelude.{ℕ, Bool}
use sber_wifi.Prelude.Int.{ℤ}

pub record Float : Type 1 where
  pub Double : Type 0
  pub of_ℕ : ℕ → Double
  pub add : Double → Double → Double
  pub sub : Double → Double → Double
  pub mul : Double → Double → Double
  pub div : Double → Double → Double
  pub neg : Double → Double
  pub lt : Double → Double → Bool
  pub trunc : Double → ℕ  -- the conversion to an unsigned integer type
  pub to_int : Double → ℤ  -- the conversion to int
