-- ===== src/Vos/Float.antt =====
-- What the value objects use of float64 and of the `math` and `strconv` packages. There are no
-- floats here, so the type and its operations are a parameter of the code that uses them, and so is
-- the value that a database driver hands to `Scan`.
use devkit_go.Prelude.{ℕ, Bool, Option}
use devkit_go.Prelude.Int.{ℤ}
use devkit_go.Prelude.Text.{Text}

pub record Float64 : Type 1 where
  pub Carrier : Type 0
  pub is_nan : Carrier → Bool  -- math.IsNaN
  pub is_inf : Carrier → Bool  -- math.IsInf(f, 0)
  pub times : Carrier → ℕ → Carrier  -- f * n
  pub over : Carrier → ℕ → Carrier  -- f / n
  pub round : Carrier → Carrier  -- math.Round
  pub to_int64 : Carrier → ℤ  -- int64(f)
  pub of_int64 : ℤ → Carrier  -- float64(n)
  pub parse_float : Text → Option Carrier  -- strconv.ParseFloat(s, 64)

-- The dynamic types of the argument of `Scan`.
pub data DbValue (F : Type 0) : Type 0 where
  null : DbValue F
  string : Text → DbValue F
  bytes : Text → DbValue F
  int64 : ℤ → DbValue F
  float64 : F → DbValue F
  other : DbValue F
