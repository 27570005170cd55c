-- ===== src/Vos/Percentage.antt =====
-- pkg/vos/percentage.go. The value is an int64 scaled by 1000.
pub mod Arithmetic
pub mod Scaling
use devkit_go.Prelude.{
  ℕ, ◌-◌, ◌*◌, ◌^◌, Bool, true, false, ◌&&◌, ◌||◌, List, [], ◌∷◌, Option, none, some, ◌==◌,
  if◌then◌else◌, Result, ok, err, ◌>>=◌, ◌>>◌, fail_if,
}
use devkit_go.Prelude.Int.{ℤ, pos, negsuc, ltb_ℤ, leb_ℤ, eqb_ℤ}
use devkit_go.Prelude.Int64.{max_int64, add64, sub64, mul64, neg64, abs64, quo64}
use devkit_go.Prelude.Text.{Text, trim_space}
use devkit_go.Vos.{Error, division_by_zero, invalid_value, overflow, invalid_format, null_value}
use devkit_go.Vos.Float.{Float64, DbValue}
use devkit_go.Vos.Money.{Money, new_money, comma_to_dot}

pub record Percentage : Type 0 where
  pub value : ℤ

abbrev pub percentage_scale_factor : ℕ
percentage_scale_factor = 1000

abbrev pub max_percentage_value : ℤ
max_percentage_value = pos (2 ^ 53)

abbrev pub min_percentage_value : ℤ
min_percentage_value = negsuc (2 ^ 53 - 1)

unfoldable pub new_percentage : ℤ → Result Error Percentage
new_percentage value = do
  fail_if (ltb_ℤ max_percentage_value value || ltb_ℤ value min_percentage_value) overflow
  ok (record { value = value })

unfoldable pub add : Percentage → Percentage → Result Error Percentage
add p other = do
  fail_if
      ((ltb_ℤ (pos 0) other.value && ltb_ℤ (sub64 max_percentage_value other.value) p.value)
        || (ltb_ℤ other.value (pos 0) && ltb_ℤ p.value (sub64 min_percentage_value other.value)))
      overflow
  ok (record { value = add64 p.value other.value })

unfoldable pub subtract : Percentage → Percentage → Result Error Percentage
subtract p other = do
  fail_if
      ((ltb_ℤ other.value (pos 0) && ltb_ℤ (add64 max_percentage_value other.value) p.value)
        || (ltb_ℤ (pos 0) other.value && ltb_ℤ p.value (add64 min_percentage_value other.value)))
      overflow
  ok (record { value = sub64 p.value other.value })

-- The test `factor != 0 && (…)`, which divides only by a factor other than 0.
unfoldable pub exceeds : ℤ → ℤ → Result Error Bool
exceeds value factor = if eqb_ℤ factor (pos 0) then ok false else do
  upper ← quo64 max_percentage_value factor
  lower ← quo64 min_percentage_value factor
  ok (ltb_ℤ upper value || ltb_ℤ value lower)

unfoldable pub multiply : Percentage → ℤ → Result Error Percentage
unfolding exceeds
multiply p factor = do
  too_large ← exceeds p.value factor
  fail_if too_large overflow
  ok (record { value = mul64 p.value factor })

unfoldable pub divide : Percentage → ℤ → Result Error Percentage
divide p divisor = do
  fail_if (eqb_ℤ divisor (pos 0)) division_by_zero
  quotient ← quo64 p.value divisor
  ok (record { value = quotient })

-- The check that the product fits, which is made only for a percentage other than 0.
unfoldable pub check_product : ℤ → ℤ → Result Error (Unit {0})
check_product cents percentage =
    if eqb_ℤ percentage (pos 0)
    then ok tt
    else if ltb_ℤ (pos 0) (abs64 percentage)
    then (do
      limit ← quo64 max_int64 (abs64 percentage)
      fail_if (ltb_ℤ limit (abs64 cents)) overflow)
    else ok tt

unfoldable pub apply : Percentage → Money → Result Error Money
unfolding check_product
apply p money = do
  check_product money.cents p.value
  result ← quo64 (mul64 money.cents p.value) (pos (100 * percentage_scale_factor))
  new_money result money.currency

unfoldable pub equals : Percentage → Percentage → Bool
equals p other = eqb_ℤ p.value other.value

unfoldable pub greater_than : Percentage → Percentage → Bool
greater_than p other = ltb_ℤ other.value p.value

unfoldable pub less_than : Percentage → Percentage → Bool
less_than p other = ltb_ℤ p.value other.value

unfoldable pub greater_than_or_equal : Percentage → Percentage → Bool
greater_than_or_equal p other = leb_ℤ other.value p.value

unfoldable pub less_than_or_equal : Percentage → Percentage → Bool
less_than_or_equal p other = leb_ℤ p.value other.value

unfoldable pub is_zero : Percentage → Bool
is_zero p = eqb_ℤ p.value (pos 0)

unfoldable pub is_positive : Percentage → Bool
is_positive p = ltb_ℤ (pos 0) p.value

unfoldable pub is_negative : Percentage → Bool
is_negative p = ltb_ℤ p.value (pos 0)

unfoldable pub negate : Percentage → Percentage
negate p = record { value = neg64 p.value }

unfoldable pub abs : Percentage → Percentage
abs p = if ltb_ℤ p.value (pos 0) then record { value = neg64 p.value } else p

-- `strings.TrimSuffix(value, "%")`.
unfoldable pub trim_percent : Text → Text
trim_percent [] = []
trim_percent (c ∷ []) = if c == b'%' then [] else c ∷ []
trim_percent (c ∷ d ∷ s) = c ∷ trim_percent (d ∷ s)

module _ (F : Float64) where
  open F use {Carrier, is_nan, is_inf, times, round, to_int64, parse_float, of_int64, over}

  unfoldable pub float : Percentage → Carrier
  float p = over (of_int64 p.value) percentage_scale_factor

  -- `Value` for the database.
  unfoldable pub stored_value : Percentage → DbValue Carrier
  stored_value p = DbValue.int64 p.value

  unfoldable pub new_percentage_from_float : Carrier → Result Error Percentage
  new_percentage_from_float value = do
    fail_if (is_nan value || is_inf value) invalid_value
    let scaled = to_int64 (round (times value percentage_scale_factor))
    fail_if (ltb_ℤ max_percentage_value scaled || ltb_ℤ scaled min_percentage_value) overflow
    ok (record { value = scaled })

  unfoldable pub new_percentage_from_string : Text → Result Error Percentage
  unfolding new_percentage_from_float
  new_percentage_from_string value =
      elim (parse_float (trim_space (trim_percent (comma_to_dot (trim_space value))))) [
        | none ↦ err invalid_format
        | some float_value ↦ new_percentage_from_float float_value
      ]

  -- `Scan`: what the receiver becomes.
  unfoldable pub scan : DbValue Carrier → Result Error Percentage
  unfolding new_percentage_from_string
  scan DbValue.null = err null_value
  scan (DbValue.int64 v) = new_percentage v
  scan (DbValue.float64 v) = new_percentage_from_float v
  scan (DbValue.string v) = new_percentage_from_string v
  scan (DbValue.bytes v) = new_percentage_from_string v
  scan DbValue.other = err invalid_format
