-- ===== src/Vos/Money.antt =====
-- pkg/vos/money.go. A method that returns `(Money, error)` returns a `Result`; an integer is an int64.
pub mod Arithmetic
pub mod Scaling
pub mod Storage
pub mod Order
use devkit_go.Prelude.{
  ℕ, ◌+◌, ◌-◌, ◌*◌, ◌^◌, ◌≤◌, ◌≡◌, refl, Bool, true, false, not, ◌&&◌, ◌||◌, List, [], ◌∷◌, ◌++◌,
  map, Option, none, some, arith, ◌==◌, if◌then◌else◌, Result, ok, err, panic, ◌>>=◌, ◌>>◌, fail_if,
}
use devkit_go.Prelude.Int.{ℤ, pos, negsuc, ltb_ℤ, leb_ℤ, eqb_ℤ, nat_abs}
use devkit_go.Prelude.Int64.{add64, sub64, mul64, neg64, abs64, quo64}
use devkit_go.Prelude.Text.{Text, codes, text_eq, split, trim_space}
use devkit_go.Prelude.Decimal.{format_int, parse_int}
use devkit_go.Vos.{
  Error, invalid_currency, currency_mismatch, division_by_zero, invalid_value, overflow,
  invalid_format, null_value,
}
use devkit_go.Vos.Float.{Float64, DbValue}
use devkit_go.Vos.Currency.{Currency, is_valid, brl, new_currency}

pub record Money : Type 0 where
  pub cents : ℤ
  pub currency : Currency

abbrev pub money_scale_factor : ℕ
money_scale_factor = 100

abbrev pub max_money_cents : ℤ
max_money_cents = pos (2 ^ 53)

abbrev pub min_money_cents : ℤ
min_money_cents = negsuc (2 ^ 53 - 1)

unfoldable pub new_money : ℤ → Currency → Result Error Money
new_money cents currency = do
  fail_if (not (is_valid currency)) invalid_currency
  fail_if (ltb_ℤ max_money_cents cents || ltb_ℤ cents min_money_cents) overflow
  ok (record { cents = cents; currency = currency })

unfoldable pub add : Money → Money → Result Error Money
add m other = do
  fail_if (not (text_eq m.currency other.currency)) currency_mismatch
  fail_if
      ((ltb_ℤ (pos 0) other.cents && ltb_ℤ (sub64 max_money_cents other.cents) m.cents)
        || (ltb_ℤ other.cents (pos 0) && ltb_ℤ m.cents (sub64 min_money_cents other.cents)))
      overflow
  ok (record { cents = add64 m.cents other.cents; currency = m.currency })

unfoldable pub subtract : Money → Money → Result Error Money
subtract m other = do
  fail_if (not (text_eq m.currency other.currency)) currency_mismatch
  fail_if
      ((ltb_ℤ other.cents (pos 0) && ltb_ℤ (add64 max_money_cents other.cents) m.cents)
        || (ltb_ℤ (pos 0) other.cents && ltb_ℤ m.cents (add64 min_money_cents other.cents)))
      overflow
  ok (record { cents = sub64 m.cents other.cents; currency = m.currency })

unfoldable pub multiply : Money → ℤ → Result Error Money
multiply m factor = do
  limit ← quo64 max_money_cents (abs64 factor)
  fail_if (ltb_ℤ limit (abs64 m.cents)) overflow
  ok (record { cents = mul64 m.cents factor; currency = m.currency })

unfoldable pub divide : Money → ℤ → Result Error Money
divide m divisor = do
  fail_if (eqb_ℤ divisor (pos 0)) division_by_zero
  quotient ← quo64 m.cents divisor
  ok (record { cents = quotient; currency = m.currency })

unfoldable pub equals : Money → Money → Bool
equals m other = eqb_ℤ m.cents other.cents && text_eq m.currency other.currency

unfoldable pub greater_than : Money → Money → Bool
greater_than m other =
    if not (text_eq m.currency other.currency) then false else ltb_ℤ other.cents m.cents

unfoldable pub less_than : Money → Money → Bool
less_than m other =
    if not (text_eq m.currency other.currency) then false else ltb_ℤ m.cents other.cents

unfoldable pub greater_than_or_equal : Money → Money → Bool
greater_than_or_equal m other =
    if not (text_eq m.currency other.currency) then false else leb_ℤ other.cents m.cents

unfoldable pub less_than_or_equal : Money → Money → Bool
less_than_or_equal m other =
    if not (text_eq m.currency other.currency) then false else leb_ℤ m.cents other.cents

unfoldable pub is_zero : Money → Bool
is_zero m = eqb_ℤ m.cents (pos 0)

unfoldable pub is_positive : Money → Bool
is_positive m = ltb_ℤ (pos 0) m.cents

unfoldable pub is_negative : Money → Bool
is_negative m = ltb_ℤ m.cents (pos 0)

unfoldable pub negate : Money → Money
negate m = record { cents = neg64 m.cents; currency = m.currency }

unfoldable pub abs : Money → Money
abs m = if ltb_ℤ m.cents (pos 0) then record { cents = neg64 m.cents; currency = m.currency } else m

-- `Value`: what the database stores, "cents:currency".
unfoldable pub value : Money → Text
value m = format_int m.cents ++ b':' ∷ m.currency

-- The tail of `Scan`, on the text that the database holds.
unfoldable pub scan_parts : List Text → Result Error Money
scan_parts (amount ∷ code ∷ []) = elim (parse_int amount) [
  | none ↦ err invalid_format
  | some cents ↦ do currency ← new_currency code; new_money cents currency
]
scan_parts _ = err invalid_format

-- `strings.ReplaceAll(value, ",", ".")`.
unfoldable pub comma_to_dot : Text → Text
comma_to_dot = map (λ c. if c == b',' then b'.' else c)

module _ (F : Float64) where
  open F use {Carrier, is_nan, is_inf, times, round, to_int64, parse_float, of_int64, over}

  unfoldable pub float : Money → Carrier
  float m = over (of_int64 m.cents) money_scale_factor

  unfoldable pub new_money_from_float : Carrier → Currency → Result Error Money
  new_money_from_float value currency = do
    fail_if (not (is_valid currency)) invalid_currency
    fail_if (is_nan value || is_inf value) invalid_value
    let cents = to_int64 (round (times value money_scale_factor))
    fail_if (ltb_ℤ max_money_cents cents || ltb_ℤ cents min_money_cents) overflow
    ok (record { cents = cents; currency = currency })

  unfoldable pub new_money_from_string : Text → Currency → Result Error Money
  new_money_from_string value currency = do
    fail_if (not (is_valid currency)) invalid_currency
    elim (parse_float (comma_to_dot (trim_space value))) [
      | none ↦ err invalid_format
      | some float_value ↦ new_money_from_float float_value currency
    ]

  -- `Scan`: what the receiver becomes.
  unfoldable pub scan : DbValue Carrier → Result Error Money
  scan DbValue.null = err null_value
  scan (DbValue.string str) = scan_parts (split b':' str)
  scan (DbValue.bytes str) = scan_parts (split b':' str)
  scan (DbValue.int64 v) = new_money v brl
  scan (DbValue.float64 v) = new_money_from_float v brl
  scan DbValue.other = err invalid_format
