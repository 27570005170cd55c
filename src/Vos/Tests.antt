-- ===== src/Vos/Tests.antt =====
-- The theorems on the value objects at concrete amounts and percentages.
use devkit_go.Prelude.{
  ℕ, ◌+◌, ◌-◌, ◌*◌, ◌^◌, ◌≤◌, ◌<◌, ◌≡◌, ◌≢◌, ◌⊎◌, ◌↔◌, inl, inr, refl, Bool, true, false, not, leb,
  arith, Option, none, some, if◌then◌else◌, Result, ok, err, panic,
}
use devkit_go.Prelude.Int.{ℤ, pos, negsuc, ◌+ℤ◌, ◌-ℤ◌, ◌*ℤ◌}
use devkit_go.Prelude.Int64.{IsInt64, trunc_quo, trunc_rem}
use devkit_go.Prelude.Text.{Text, codes}
use devkit_go.Vos.Float.{Float64, DbValue}
use devkit_go.Vos.Currency.{brl, is_valid}
use devkit_go.Vos.Money
use devkit_go.Vos.Money.{Money}
use devkit_go.Vos.Money.Arithmetic
use devkit_go.Vos.Money.Arithmetic.{add-exactly, subtract-exactly, subtract-add, add-negate}
use devkit_go.Vos.Money.Scaling.{multiply-exactly}
use devkit_go.Vos.Percentage
use devkit_go.Vos.Percentage.{Percentage}
use devkit_go.Vos.Percentage.Arithmetic as Rates
use devkit_go.Vos.Percentage.Arithmetic.{
  percentage_add-exactly, percentage_subtract-exactly, scan-IsValid, scan-stored_value,
}

abbrev ten : Money
ten = record { cents = pos 1000; currency = brl }

abbrev three : Money
three = record { cents = pos 300; currency = brl }

abbrev debt : Money
debt = record { cents = negsuc 300; currency = brl }

abbrev dollars : Money
dollars = record { cents = pos 300; currency = codes "USD" }

abbrev half : Percentage
half = record { value = pos 50000 }

abbrev tax : Percentage
tax = record { value = pos 12345 }

ten-IsValid : Arithmetic.IsValid ten
unfolding is_valid
ten-IsValid = record { known = refl; bounded = omega arith }

three-IsValid : Arithmetic.IsValid three
unfolding is_valid
three-IsValid = record { known = refl; bounded = omega arith }

half-IsValid : Rates.IsValid half
half-IsValid = record { bounded = omega arith }

tax-IsValid : Rates.IsValid tax
tax-IsValid = record { bounded = omega arith }

-- Numbers that stand for floats, with no fraction.
abbrev whole_floats : Float64
whole_floats = record {
  Carrier = ℤ;
  is_nan = λ x. false;
  is_inf = λ x. false;
  times = λ x n. x *ℤ pos n;
  over = λ x n. trunc_quo x (pos n);
  round = λ x. x;
  to_int64 = λ x. x;
  of_int64 = λ x. x;
  parse_float = λ s. none;
}

add-exactly_example : Money.add ten three ≡ Arithmetic.exactly (pos 1300) ten three
unfolding ◌+ℤ◌
add-exactly_example = add-exactly ten three ten-IsValid three-IsValid

abbrev thirteen : Money
thirteen = record { cents = pos 1300; currency = brl }

ten_and_three : Money.add ten three ≡ ok thirteen
unfolding Money.add devkit_go.Prelude.Text.text_eq devkit_go.Prelude.Int64.sub64
    devkit_go.Prelude.Int64.wrap64 ◌-ℤ◌ devkit_go.Prelude.Int64.add64 ◌+ℤ◌
ten_and_three = refl

multiply-exactly_example :
    Money.multiply ten (negsuc 2) ≡ ok (record { cents = negsuc 2999; currency = brl })
unfolding ◌*ℤ◌
multiply-exactly_example =
    multiply-exactly ten (negsuc 2) ten-IsValid (omega arith) (λ h. ground arith)

abbrev seven : Money
seven = record { cents = pos 700; currency = brl }

ten_less_three : Money.subtract ten three ≡ ok seven
unfolding Money.subtract devkit_go.Prelude.Text.text_eq devkit_go.Prelude.Int64.add64
    devkit_go.Prelude.Int64.wrap64 ◌+ℤ◌ devkit_go.Prelude.Int64.sub64 ◌-ℤ◌
ten_less_three = refl

scanned : Percentage.scan whole_floats (DbValue.int64 (pos 50000)) ≡ ok half
unfolding Percentage.scan Percentage.new_percentage
scanned = refl
