-- ===== src/Vos/Percentage/Arithmetic.antt =====
-- Sums, differences and the entry points of pkg/vos/percentage.go.
use devkit_go.Prelude.{◌^◌, ◌≤◌, ◌≡◌, arith, leb, if◌then◌else◌, Result, ok, err}
use devkit_go.Prelude.Int.{ℤ, nat_abs, ◌+ℤ◌, ◌-ℤ◌}
use devkit_go.Prelude.Int64.{wrap64_lem, add64, sub64}
use devkit_go.Vos.{Error, overflow}
use devkit_go.Vos.Float.{Float64, DbValue}
use devkit_go.Vos.Percentage.{
  Percentage, max_percentage_value, min_percentage_value, new_percentage, add, subtract, scan,
  stored_value,
}

pub record IsValid (p : Percentage) : Type 0 where
  pub bounded : nat_abs p.value ≤ 2 ^ 53

-- The specification of an operation whose exact result is `n`.
abbrev pub exactly : ℤ → Result Error Percentage
exactly n = if leb (nat_abs n) (2 ^ 53) then ok (record { value = n }) else err overflow

-- A sum of valid percentages is exact, or it is refused because the exact sum is out of range.
pub percentage_add-exactly :
    (p q : Percentage) → IsValid p → IsValid q → add p q ≡ exactly (p.value +ℤ q.value)
unfolding add add64 sub64 ◌+ℤ◌ ◌-ℤ◌
percentage_add-exactly p q v w = ground (
  arith,
  wrap64_lem (max_percentage_value -ℤ q.value),
  wrap64_lem (min_percentage_value -ℤ q.value),
  wrap64_lem (p.value +ℤ q.value),
)

-- A difference of valid percentages is exact, or it is refused because the exact difference is out of
-- range.
pub percentage_subtract-exactly :
    (p q : Percentage) → IsValid p → IsValid q → subtract p q ≡ exactly (p.value -ℤ q.value)
unfolding subtract add64 sub64 ◌+ℤ◌ ◌-ℤ◌
percentage_subtract-exactly p q v w = ground (
  arith,
  wrap64_lem (max_percentage_value +ℤ q.value),
  wrap64_lem (min_percentage_value +ℤ q.value),
  wrap64_lem (p.value -ℤ q.value),
)

-- Whatever the database holds, `Scan` gives a valid percentage or an error.
pub scan-IsValid :
    (F : Float64) (v : DbValue F.Carrier) {p : Percentage} → scan F v ≡ ok p → IsValid p
unfolding scan new_percentage
scan-IsValid F DbValue.null h = cc
scan-IsValid F (DbValue.int64 v) h = ground arith
scan-IsValid F (DbValue.float64 v) h = ground arith
scan-IsValid F (DbValue.string v) h = ground arith
scan-IsValid F (DbValue.bytes v) h = ground arith
scan-IsValid F DbValue.other h = cc

-- A valid percentage is read back from what the database holds.
pub scan-stored_value :
    (F : Float64) (p : Percentage) → IsValid p → scan F (stored_value F p) ≡ ok p
unfolding scan stored_value new_percentage
scan-stored_value F p v = ground arith
