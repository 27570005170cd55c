-- ===== src/Vos/Percentage/Scaling.antt =====
-- Products and quotients of pkg/vos/percentage.go, and the percentage of an amount.
use native.Mathlib.Nat.{div-le_self, le-div_iff_mul-le}
use devkit_go.Prelude.{
  ℕ, zero, suc, ◌-◌, ◌*◌, ◌/◌, ◌^◌, ◌≤◌, ◌<◌, ◌≡◌, ◌≢◌, arith, leb, Bool-cases, inl, inr,
  if◌then◌else◌, ok, err,
}
use devkit_go.Prelude.Int.{ℤ, eqb_ℤ, eqb_ℤ_iff, pos, negsuc, nat_abs, sub_ℕ, ◌*ℤ◌}
use devkit_go.Prelude.Int64.{
  IsInt64, max_int64, wrap64, wrap64_lem, mul64, trunc_quo, quo64, abs64_lem, nat_abs-*ℤ,
  nat_abs-trunc_quo, IsInt64-le,
}
use devkit_go.Vos.{Error, overflow}
use devkit_go.Vos.Money.{Money, new_money}
use devkit_go.Vos.Money.Arithmetic
use devkit_go.Vos.Percentage.{
  Percentage, max_percentage_value, min_percentage_value, multiply, check_product, apply,
}
use devkit_go.Vos.Percentage.Arithmetic.{IsValid, exactly}

-- The quotients that the check of `Multiply` compares with.
limits :
    (f : ℕ)
    → (quo64 {E = Error} max_percentage_value (pos (suc f)) ≡ ok (pos (2 ^ 53 / suc f)))
      × (quo64 {E = Error} min_percentage_value (pos (suc f)) ≡ ok (sub_ℕ 0 (2 ^ 53 / suc f)))
      × (quo64 {E = Error} max_percentage_value (negsuc f) ≡ ok (sub_ℕ 0 (2 ^ 53 / suc f)))
      × (quo64 {E = Error} min_percentage_value (negsuc f) ≡ ok (pos (2 ^ 53 / suc f)))
unfolding quo64 trunc_quo
limits f = ground (
  arith,
  wrap64_lem (pos (2 ^ 53 / suc f)),
  wrap64_lem (sub_ℕ 0 (2 ^ 53 / suc f)),
  div-le_self (2 ^ 53) (suc f),
)

-- The product of a valid percentage by an int64 factor that is not negative is exact, or it is refused
-- because the exact product is out of range.
pub percentage_multiply-exactly :
    (p : Percentage) (f : ℕ)
    → IsValid p
    → f < 2 ^ 63
    → multiply p (pos f) ≡ exactly (p.value *ℤ pos f)
unfolding multiply mul64 ◌*ℤ◌ wrap64
percentage_multiply-exactly p zero v h = ground arith
percentage_multiply-exactly p (suc f) v h = ground (
  arith,
  limits f,
  nat_abs-*ℤ p.value (pos (suc f)),
  wrap64_lem (p.value *ℤ pos (suc f)),
  IsInt64-le (p.value *ℤ pos (suc f)) {b = 2 ^ 53},
  le-div_iff_mul-le {k = suc f} {x = nat_abs p.value} {y = 2 ^ 53} (omega arith),
)

-- A percentage other than 0 times a negative int64 factor is refused as an overflow, however small the
-- product is.
pub multiply-negative :
    (p : Percentage) (f : ℕ)
    → suc f ≤ 2 ^ 63
    → p.value ≢ pos 0
    → multiply p (negsuc f) ≡ err overflow
unfolding multiply
multiply-negative p f h k = ground (arith, limits f)

check_product-limit :
    (n : ℕ) → 0 < n → n ≤ 2 ^ 53 → quo64 {E = Error} max_int64 (pos n) ≡ ok (pos ((2 ^ 63 - 1) / n))
unfolding quo64 trunc_quo
check_product-limit n h k =
    ground (arith, wrap64_lem (pos ((2 ^ 63 - 1) / n)), div-le_self (2 ^ 63 - 1) n)

-- The check of `Apply` is that the exact product is an int64.
check_product-exactly :
    (c p : ℤ)
    → nat_abs c ≤ 2 ^ 53
    → nat_abs p ≤ 2 ^ 53
    → check_product c p ≡ (if leb (nat_abs c * nat_abs p) (2 ^ 63 - 1) then ok tt else err overflow)
unfolding check_product
check_product-exactly c p h k = elim (Bool-cases (eqb_ℤ p (pos 0))) [
  | inl zero_p ↦ rw (zero_p, (eqb_ℤ_iff p (pos 0)).0 zero_p) (ground arith)
  | inr other ↦
      let positive : 0 < nat_abs p = ground arith in
      ground (
        arith,
        abs64_lem p (IsInt64-le p k (omega arith)),
        abs64_lem c (IsInt64-le c h (omega arith)),
        check_product-limit (nat_abs p) positive k,
        le-div_iff_mul-le {k = nat_abs p} {x = nat_abs c} {y = 2 ^ 63 - 1} positive,
      )
]

hundred_thousandth :
    (a : ℤ) → IsInt64 a → quo64 {E = Error} a (pos 100000) ≡ ok (trunc_quo a (pos 100000))
unfolding quo64
hundred_thousandth a h = ground (
  arith,
  wrap64_lem (trunc_quo a (pos 100000)),
  nat_abs-trunc_quo a (pos 100000),
  IsInt64-le (trunc_quo a (pos 100000)) {b = 2 ^ 62},
)

-- A valid percentage of a valid amount is the exact product divided by 100000 and truncated, or it is
-- refused because the exact product is no int64.
pub apply-exactly :
    (p : Percentage) (m : Money)
    → IsValid p
    → Arithmetic.IsValid m
    → apply p m ≡ (
        if leb (nat_abs (m.cents *ℤ p.value)) (2 ^ 63 - 1)
        then ok
            (record { cents = trunc_quo (m.cents *ℤ p.value) (pos 100000); currency = m.currency })
        else err overflow)
unfolding apply mul64 new_money
apply-exactly p m v w =
    let c = m.cents *ℤ p.value in
    ground (
      arith,
      check_product-exactly m.cents p.value w.bounded v.bounded,
      nat_abs-*ℤ m.cents p.value,
      wrap64_lem c,
      IsInt64-le c {b = 2 ^ 63 - 1},
      hundred_thousandth c,
      nat_abs-trunc_quo c (pos 100000),
    )
