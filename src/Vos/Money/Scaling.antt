-- ===== src/Vos/Money/Scaling.antt =====
-- Products and quotients of pkg/vos/money.go against exact integer arithmetic.
use native.Mathlib.Nat.{div-le_self, le-div_iff_mul-le}
use devkit_go.Prelude.{
  ℕ, ◌/◌, ◌^◌, ◌≤◌, ◌<◌, ◌≡◌, ◌≢◌, refl, ap, arith, Bool-cases, inl, inr, leb, if◌then◌else◌, ok,
  err, panic,
}
use devkit_go.Prelude.Int.{ℤ, pos, nat_abs, ◌+ℤ◌, ◌-ℤ◌, ◌*ℤ◌}
use devkit_go.Prelude.Int64.{
  IsInt64, wrap64, wrap64_lem, mul64, trunc_quo, quo64, nat_abs-*ℤ, abs64, abs64_lem, nat_abs-pos,
  IsInt64-le, trunc_rem, quo-rem, nat_abs-trunc_quo-le,
}
use devkit_go.Vos.{Error, overflow}
use devkit_go.Vos.Money.{Money, max_money_cents, multiply, divide}
use devkit_go.Vos.Money.Arithmetic.{IsValid}

-- The quotient `max_money_cents / |factor|` of the overflow check, for a factor other than 0.
limit : ℤ → ℕ
limit f = 2 ^ 53 / nat_abs f

quo64-limit :
    (f : ℤ)
    → IsInt64 f
    → f ≢ pos 0
    → quo64 {E = Error} max_money_cents (abs64 f) ≡ ok (pos (limit f))
unfolding quo64 limit trunc_quo wrap64
quo64-limit f h k = elim (Bool-cases (leb (2 ^ 63) (nat_abs f))) [
  | inl least ↦ rw (abs64_lem f h, least) (ap ok (ap pos (ground arith)))
  | inr less ↦
      rw (abs64_lem f h, less)
        (ground (arith, wrap64_lem (pos (2 ^ 53 / nat_abs f)), div-le_self (2 ^ 53) (nat_abs f)))
]

-- The check of the code is the check of the exact product.
check-product :
    (c : ℤ) (f : ℤ)
    → nat_abs c ≤ 2 ^ 53
    → f ≢ pos 0
    → leb (nat_abs c) (limit f) ≡ leb (nat_abs (c *ℤ f)) (2 ^ 53)
unfolding limit
check-product c f h k =
    rw (nat_abs-*ℤ c f)
      (ground (arith, le-div_iff_mul-le {x = nat_abs c} {y = 2 ^ 53} (nat_abs-pos f k)))

-- The product of a valid amount by an int64 other than 0 is exact, or it is refused because the exact
-- product is out of range.
pub multiply-exactly :
    (m : Money) (f : ℤ)
    → IsValid m
    → IsInt64 f
    → f ≢ pos 0
    → multiply m f ≡ (
        if leb (nat_abs (m.cents *ℤ f)) (2 ^ 53)
        then ok (record { cents = m.cents *ℤ f; currency = m.currency })
        else err overflow)
unfolding multiply mul64
multiply-exactly m f v h k =
    let small : IsInt64 m.cents = IsInt64-le m.cents v.bounded (omega arith) in
    rw (quo64-limit f h k, ← check-product m.cents f v.bounded k)
      (ground (
        arith,
        abs64_lem m.cents small,
        check-product m.cents f v.bounded k,
        wrap64_lem (m.cents *ℤ f),
        IsInt64-le (m.cents *ℤ f) {b = 2 ^ 53},
      ))

-- A product by 0 panics, whatever the amount.
pub multiply-zero : (m : Money) → multiply m (pos 0) ≡ panic
unfolding multiply quo64 abs64 wrap64 ◌-ℤ◌
multiply-zero m = refl

-- The quotient of a valid amount by anything but 0 is given, is valid, and is exact up to a remainder
-- below the divisor.
pub divide-exactly :
    (m : Money) (d : ℤ)
    → IsValid m
    → d ≢ pos 0
    → let q = trunc_quo m.cents d in
      (divide m d ≡ ok (record { cents = q; currency = m.currency }))
      × IsValid (record { cents = q; currency = m.currency })
      × (m.cents ≡ q *ℤ d +ℤ trunc_rem m.cents d)
      × (nat_abs (trunc_rem m.cents d) < nat_abs d)
unfolding divide quo64
divide-exactly m d v k =
    let small : nat_abs (trunc_quo m.cents d) ≤ 2 ^ 53 =
      omega (arith, nat_abs-trunc_quo-le m.cents d, v.bounded) in
    let (eq, lt) = quo-rem m.cents d k in
    (
      ground (arith, wrap64_lem (trunc_quo m.cents d), IsInt64-le (trunc_quo m.cents d) small),
      record { known = v.known; bounded = small },
      eq,
      lt,
    )
