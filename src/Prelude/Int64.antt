-- ===== src/Prelude/Int64.antt =====
-- Go's int64: a number in [-2^63, 2^63), with operations that wrap around, and division, which
-- truncates towards zero and panics at a divisor 0.
use native.Mathlib.Nat.{div-le_self, div-add-mod'}
use devkit_go.Prelude.{
  ℕ, leb, ◌≢◌, suc, ◌+◌, ◌-◌, ◌*◌, ◌/◌, ◌%◌, ◌^◌, ◌≤◌, ◌<◌, ◌≡◌, refl, arith, ltb, if◌then◌else◌,
  Result, ok, panic,
}
use devkit_go.Prelude.Int.{
  ℤ, pos, negsuc, pos_part, neg_part, nat_abs, sub_ℕ, ◌+ℤ◌, ◌-ℤ◌, ◌*ℤ◌, eqb_ℤ, ltb_ℤ,
}

abbrev pub min_int64 : ℤ
min_int64 = negsuc (2 ^ 63 - 1)

abbrev pub max_int64 : ℤ
max_int64 = pos (2 ^ 63 - 1)

abbrev pub IsInt64 : ℤ → Type 0
IsInt64 a = (pos_part a < 2 ^ 63) × (neg_part a ≤ 2 ^ 63)

-- The int64 that has the same low 64 bits.
unfoldable pub wrap64 : ℤ → ℤ
wrap64 a =
    let r = (pos_part a + (2 ^ 64 - neg_part a % 2 ^ 64)) % 2 ^ 64 in
    if ltb r (2 ^ 63) then pos r else negsuc (2 ^ 64 - r - 1)

unfoldable pub add64 : ℤ → ℤ → ℤ
add64 a b = wrap64 (a +ℤ b)

unfoldable pub sub64 : ℤ → ℤ → ℤ
sub64 a b = wrap64 (a -ℤ b)

unfoldable pub mul64 : ℤ → ℤ → ℤ
mul64 a b = wrap64 (a *ℤ b)

unfoldable pub neg64 : ℤ → ℤ
neg64 a = wrap64 (pos 0 -ℤ a)

-- The quotient truncated towards zero, for a divisor other than 0.
unfoldable pub trunc_quo : ℤ → ℤ → ℤ
trunc_quo (pos n) (pos m) = pos (n / m)
trunc_quo (pos n) (negsuc m) = sub_ℕ 0 (n / suc m)
trunc_quo (negsuc n) (pos m) = sub_ℕ 0 (suc n / m)
trunc_quo (negsuc n) (negsuc m) = pos (suc n / suc m)

unfoldable pub quo64 {ℓ} : {E : Type ℓ} → ℤ → ℤ → Result E ℤ
quo64 a b = if eqb_ℤ b (pos 0) then panic else ok (wrap64 (trunc_quo a b))

-- The absolute value as Go code takes it, `if n < 0 { n = -n }`: the least int64 stays negative.
unfoldable pub abs64 : ℤ → ℤ
unfolding neg64
abs64 n = if ltb_ℤ n (pos 0) then neg64 n else n

pub wrap64_lem : (a : ℤ) → IsInt64 a → wrap64 a ≡ a
unfolding wrap64
wrap64_lem (pos n) h = ground arith
wrap64_lem (negsuc n) h = ground arith

pub wrap64-IsInt64 : (a : ℤ) → IsInt64 (wrap64 a)
unfolding wrap64
wrap64-IsInt64 a = ground arith

pub nat_abs-*ℤ : (a b : ℤ) → nat_abs (a *ℤ b) ≡ nat_abs a * nat_abs b
unfolding ◌*ℤ◌
nat_abs-*ℤ (pos a) (pos b) = ground arith
nat_abs-*ℤ (pos a) (negsuc b) = ground arith
nat_abs-*ℤ (negsuc a) (pos b) = ground arith
nat_abs-*ℤ (negsuc a) (negsuc b) = ground arith

pub nat_abs-trunc_quo : (a b : ℤ) → nat_abs (trunc_quo a b) ≡ nat_abs a / nat_abs b
unfolding trunc_quo
nat_abs-trunc_quo (pos n) (pos m) = refl
nat_abs-trunc_quo (pos n) (negsuc m) = ground arith
nat_abs-trunc_quo (negsuc n) (pos m) = ground arith
nat_abs-trunc_quo (negsuc n) (negsuc m) = refl

pub nat_abs-trunc_quo-le : (a b : ℤ) → nat_abs (trunc_quo a b) ≤ nat_abs a
nat_abs-trunc_quo-le a b = omega (arith, nat_abs-trunc_quo a b, div-le_self (nat_abs a) (nat_abs b))

-- The absolute value of every int64 but the least, which is left as it is.
pub abs64_lem :
    (a : ℤ)
    → IsInt64 a
    → abs64 a ≡ (if leb (2 ^ 63) (nat_abs a) then min_int64 else pos (nat_abs a))
unfolding abs64 wrap64 ◌-ℤ◌
abs64_lem a h = ground arith

pub nat_abs-pos : (f : ℤ) → f ≢ pos 0 → 0 < nat_abs f
nat_abs-pos f k = ground arith

pub IsInt64-le : (a : ℤ) {b : ℕ} → nat_abs a ≤ b → b < 2 ^ 63 → IsInt64 a
IsInt64-le (pos n) h k = omega arith
IsInt64-le (negsuc n) h k = omega arith

-- The remainder that belongs to the truncated quotient: it has the sign of the dividend.
unfoldable pub trunc_rem : ℤ → ℤ → ℤ
trunc_rem (pos n) d = pos (n % nat_abs d)
trunc_rem (negsuc n) d = sub_ℕ 0 (suc n % nat_abs d)

pub quo-rem :
    (a d : ℤ)
    → d ≢ pos 0
    → (a ≡ trunc_quo a d *ℤ d +ℤ trunc_rem a d) × (nat_abs (trunc_rem a d) < nat_abs d)
unfolding trunc_quo trunc_rem ◌*ℤ◌ ◌+ℤ◌
quo-rem (pos n) (pos d) k = ground (arith, div-add-mod' n d)
quo-rem (pos n) (negsuc d) k = ground (arith, div-add-mod' n (suc d))
quo-rem (negsuc n) (pos d) k = ground (arith, div-add-mod' (suc n) d)
quo-rem (negsuc n) (negsuc d) k = ground (arith, div-add-mod' (suc n) (suc d))

quo64_examples :
    (quo64 {E = Unit {0}} (negsuc 6) (pos 2) ≡ ok (negsuc 2))
    × (quo64 {E = Unit {0}} min_int64 (negsuc 0) ≡ ok min_int64)
    × (quo64 {E = Unit {0}} (pos 1) (pos 0) ≡ panic)
unfolding quo64 trunc_quo wrap64
quo64_examples = (refl, refl, refl)
