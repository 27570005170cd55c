-- ===== src/Vos/Money/Arithmetic.antt =====
-- Sums and differences of pkg/vos/money.go against exact integer arithmetic.
use devkit_go.Prelude.{
  ◌^◌, ◌≤◌, ◌≡◌, sym, ◌∙◌, true, not, arith, leb, if◌then◌else◌, Result, ok, err,
}
use devkit_go.Prelude.Int.{ℤ, pos, nat_abs, ◌+ℤ◌, ◌-ℤ◌}
use devkit_go.Prelude.Int64.{wrap64_lem, add64, sub64, neg64}
use devkit_go.Prelude.Text.{text_eq, text_eq_iff}
use devkit_go.Vos.{Error, currency_mismatch, overflow}
use devkit_go.Vos.Currency.{is_valid}
use devkit_go.Vos.Money.{
  Money, max_money_cents, min_money_cents, new_money, add, subtract, negate, abs,
}

-- What every constructor guarantees.
pub record IsValid (m : Money) : Type 0 where
  pub known : is_valid m.currency ≡ true
  pub bounded : nat_abs m.cents ≤ 2 ^ 53

-- The specification of an operation whose exact result is `n`.
abbrev pub exactly : ℤ → Money → Money → Result Error Money
exactly n m other =
    if not (text_eq m.currency other.currency)
    then err currency_mismatch
    else if leb (nat_abs n) (2 ^ 53)
    then ok (record { cents = n; currency = m.currency })
    else err overflow

add64_lem : (a b : ℤ) → nat_abs a ≤ 2 ^ 54 → nat_abs b ≤ 2 ^ 54 → add64 a b ≡ a +ℤ b
unfolding add64 ◌+ℤ◌
add64_lem a b h k = wrap64_lem (a +ℤ b) (ground arith)

sub64_lem : (a b : ℤ) → nat_abs a ≤ 2 ^ 54 → nat_abs b ≤ 2 ^ 54 → sub64 a b ≡ a -ℤ b
unfolding sub64 ◌-ℤ◌
sub64_lem a b h k = wrap64_lem (a -ℤ b) (ground arith)

-- `new_money` gives a valid amount with the cents and the currency that it is given, or an error.
pub new_money-IsValid :
    (c : ℤ) (cur : _) {m : Money} → new_money c cur ≡ ok m → IsValid m × (m.cents ≡ c)
unfolding new_money
new_money-IsValid c cur h = ground arith

-- A sum of valid amounts is exact, or it is refused: because the currencies differ, or else because
-- the exact sum is out of range.
pub add-exactly : (m n : Money) → IsValid m → IsValid n → add m n ≡ exactly (m.cents +ℤ n.cents) m n
unfolding add ◌+ℤ◌ ◌-ℤ◌
add-exactly m n v w = ground (
  arith,
  sub64_lem max_money_cents n.cents,
  sub64_lem min_money_cents n.cents,
  add64_lem m.cents n.cents,
)

-- A difference of valid amounts is exact, or it is refused: because the currencies differ, or else
-- because the exact difference is out of range.
pub subtract-exactly :
    (m n : Money) → IsValid m → IsValid n → subtract m n ≡ exactly (m.cents -ℤ n.cents) m n
unfolding subtract ◌+ℤ◌ ◌-ℤ◌
subtract-exactly m n v w = ground (
  arith,
  add64_lem max_money_cents n.cents,
  add64_lem min_money_cents n.cents,
  sub64_lem m.cents n.cents,
)

exactly-IsValid : (a : ℤ) (m n : Money) {s : Money} → IsValid m → exactly a m n ≡ ok s → IsValid s
exactly-IsValid a m n v h = ground arith

exactly-cents :
    (a : ℤ) (m n : Money) {s : Money}
    → exactly a m n ≡ ok s
    → (s.cents ≡ a) × (s.currency ≡ m.currency) × (m.currency ≡ n.currency)
exactly-cents a m n h = ground (arith, text_eq_iff m.currency n.currency)

pub add-IsValid : (m n : Money) {s : Money} → IsValid m → IsValid n → add m n ≡ ok s → IsValid s
add-IsValid m n v w h = exactly-IsValid (m.cents +ℤ n.cents) m n v (sym (add-exactly m n v w) ∙ h)

pub subtract-IsValid :
    (m n : Money) {s : Money} → IsValid m → IsValid n → subtract m n ≡ ok s → IsValid s
subtract-IsValid m n v w h =
    exactly-IsValid (m.cents -ℤ n.cents) m n v (sym (subtract-exactly m n v w) ∙ h)

-- Subtracting what was added to a valid amount, if it could be added, gives that amount back.
pub subtract-add :
    (m n : Money) {s : Money} → IsValid m → IsValid n → add m n ≡ ok s → subtract s n ≡ ok m
subtract-add m n {s} v w h =
    let (c, k, same) = exactly-cents (m.cents +ℤ n.cents) m n (sym (add-exactly m n v w) ∙ h) in
    subtract-exactly s n (add-IsValid m n v w h) w
    ∙ unfold ◌+ℤ◌ ◌-ℤ◌ in ground (arith, text_eq_iff s.currency n.currency)

pub negate-IsValid : (m : Money) → IsValid m → IsValid (negate m)
unfolding negate neg64 ◌-ℤ◌
negate-IsValid m v = ground (arith, wrap64_lem (pos 0 -ℤ m.cents))

-- A difference of valid amounts is the sum with the opposite amount, errors included.
pub add-negate : (m n : Money) → IsValid m → IsValid n → add m (negate n) ≡ subtract m n
add-negate m n v w =
    add-exactly m (negate n) v (negate-IsValid n w)
    ∙ unfold negate neg64 ◌+ℤ◌ ◌-ℤ◌ in
      ground (arith, wrap64_lem (pos 0 -ℤ n.cents)) ∙ sym (subtract-exactly m n v w)

pub abs-IsValid :
    (m : Money) → IsValid m → IsValid (abs m) × (nat_abs (abs m).cents ≡ nat_abs m.cents)
unfolding abs neg64 ◌-ℤ◌
abs-IsValid m v = ground (arith, wrap64_lem (pos 0 -ℤ m.cents))
