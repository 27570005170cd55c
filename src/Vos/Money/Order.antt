-- ===== src/Vos/Money/Order.antt =====
-- The comparisons of pkg/vos/money.go.
use devkit_go.Prelude.{◌≡◌, ◌≢◌, ◌⊎◌, ◌↔◌, true, false, not, arith, ok}
use devkit_go.Prelude.Int.{◌-ℤ◌}
use devkit_go.Prelude.Text.{text_eq_iff}
use devkit_go.Vos.Money.{
  Money, equals, greater_than, less_than, greater_than_or_equal, less_than_or_equal, subtract,
  is_negative, is_positive, is_zero,
}
use devkit_go.Vos.Money.Arithmetic.{IsValid, subtract-exactly}

-- `equals` decides equality.
pub equals_iff : (m n : Money) → (equals m n ≡ true) ↔ (m ≡ n)
unfolding equals
equals_iff m n = ground (arith, text_eq_iff m.currency n.currency)

-- In one currency exactly one of less, equal and greater holds, and the weak comparisons are the
-- negations of the strict ones.
pub trichotomy :
    (m n : Money)
    → m.currency ≡ n.currency
    → (((less_than m n ≡ true) × (m ≢ n) × (greater_than m n ≡ false))
        ⊎ ((less_than m n ≡ false) × (m ≡ n) × (greater_than m n ≡ false))
        ⊎ ((less_than m n ≡ false) × (m ≢ n) × (greater_than m n ≡ true)))
      × (less_than_or_equal m n ≡ not (greater_than m n))
      × (greater_than_or_equal m n ≡ not (less_than m n))
unfolding less_than greater_than less_than_or_equal greater_than_or_equal
trichotomy m n h = ground (arith, text_eq_iff m.currency n.currency)

-- Between two currencies every comparison is false.
pub incomparable :
    (m n : Money)
    → m.currency ≢ n.currency
    → (less_than m n ≡ false)
      × (greater_than m n ≡ false)
      × (less_than_or_equal m n ≡ false)
      × (greater_than_or_equal m n ≡ false)
      × (equals m n ≡ false)
unfolding less_than greater_than less_than_or_equal greater_than_or_equal equals
incomparable m n h = ground (arith, text_eq_iff m.currency n.currency)

-- The sign of the difference of two valid amounts, if there is one, tells how they compare.
pub less_than-subtract :
    (m n : Money) {d : Money}
    → IsValid m
    → IsValid n
    → subtract m n ≡ ok d
    → (less_than m n ≡ is_negative d)
      × (greater_than m n ≡ is_positive d)
      × (equals m n ≡ is_zero d)
unfolding less_than greater_than equals is_negative is_positive is_zero ◌-ℤ◌
less_than-subtract m n v w h = ground (arith, subtract-exactly m n v w)
