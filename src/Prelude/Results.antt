-- ===== src/Prelude/Results.antt =====
-- What a Go call that returns `(A, error)` gives: a value, an error, or a run-time panic.
use mathlib.Core.Path.{◌≡◌, refl}
use mathlib.Core.Bool.{Bool, true, false}
use mathlib.Core.Logic.{◌⊎◌, inl, inr}

pub data Result {ℓ κ} (E : Type ℓ) (A : Type κ) : Type (ℓ ⊔ κ) where
  ok : A → Result E A
  err : E → Result E A
  panic : Result E A

-- To split on a computed result and keep the equation.
pub Result-cases {ℓ κ} :
    {E : Type ℓ} {A : Type κ} (r : Result E A)
    → ((a : A) × (r ≡ ok a)) ⊎ (((e : E) × (r ≡ err e)) ⊎ (r ≡ panic))
Result-cases (ok a) = inl (a, refl)
Result-cases (err e) = inr (inl (e, refl))
Result-cases panic = inr (inr refl)

-- `if cond { return problem }`
abbrev pub fail_if {ℓ} : {E : Type ℓ} → Bool → E → Result E (Unit {0})
fail_if false problem = ok tt
fail_if true problem = err problem

infixl 5 ◌>>=◌
abbrev pub ◌>>=◌ {κ ℓ μ} :
    {A : Type κ} {E : Type ℓ} {B : Type μ} → Result E A → (A → Result E B) → Result E B
panic >>= next = panic
err problem >>= next = err problem
ok value >>= next = next value

infixl 5 ◌>>◌
abbrev pub ◌>>◌ {κ ℓ} : {A : Type κ} {E : Type ℓ} → Result E (Unit {0}) → Result E A → Result E A
check >> next = check >>= λ passed. next

-- A chain succeeds only if its first part does, and then as the rest does.
pub ok_chain {κ ℓ μ} :
    {A : Type κ} {E : Type ℓ} {B : Type μ} (first : Result E A) (next : A → Result E B) {result : B}
    → (first >>= next) ≡ ok result
    → (value : A) × (first ≡ ok value) × (next value ≡ ok result)
ok_chain panic next done = cc
ok_chain (err problem) next done = cc
ok_chain (ok value) next done = (value, refl, done)
