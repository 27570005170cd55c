-- ===== src/Kafka/Client/Connecting.antt =====
-- The attempts of Connect.
use devkit_go.Prelude.{
  ℕ, zero, suc, ◌+◌, ◌<◌, ◌≡◌, ◌⊎◌, inl, inr, refl, ap, ◌∙◌, subst, arith, Bool, true, false, ◌==◌,
  Bool-cases,
}
use devkit_go.Prelude.Int.{ℤ}
use devkit_go.Kafka.Client.{Attempts, connect_loop, calculate_backoff}

-- All the first `n` dials from `attempt` on fail.
abbrev pub AllFail : (ℕ → Bool) → ℕ → ℕ → Type 0
AllFail dial attempt n = (j : ℕ) → j < n → dial (attempt + j) ≡ false

-- The attempts end with the first that connects, or with the last one.
abbrev pub IsFirst : (ℕ → Bool) → ℕ → ℕ → Attempts → Type 0
IsFirst dial left attempt a =
    ((k : ℕ) × (k < left)
      × (dial (attempt + k) ≡ true)
      × (a.success ≡ true)
      × (a.made ≡ suc k)
      × AllFail dial attempt k)
    ⊎ ((a.success ≡ false) × (a.made ≡ left) × AllFail dial attempt left)

AllFail-suc :
    (dial : ℕ → Bool) (attempt n : ℕ)
    → dial attempt ≡ false
    → AllFail dial (suc attempt) n
    → AllFail dial attempt (suc n)
AllFail-suc dial attempt n failed later zero h = subst (λ t. dial t ≡ false) (omega arith) failed
AllFail-suc dial attempt n failed later (suc j) h =
    subst (λ t. dial t ≡ false) (omega arith) (later j (omega (arith, h)))

IsFirst-suc :
    (dial : ℕ → Bool) (left attempt : ℕ) (a b : Attempts)
    → dial attempt ≡ false
    → b.success ≡ a.success
    → b.made ≡ suc a.made
    → IsFirst dial left (suc attempt) a
    → IsFirst dial (suc left) attempt b
IsFirst-suc dial left attempt a b failed s m (inl (k, lt, hit, won, count, before)) = inl (
  suc k,
  omega (arith, lt),
  subst (λ t. dial t ≡ true) (omega arith) hit,
  s ∙ won,
  m ∙ ap suc count,
  AllFail-suc dial attempt k failed before,
)
IsFirst-suc dial left attempt a b failed s m (inr (lost, count, all)) =
    inr (s ∙ lost, m ∙ ap suc count, AllFail-suc dial attempt left failed all)

-- Attempts are made until the first that connects, and no more; or all that are left are made and fail.
pub connect_loop-IsFirst :
    (dial : ℕ → Bool) (max : ℤ) (left attempt : ℕ) (backoff : ℤ)
    → IsFirst dial left attempt (connect_loop dial max left attempt backoff)
unfolding connect_loop
connect_loop-IsFirst dial max zero attempt backoff =
    inr (refl, refl, λ j h. absurd (omega (arith, h)))
connect_loop-IsFirst dial max (suc left) attempt backoff = elim (Bool-cases (dial attempt)) [
  | inl hit ↦ inl (
    0,
    omega arith,
    subst (λ t. dial t ≡ true) (omega arith) hit,
    ground arith,
    ground arith,
    λ j h. absurd (omega (arith, h)),
  )
  | inr failed ↦ elim (Bool-cases (attempt == 0)) [
    | inl start ↦
        IsFirst-suc dial left attempt (connect_loop dial max left (suc attempt) backoff)
          (connect_loop dial max (suc left) attempt backoff) failed (ground arith) (ground arith)
          (connect_loop-IsFirst dial max left (suc attempt) backoff)
    | inr later ↦
        IsFirst-suc dial left attempt
          (connect_loop dial max left (suc attempt) (calculate_backoff backoff max))
          (connect_loop dial max (suc left) attempt backoff) failed (ground arith) (ground arith)
          (connect_loop-IsFirst dial max left (suc attempt) (calculate_backoff backoff max))
  ]
]
