-- ===== src/HttpClient/Retry/Backoff.antt =====
-- `calculateBackoff` of pkg/httpclient/transport_retry.go: how long a retry waits.
use devkit_go.Prelude.{
  ℕ, zero, suc, ◌-◌, ◌^◌, ◌<◌, ◌≡◌, arith, ltb, ◌==◌, Bool-cases, inl, inr, if◌then◌else◌,
}
use devkit_go.Prelude.Int.{ℤ, pos, negsuc, leb_ℤ}
use devkit_go.Prelude.Int64.{mul64, wrap64}
use devkit_go.HttpClient.Retry.{max_backoff, min_ℤ, calculate_backoff}

-- The documented range of `rand.Int63n`.
abbrev pub IsBelow : (ℤ → ℤ) → Type 0
IsBelow int63n = (n : ℕ) → 0 < n → (r : ℕ) × (int63n (pos n) ≡ pos r) × (r < n)

-- The wait for the product of the backoff and the power of two.
wait : (ℤ → ℤ) → ℤ → ℤ
wait int63n e =
    let exponential = min_ℤ e (pos max_backoff) in
    if leb_ℤ exponential (pos 0) then pos 0 else int63n exponential

wait_lem :
    (int63n : ℤ → ℤ) (e : ℤ)
    → IsBelow int63n
    → (r : ℕ) × (wait int63n e ≡ pos r) × (r < max_backoff)
unfolding wait
wait_lem int63n (negsuc n) below = (0, ground arith, omega arith)
wait_lem int63n (pos zero) below = (0, ground arith, omega arith)
wait_lem int63n (pos (suc n)) below = elim (Bool-cases (ltb max_backoff (suc n))) [
  | inl large ↦ let (r, e, l) = below max_backoff (omega arith) in (r, ground (arith, e), l)
  | inr small ↦ let (r, e, l) = below (suc n) (omega arith) in (r, ground (arith, e), ground arith)
]

-- A retry waits at least 0 and less than 30 seconds, whatever the configured backoff and the attempt
-- are, if random numbers lie in the range that package rand documents.
pub calculate_backoff_lem :
    (int63n : ℤ → ℤ) (backoff : ℤ) (attempt : ℕ)
    → IsBelow int63n
    → (r : ℕ) × (calculate_backoff int63n backoff attempt ≡ pos r) × (r < max_backoff)
unfolding calculate_backoff
calculate_backoff_lem int63n backoff attempt below = elim (Bool-cases (attempt == 0)) [
  | inl first ↦ (0, rw first, omega arith)
  | inr later ↦
      let (r, e, l) = wait_lem int63n (mul64 backoff (wrap64 (pos (2 ^ (attempt - 1))))) below in
      (r, rw later (unfold wait in e), l)
]
