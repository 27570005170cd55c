-- ===== src/HttpServer/Health.antt =====
-- pkg/http_server/common/health.go: the results of the checks, in the order in which they end. Each
-- check ends once; `none` is one that did not begin before the time ran out.
use devkit_go.Prelude.{
  ◌≡◌, refl, arith, Bool, true, false, not, ◌||◌, List, [], ◌∷◌, ◌++◌, if◌then◌else◌, map,
  append_assoc, append-nil, sym, ◌∙◌,
}
use devkit_go.Prelude.Text.{Text, codes}

pub record CheckResult : Type 0 where
  pub healthy : Bool
  pub error : Text

-- What a check gives: the text of its error, if any.
pub data Ending : Type 0 where
  timed_out passed : Ending
  failed : Text → Ending

unfoldable pub result_of : Ending → CheckResult
result_of timed_out = record { healthy = false; error = codes "timeout" }
result_of passed = record { healthy = true; error = [] }
result_of (failed e) = record { healthy = false; error = e }

abbrev pub is_error : Ending → Bool
is_error passed = false
is_error _ = true

-- The map of results, as its entries, and the flag.
pub record HealthResults : Type 0 where
  pub results : List (Text × CheckResult)
  pub has_errors : Bool

-- What one goroutine does under the mutex.
unfoldable pub record_check : Text → Ending → HealthResults → HealthResults
record_check name ending h = record {
  results = h.results ++ ((name, result_of ending) ∷ []);
  has_errors = if is_error ending then true else h.has_errors;
}

unfoldable pub record_all : List (Text × Ending) → HealthResults → HealthResults
record_all [] h = h
record_all ((name, ending) ∷ rest) h = record_all rest (record_check name ending h)

unfoldable pub execute_health_checks : List (Text × Ending) → HealthResults
execute_health_checks endings = record_all endings (record { results = []; has_errors = false })

abbrev pub ended : Text × Ending → Text × CheckResult
ended (name, ending) = (name, result_of ending)

-- Is one of the results unhealthy?
unfoldable pub any_unhealthy : List (Text × CheckResult) → Bool
any_unhealthy [] = false
any_unhealthy ((name, r) ∷ rest) = not r.healthy || any_unhealthy rest

unhealthy_error : (ending : Ending) → is_error ending ≡ not (result_of ending).healthy
unfolding result_of
unhealthy_error timed_out = refl
unhealthy_error passed = refl
unhealthy_error (failed e) = refl

any_unhealthy-append :
    (xs ys : List (Text × CheckResult))
    → any_unhealthy (xs ++ ys) ≡ any_unhealthy xs || any_unhealthy ys
unfolding any_unhealthy
any_unhealthy-append [] ys = refl
any_unhealthy-append ((name, r) ∷ xs) ys = ground (arith, any_unhealthy-append xs ys)

record_all_complete :
    (endings : List (Text × Ending)) (h : HealthResults)
    → h.has_errors ≡ any_unhealthy h.results
    → let after = record_all endings h in
      (after.results ≡ h.results ++ map ended endings)
      × (after.has_errors ≡ any_unhealthy after.results)
unfolding record_all record_check any_unhealthy
record_all_complete [] h e = (sym (append-nil h.results), e)
record_all_complete ((name, ending) ∷ rest) h e =
    let one = any_unhealthy-append h.results ((name, result_of ending) ∷ []) in
    let later =
      record_all_complete rest (record_check name ending h)
        (ground (arith, e, one, unhealthy_error ending)) in
    (later.0 ∙ append_assoc h.results ((name, result_of ending) ∷ []) (map ended rest), later.1)

-- Every check has its result, and the flag tells whether one of the results is unhealthy.
pub execute_health_checks_complete :
    (endings : List (Text × Ending))
    → let after = execute_health_checks endings in
      (after.results ≡ map ended endings) × (after.has_errors ≡ any_unhealthy after.results)
unfolding execute_health_checks any_unhealthy
execute_health_checks_complete endings =
    record_all_complete endings (record { results = []; has_errors = false }) refl
