-- ===== src/HttpClient/Retry/Tests.antt =====
-- The theorems on retries with a server that fails twice.
use devkit_go.Prelude.{◌≡◌, refl, [], none, some, leb, if◌then◌else◌}
use devkit_go.Prelude.Int.{ℤ, pos}
use devkit_go.Prelude.Text.{codes}
use devkit_go.HttpClient.Retry.{Transport, Ended, default_retry_policy, attempt_loop}
use devkit_go.HttpClient.Retry.Attempts.{IsLast, attempt_loop-ends}
use devkit_go.HttpClient.Retry.Backoff.{IsBelow}

abbrev flaky : Transport
flaky = record {
  max_attempts = 5;
  policy = default_retry_policy;
  send =
      λ attempt body. record { error = none; status = some (if leb attempt 2 then 503 else 200) };
  context_error = λ attempt. none;
  sleep_error = λ attempt. none;
}

attempt_loop-ends_example :
    (ended : Ended) × (attempt_loop flaky (some (codes "body")) 6 1 [] ≡ some ended)
    × IsLast flaky (some (codes "body")) 1 ended
attempt_loop-ends_example = attempt_loop-ends flaky (some (codes "body")) []

abbrev least : ℤ → ℤ
least n = pos 0

least-IsBelow : IsBelow least
least-IsBelow n h = (0, refl, h)
