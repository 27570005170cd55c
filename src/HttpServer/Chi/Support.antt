-- ===== src/HttpServer/Chi/Support.antt =====
-- pkg/http_server/chi_server/health.go: the handlers of the support endpoints, given how the checks end.
-- `encode_status` is the JSON of a status with the time of day.
use devkit_go.Prelude.{List, [], ◌∷◌, if◌then◌else◌}
use devkit_go.Prelude.Text.{Text, codes}
use devkit_go.HttpServer.Config.{Config}
use devkit_go.HttpServer.Health.{Ending, CheckResult, execute_health_checks}
use devkit_go.HttpServer.Chi.Calls.{set_call, header_call, body_call, returning}
use devkit_go.HttpServer.Chi.Middleware.{Handler}

pub record HealthStatus : Type 0 where
  pub status : Text
  pub service : Text
  pub version : Text
  pub environment : Text
  pub checks : List (Text × CheckResult)

unfoldable pub health_handler : (HealthStatus → Text) → Config → List (Text × Ending) → Handler
health_handler encode_status config endings r =
    let after = execute_health_checks endings in
    let health : HealthStatus = record {
      status = if after.has_errors then codes "unhealthy" else codes "healthy";
      service = config.service_name;
      version = config.service_version;
      environment = config.environment;
      checks = after.results;
    } in
    returning (
      set_call (codes "Content-Type") (codes "application/json")
      ∷ header_call (if after.has_errors then 503 else 200)
      ∷ body_call (encode_status health)
      ∷ [])

unfoldable pub ready_handler : List (Text × Ending) → Handler
ready_handler endings r =
    if (execute_health_checks endings).has_errors
    then returning (header_call 503 ∷ body_call (codes "Service Unavailable") ∷ [])
    else returning (header_call 200 ∷ body_call (codes "OK") ∷ [])

unfoldable pub live_handler : Handler
live_handler r = returning (header_call 200 ∷ body_call (codes "OK") ∷ [])
