-- ===== src/HttpServer/Problem.antt =====
-- pkg/http_server/common/problem.go and errors.go, but for the time.
use devkit_go.Prelude.{ℕ, ◌≡◌, arith, ◌==◌, Option, none, some, ◌++◌, if◌then◌else◌}
use devkit_go.Prelude.Text.{Text, codes}
use devkit_go.Prelude.Decimal.{format_nat}

-- What `errors.As` finds: the code and the message of a fiber.Error.
pub record FiberError : Type 0 where
  pub code : ℕ
  pub message : Text

pub record ProblemDetail : Type 0 where
  pub problem_type : Text
  pub title : Text
  pub status : ℕ
  pub detail : Text
  pub instance_uri : Text
  pub request_id : Text

unfoldable pub get_status_text : ℕ → Text
get_status_text code =
    if code == 400
    then codes "Bad Request"
    else if code == 401
    then codes "Unauthorized"
    else if code == 403
    then codes "Forbidden"
    else if code == 404
    then codes "Not Found"
    else if code == 405
    then codes "Method Not Allowed"
    else if code == 408
    then codes "Request Timeout"
    else if code == 409
    then codes "Conflict"
    else if code == 422
    then codes "Unprocessable Entity"
    else if code == 413
    then codes "Request Entity Too Large"
    else if code == 429
    then codes "Too Many Requests"
    else if code == 500
    then codes "Internal Server Error"
    else if code == 501
    then codes "Not Implemented"
    else if code == 502
    then codes "Bad Gateway"
    else if code == 503
    then codes "Service Unavailable"
    else if code == 504
    then codes "Gateway Timeout"
    else codes "Error"

unfoldable pub problem_type_uri : ℕ → Text
problem_type_uri code = codes "https://httpstatuses.com/" ++ format_nat code

abbrev pub problem_with : ℕ → Text → Text → Text → ProblemDetail
problem_with code detail uri request_id = record {
  problem_type = problem_type_uri code;
  title = get_status_text code;
  status = code;
  detail = detail;
  instance_uri = uri;
  request_id = request_id;
}

-- `E` is an error, and `as_fiber` is `errors.As`.
unfoldable pub problem_from_error :
    {E : Type 0} → (E → Option FiberError) → E → Text → Text → ProblemDetail
problem_from_error as_fiber e uri request_id = elim (as_fiber e) [
  | some f ↦ problem_with f.code f.message uri request_id
  | none ↦ problem_with 500 (codes "internal server error") uri request_id
]

-- Errors that no framework made give one and the same answer: nothing of them is told.
pub problem_from_error-hides :
    {E : Type 0} (as_fiber : E → Option FiberError) (e e' : E) (uri request_id : Text)
    → as_fiber e ≡ none
    → as_fiber e' ≡ none
    → problem_from_error as_fiber e uri request_id ≡ problem_from_error as_fiber e' uri request_id
unfolding problem_from_error
problem_from_error-hides as_fiber e e' uri request_id h h' = ground arith
