-- ===== src/HttpServer/Chi/Calls.antt =====
-- The calls that a handler makes on its http.ResponseWriter, what net/http makes of them, and
-- pkg/http_server/chi_server/errors.go. The key of a header is in net/http's canonical form, and the
-- values of a key are one text, with a newline, which no value has, between two of them. A status
-- below 200, which net/http sends besides the final one, is taken for the final one.
use devkit_go.Prelude.{
  ℕ, ◌≡◌, refl, Bool, true, false, Option, none, some, List, [], ◌∷◌, ◌++◌, if◌then◌else◌,
}
use devkit_go.Prelude.Int.{ℤ}
use devkit_go.Prelude.Text.{Text, codes, text_eq}
use devkit_go.HttpServer.Headers.{Header}
pub use devkit_go.HttpServer.Writer.{Call, set_call, add_call, del_call, header_call, body_call}
use devkit_go.HttpServer.Problem.{ProblemDetail, problem_with, problem_from_error, FiberError}

-- The header that is being made, the status with the header as it was then, and the body.
pub record Response : Type 0 where
  pub header : Header
  pub sent : Option (ℕ × Header)
  pub body : List Text

abbrev pub no_header : Header
no_header key = none

abbrev pub new_response : Response
new_response = record { header = no_header; sent = none; body = [] }

abbrev pub assign : Text → Option Text → Header → Header
assign key value header k = if text_eq k key then value else header k

-- The values of a key with one more behind them.
abbrev pub added : Option Text → Text → Text
added none value = value
added (some values) value = values ++ 10 ∷ value

abbrev pub is_sent : Response → Bool
is_sent w = elim (w.sent) [ none ↦ false | some s ↦ true ]

-- A status is sent once, with the header of that moment.
unfoldable pub send : ℕ → Response → Response
send code w = if is_sent w then w else record w { sent = some (code, w.header) }

-- A body sends status 200 when none was sent.
unfoldable pub take : Call → Response → Response
take (set_call k v) w = record w { header = assign k (some v) w.header }
take (add_call k v) w = record w { header = assign k (some (added (w.header k) v)) w.header }
take (del_call k) w = record w { header = assign k none w.header }
take (header_call code) w = send code w
take (body_call b) w = let after = send 200 w in record after { body = after.body ++ (b ∷ []) }

unfoldable pub take_all : List Call → Response → Response
take_all [] w = w
take_all (c ∷ calls) w = take_all calls (take c w)

pub take_all-append :
    (calls more : List Call) (w : Response)
    → take_all (calls ++ more) w ≡ take_all more (take_all calls w)
unfolding take_all
take_all-append [] more w = refl
take_all-append (c ∷ calls) more w = take_all-append calls more (take c w)

-- How a handler ends; a panic has a value.
pub data Outcome : Type 0 where
  returned : Outcome
  panicked : ℕ → Outcome

-- What the telemetry of a request is finished with; `failed` tells whether an error was reported too.
pub record Report : Type 0 where
  pub status : ℕ
  pub bytes : ℤ
  pub failed : Bool

-- What a handler does with one request: its calls in order, its end, and the reports of middleware. What
-- it does rests on the request alone, not on what the writer answers.
pub record Run : Type 0 where
  pub calls : List Call
  pub outcome : Outcome
  pub reports : List Report

abbrev pub returning : List Call → Run
returning calls = record { calls = calls; outcome = returned; reports = [] }

-- `request_id` is the value in the context, empty if there is none.
pub record Request : Type 0 where
  pub method : Text
  pub path : Text
  pub origin : Text
  pub raw_request_id : Text
  pub content_length : ℤ
  pub request_id : Text

-- `encode` is the JSON of a problem with the time of day.
module _ (encode : ProblemDetail → Text) where
  abbrev pub write_problem : ProblemDetail → List Call
  write_problem p =
      set_call (codes "Content-Type") (codes "application/problem+json")
      ∷ header_call p.status
      ∷ body_call (encode p)
      ∷ []

  unfoldable pub write_error_response :
      {E : Type 0} → (E → Option FiberError) → Request → E → List Call
  write_error_response as_fiber r e =
      write_problem (problem_from_error as_fiber e r.path r.request_id)

  unfoldable pub write_status_error : Request → ℕ → Text → List Call
  write_status_error r code detail = write_problem (problem_with code detail r.path r.request_id)
