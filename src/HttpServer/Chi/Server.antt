-- ===== src/HttpServer/Chi/Server.antt =====
-- pkg/http_server/chi_server/options.go, server.go and handler.go. Logs are left out, and so is the router
-- of chi but for the handlers that are put on it.
pub mod Setting
pub mod Made
pub mod Lifecycle
use devkit_go.Prelude.{
  ℕ, Bool, true, false, not, ◌||◌, ◌&&◌, Option, none, some, List, [], ◌∷◌, ◌++◌, if◌then◌else◌,
  Result, ok, err, panic,
}
use devkit_go.Prelude.Int.{ℤ, pos, leb_ℤ}
use devkit_go.Prelude.Text.{Text, codes, text_eq, has_prefix}
use devkit_go.HttpServer.Origins.{parse_origins, OriginsError}
use devkit_go.HttpServer.Config.{Config, default_config, ConfigError, validate}
use devkit_go.HttpServer.Problem.{ProblemDetail, FiberError, problem_from_error}
use devkit_go.HttpServer.Chi.Calls.{
  Call, Outcome, returned, panicked, Run, Request, write_problem, write_status_error, Report,
}
use devkit_go.HttpServer.Chi.Timeout.{
  Event, called, finished, received, deadline, answered, drained, steps, new_race, Race, Waiter,
  raised,
}
use devkit_go.HttpServer.Chi.Middleware.{Handler}
use devkit_go.HttpServer.Chi.Chain.{Setup, serve}

-- The turns that the scheduler and the clock give: to the handler, and to the goroutine of the request.
pub data Turn : Type 0 where
  handler_goes receives expires answers drains : Turn

unfoldable pub events_of : List Turn → List Call → Outcome → List Event
events_of [] calls o = []
events_of (handler_goes ∷ turns) [] o = finished o ∷ events_of turns [] o
events_of (handler_goes ∷ turns) (c ∷ calls) o = called c ∷ events_of turns calls o
events_of (receives ∷ turns) calls o = received ∷ events_of turns calls o
events_of (expires ∷ turns) calls o = deadline ∷ events_of turns calls o
events_of (answers ∷ turns) calls o = answered ∷ events_of turns calls o
events_of (drains ∷ turns) calls o = drained ∷ events_of turns calls o

abbrev pub raised_outcome : Waiter → Outcome
raised_outcome (raised p) = panicked p
raised_outcome _ = returned

-- The first middleware is the outermost.
unfoldable pub wrap_all : List (Handler → Handler) → Handler → Handler
wrap_all [] h = h
wrap_all (m ∷ ms) h = m (wrap_all ms h)

module _ (encode : ProblemDetail → Text) where
  -- A handler under a deadline, in the order of the turns.
  unfoldable pub with_deadline : List Turn → Bool → Handler → Handler
  with_deadline turns cleans next r =
      let p = next r in
      let timeout = write_status_error encode r 408 (codes "Request timeout exceeded") in
      let after = steps timeout cleans (events_of turns p.calls p.outcome) new_race in
      record { calls = after.tw.log; outcome = raised_outcome after.waiter; reports = p.reports }

-- A Handler that returns an error, and what ErrorHandler does with it.
module _ (E : Type 0) where
  pub record Fallible : Type 0 where
    pub run : Run
    pub error : Option E

  abbrev pub FallibleHandler : Type 0
  FallibleHandler = Request → Fallible

  abbrev pub ErrorHandler : Type 0
  ErrorHandler = Request → E → List Call

module _ {E : Type 0} (encode : ProblemDetail → Text) (as_fiber : E → Option FiberError) where
  -- A panic passes the error by.
  unfoldable pub adapt_handler : FallibleHandler E → ErrorHandler E → Handler
  adapt_handler h eh r =
      let f = h r in
      elim (f.run.outcome) [
        | panicked v ↦ f.run
        | returned ↦ elim (f.error) [
          | none ↦ f.run
          | some e ↦ record f.run { calls = f.run.calls ++ eh r e }
        ]
      ]

  unfoldable pub default_error_handler : ErrorHandler E
  default_error_handler r e =
      write_problem encode (problem_from_error as_fiber e r.path r.request_id)

  unfoldable pub resolve_error_handler : Option (ErrorHandler E) → ErrorHandler E
  resolve_error_handler none = default_error_handler
  resolve_error_handler (some eh) = eh

  -- What RegisterHandler puts on the router; `timeouts` are the deadlines of routes.
  unfoldable pub register_handler :
      Option (ErrorHandler E)
      → (Text → Option ℤ)
      → ℤ
      → List Turn
      → Text
      → FallibleHandler E
      → List (Handler → Handler)
      → Handler
  register_handler eh timeouts cleanup turns path h mws =
      let wrapped = wrap_all mws (adapt_handler h (resolve_error_handler eh)) in
      elim (timeouts path) [
        | none ↦ wrapped
        | some d ↦ with_deadline encode turns (not (leb_ℤ cleanup (pos 0))) wrapped
      ]
