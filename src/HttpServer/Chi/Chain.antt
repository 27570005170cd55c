-- ===== src/HttpServer/Chi/Chain.antt =====
-- The order of pkg/http_server/chi_server/server.go, registerMiddlewares. The deadline of a request, the
-- custom middleware and the routes are one handler, `inner`.
pub mod Answers
use devkit_go.Prelude.{Bool, Option, none, some, List, [], ◌∷◌, if◌then◌else◌}
use devkit_go.Prelude.Int.{ℤ}
use devkit_go.Prelude.Text.{Text}
use devkit_go.HttpServer.Problem.{ProblemDetail}
use devkit_go.HttpServer.Chi.Middleware.{
  Handler, recover_middleware, request_id_middleware, observability_middleware,
  body_limit_middleware, security_headers_middleware, cors_middleware,
}

-- `observed` tells whether the telemetry has a hook for HTTP and is enabled; `origins` are those that
-- are allowed, when CORS is enabled.
pub record Setup : Type 0 where
  pub observed : Bool
  pub body_limit : ℤ
  pub origins : Option (List Text)

abbrev pub with_cors : (ProblemDetail → Text) → Option (List Text) → Handler → Handler
with_cors encode none inner = inner
with_cors encode (some allowed) inner = cors_middleware encode allowed inner

abbrev pub with_observability : Bool → Handler → Handler
with_observability observed inner = if observed then observability_middleware inner else inner

module _ (canonical : Text → Text) (encode : ProblemDetail → Text) (fresh : Text) where
  unfoldable pub serve : Setup → Handler → Handler
  serve setup inner = recover_middleware encode (
      request_id_middleware canonical fresh (
        with_observability setup.observed (
          body_limit_middleware encode setup.body_limit
            (security_headers_middleware canonical (with_cors encode setup.origins inner)))))
