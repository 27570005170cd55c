-- ===== src/HttpServer/Chi/Middleware.antt =====
-- The middleware of pkg/http_server/chi_server/middleware.go but for the deadlines. `canonical` is what
-- net/http makes of a key, `encode` gives the JSON of a problem, and `fresh` the id of NewRequestID. The
-- reader that limits the body, logs and spans are left out.
use devkit_go.Prelude.{
  ℕ, Bool, true, false, not, Option, none, some, List, [], ◌∷◌, ◌++◌, if◌then◌else◌, length, ◌==◌,
}
use devkit_go.Prelude.Int.{ℤ, pos, leb_ℤ}
use devkit_go.Prelude.Int64.{add64}
use devkit_go.Prelude.Text.{Text, codes, text_eq}
use devkit_go.Prelude.Decimal.{format_int}
use devkit_go.HttpServer.Origins.{is_origin_allowed, is_wildcard}
use devkit_go.HttpServer.Headers.{SecurityHeaders, default_security_headers, is_empty}
use devkit_go.HttpServer.Problem.{ProblemDetail}
use devkit_go.HttpServer.RequestId.{validate_request_id}
use devkit_go.HttpServer.Writer.{ResponseWriter, new_response_writer, run}
use devkit_go.HttpServer.Chi.Calls.{
  Call, set_call, add_call, del_call, header_call, body_call, returned, panicked, Run, Report,
  Request, returning, write_status_error,
}

abbrev pub Handler : Type 0
Handler = Request → Run

-- The calls before those of the next handler.
abbrev pub after_calls : List Call → Run → Run
after_calls calls p = record p { calls = calls ++ p.calls }

-- The writer that counts for the telemetry; `log` holds what it passes on.
pub record ObservedWriter : Type 0 where
  pub status : ℕ
  pub bytes : ℤ
  pub wrote_header : Bool
  pub log : List Call

abbrev pub new_observed_writer : ObservedWriter
new_observed_writer = record { status = 200; bytes = pos 0; wrote_header = false; log = [] }

unfoldable pub observed_write_header : ℕ → ObservedWriter → ObservedWriter
observed_write_header code rw =
    if rw.wrote_header
    then rw
    else record rw { wrote_header = true; status = code; log = rw.log ++ (header_call code ∷ []) }

-- The server takes the whole body.
unfoldable pub observed_write : Text → ObservedWriter → ObservedWriter
observed_write body rw = record rw {
  wrote_header = true;
  log = rw.log ++ (body_call body ∷ []);
  bytes = add64 rw.bytes (pos (length body));
}

unfoldable pub observe : List Call → ObservedWriter → ObservedWriter
observe [] rw = rw
observe (header_call code ∷ calls) rw = observe calls (observed_write_header code rw)
observe (body_call body ∷ calls) rw = observe calls (observed_write body rw)
observe (set_call k v ∷ calls) rw =
    observe calls (record rw { log = rw.log ++ (set_call k v ∷ []) })
observe (del_call k ∷ calls) rw = observe calls (record rw { log = rw.log ++ (del_call k ∷ []) })
observe (add_call k v ∷ calls) rw =
    observe calls (record rw { log = rw.log ++ (add_call k v ∷ []) })

unfoldable pub status_code : ObservedWriter → ℕ
status_code rw = if rw.status == 0 then 200 else rw.status

-- `recovered` is what `recover()` gives in this function.
unfoldable pub finish_observed_request : Option ℕ → ObservedWriter → Report
finish_observed_request (some v) rw = record { status = 500; bytes = rw.bytes; failed = true }
finish_observed_request none rw = record {
  status = status_code rw;
  bytes = rw.bytes;
  failed = false;
}

-- The deferred function is the one around finish_observed_request, and Go's `recover` gives nil in a
-- function that the deferred one calls: nothing is recovered there, and a panic goes on.
unfoldable pub observability_middleware : Handler → Handler
observability_middleware next r =
    let p = next r in
    let rw = observe p.calls new_observed_writer in
    record {
      calls = rw.log;
      outcome = p.outcome;
      reports = p.reports ++ (finish_observed_request none rw ∷ []);
    }

module _ (canonical : Text → Text) where
  unfoldable pub security_calls : SecurityHeaders → List Call
  security_calls [] = []
  security_calls ((k, v) ∷ rest) =
      (if is_empty v then del_call (canonical k) else set_call (canonical k) v)
      ∷ security_calls rest

  unfoldable pub security_headers_middleware : Handler → Handler
  security_headers_middleware next r =
      after_calls (security_calls default_security_headers) (next r)

  -- The id of a request, or a fresh one.
  unfoldable pub request_id_of : Text → Text → Text
  request_id_of fresh raw = elim (validate_request_id raw) [ some id ↦ id | none ↦ fresh ]

  unfoldable pub request_id_middleware : Text → Handler → Handler
  request_id_middleware fresh next r =
      let id = request_id_of fresh r.raw_request_id in
      after_calls (set_call (canonical (codes "X-Request-ID")) id ∷ [])
        (next (record r { request_id = id }))

abbrev pub cors_origin_calls : Text → List Text → List Call
cors_origin_calls origin allowed =
    if is_wildcard allowed
    then set_call (codes "Access-Control-Allow-Origin") (codes "*") ∷ []
    else set_call (codes "Access-Control-Allow-Origin") origin
      ∷ set_call (codes "Access-Control-Allow-Credentials") (codes "true")
      ∷ []

unfoldable pub cors_calls : Text → List Text → List Call
cors_calls origin allowed =
    cors_origin_calls origin allowed
    ++ (set_call (codes "Access-Control-Allow-Methods")
          (codes "GET, POST, PUT, PATCH, DELETE, OPTIONS")
        ∷ set_call (codes "Access-Control-Allow-Headers")
            (codes "Origin, Content-Type, Accept, Authorization, X-Request-ID")
        ∷ set_call (codes "Access-Control-Max-Age") (codes "3600")
        ∷ [])

module _ (encode : ProblemDetail → Text) where
  -- What the deferred function of recoverMiddleware writes, with the request that it was given, after
  -- it recovered something.
  abbrev pub recovery_calls : Request → ResponseWriter → List Call
  recovery_calls r rw =
      if not rw.header_written
      then write_status_error encode r 500 (codes "Internal server error")
      else []

  unfoldable pub recover_middleware : Handler → Handler
  recover_middleware next r =
      let p = next r in
      let rw = run p.calls new_response_writer in
      elim (p.outcome) [
        | returned ↦ record { calls = rw.log; outcome = returned; reports = p.reports }
        | panicked v ↦ record {
          calls = rw.log ++ recovery_calls r rw;
          outcome = returned;
          reports = p.reports;
        }
      ]

  -- With the origins that are parsed at the setup.
  unfoldable pub cors_middleware : List Text → Handler → Handler
  cors_middleware allowed next r =
      if is_empty r.origin
      then next r
      else if not (is_origin_allowed r.origin allowed)
      then returning (write_status_error encode r 403 (codes "origin not allowed"))
      else if text_eq r.method (codes "OPTIONS")
      then returning (cors_calls r.origin allowed ++ (header_call 204 ∷ []))
      else after_calls (cors_calls r.origin allowed) (next r)

  -- Go compares lengths as int64; that of a body of unknown length is -1.
  unfoldable pub body_limit_middleware : ℤ → Handler → Handler
  body_limit_middleware max_bytes next r =
      if leb_ℤ r.content_length max_bytes
      then next r
      else returning (
          write_status_error encode r 413 (
            codes "Request body exceeds maximum size of "
            ++ (format_int max_bytes ++ codes " bytes")))
