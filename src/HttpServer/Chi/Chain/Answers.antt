-- ===== src/HttpServer/Chi/Chain/Answers.antt =====
-- What the server answers to a request through the whole chain.
use devkit_go.Prelude.{
  ◌≡◌, refl, ◌∙◌, sym, ap, ap₂, arith, Bool, true, false, not, Option, none, some, List, [], ◌∷◌,
  ◌++◌, if◌then◌else◌, Bool-cases, inl, inr, append-nil, append_assoc,
}
use devkit_go.Prelude.Int.{leb_ℤ}
use devkit_go.Prelude.Decimal.{format_int}
use devkit_go.Prelude.Text.{Text, codes, text_eq}
use devkit_go.HttpServer.Origins.{is_origin_allowed}
use devkit_go.HttpServer.Headers.{default_security_headers, is_empty}
use devkit_go.HttpServer.Problem.{ProblemDetail}
use devkit_go.HttpServer.Writer.{any_sends, forwarded, run-forwarded}
use devkit_go.HttpServer.Chi.Calls.{
  Call, set_call, header_call, returned, panicked, Run, Request, Response, returning,
  write_status_error, take, take_all, take_all-append,
}
use devkit_go.HttpServer.Chi.Middleware.{
  Handler, after_calls, recover_middleware, request_id_middleware, request_id_of,
  observability_middleware, body_limit_middleware, security_headers_middleware, security_calls,
  cors_middleware, cors_calls,
}
use devkit_go.HttpServer.Chi.Forwarding.{take_all-forwarded, any_sends-forwarded, observe-forwarded}
use devkit_go.HttpServer.Chi.Chain.{Setup, serve, with_cors, with_observability}

-- What becomes of a request: `calls` are those of CORS.
pub data Decision : Type 0 where
  too_large forbidden : Decision
  preflight admitted : List Call → Decision

abbrev pub decide_origin : Request → List Text → Decision
decide_origin r allowed =
    if is_empty r.origin
    then admitted []
    else if not (is_origin_allowed r.origin allowed)
    then forbidden
    else if text_eq r.method (codes "OPTIONS")
    then preflight (cors_calls r.origin allowed)
    else admitted (cors_calls r.origin allowed)

abbrev pub decide_origins : Request → Option (List Text) → Decision
decide_origins r none = admitted []
decide_origins r (some allowed) = decide_origin r allowed

unfoldable pub decide : Setup → Request → Decision
decide setup r =
    if leb_ℤ r.content_length setup.body_limit then decide_origins r setup.origins else too_large

module _ (canonical : Text → Text) (encode : ProblemDetail → Text) where
  abbrev pub secured : List Call → List Call
  secured calls = security_calls canonical default_security_headers ++ calls

  -- The answer to a request that has its id; only an admitted one reaches the handler.
  unfoldable pub answer : Setup → Handler → Request → Decision → Run
  answer setup inner r too_large = returning (
      write_status_error encode r 413 (
        codes "Request body exceeds maximum size of "
        ++ (format_int setup.body_limit ++ codes " bytes")))
  answer setup inner r forbidden =
      returning (secured (write_status_error encode r 403 (codes "origin not allowed")))
  answer setup inner r (preflight calls) = returning (secured (calls ++ (header_call 204 ∷ [])))
  answer setup inner r (admitted calls) = after_calls (secured calls) (inner r)

  -- After a panic the status is 500 if nothing was sent; the request has no id here.
  abbrev pub after_panic : Request → Run → List Call
  after_panic r p = elim (p.outcome) [
    | returned ↦ []
    | panicked v ↦
        if any_sends p.calls
        then []
        else write_status_error encode r 500 (codes "Internal server error")
  ]

  cors-answer :
      (setup : Setup) (inner : Handler) (r : Request) (o : Option (List Text))
      → security_headers_middleware canonical (with_cors encode o inner) r
        ≡ answer setup inner r (decide_origins r o)
  unfolding security_headers_middleware cors_middleware answer
  cors-answer setup inner r none =
      ground (arith, append-nil (security_calls canonical default_security_headers))
  cors-answer setup inner r (some allowed) = ground (
    arith,
    append-nil (security_calls canonical default_security_headers),
    append_assoc (security_calls canonical default_security_headers) (cors_calls r.origin allowed)
        (inner r).calls,
  )

  body_limit-answer :
      (setup : Setup) (inner : Handler) (r : Request)
      → body_limit_middleware encode setup.body_limit
          (security_headers_middleware canonical (with_cors encode setup.origins inner))
          r
        ≡ answer setup inner r (decide setup r)
  unfolding body_limit_middleware answer decide
  body_limit-answer setup inner r = elim (Bool-cases (leb_ℤ r.content_length setup.body_limit)) [
    | inl small ↦ rw small (cors-answer setup inner r setup.origins)
    | inr large ↦ rw large refl
  ]

  recover-calls :
      (next : Handler) (r : Request)
      → (recover_middleware encode next r).calls
        ≡ forwarded (next r).calls ++ after_panic r (next r)
  unfolding recover_middleware
  recover-calls next r =
      ground (arith, run-forwarded (next r).calls, append-nil (forwarded (next r).calls))

  recover-outcome :
      (next : Handler) (r : Request) → (recover_middleware encode next r).outcome ≡ returned
  unfolding recover_middleware
  recover-outcome next r = ground arith

  after_panic-same :
      (r : Request) (p q : Run)
      → any_sends p.calls ≡ any_sends q.calls
      → p.outcome ≡ q.outcome
      → after_panic r p ≡ after_panic r q
  after_panic-same r p q sends ends = ground (arith, sends, ends)

  take_all-recovered :
      (next : Handler) (r : Request) (w : Response)
      → take_all (recover_middleware encode next r).calls w
        ≡ take_all (after_panic r (next r)) (take_all (next r).calls w)
  take_all-recovered next r w =
      ap (λ calls. take_all calls w) (recover-calls next r)
      ∙ take_all-append (forwarded (next r).calls) (after_panic r (next r)) w
      ∙ ap (take_all (after_panic r (next r))) (take_all-forwarded (next r).calls w)

  -- The telemetry changes nothing of the answer and of what was sent before a panic.
  with_observability-same :
      (observed : Bool) (next : Handler) (r : Request) (w : Response)
      → let p = with_observability observed next r in
        (take_all p.calls w ≡ take_all (next r).calls w)
        × (any_sends p.calls ≡ any_sends (next r).calls)
        × (p.outcome ≡ (next r).outcome)
  unfolding observability_middleware
  with_observability-same false next r w = (refl, refl, refl)
  with_observability-same true next r w =
      rw observe-forwarded
        (take_all-forwarded (next r).calls w, any_sends-forwarded (next r).calls, refl)

  module _ (fresh : Text) (setup : Setup) (inner : Handler) (r : Request) where
    abbrev pub id : Text
    id = request_id_of canonical fresh r.raw_request_id

    abbrev pub identified : Request
    identified = record r { request_id = id }

    abbrev pub own_run : Run
    own_run = answer setup inner identified (decide setup identified)

    unfoldable pub expected : List Call
    expected =
        set_call (canonical (codes "X-Request-ID")) id ∷ (own_run.calls ++ after_panic r own_run)

    abbrev inner_chain : Handler
    inner_chain =
        body_limit_middleware encode setup.body_limit
          (security_headers_middleware canonical (with_cors encode setup.origins inner))

    abbrev chained : Run
    chained =
        request_id_middleware canonical fresh (with_observability setup.observed inner_chain) r

    -- A request gets its id, and is refused with 413 if its body is too large, then with 403 if its
    -- origin is not allowed, or answered with 204 if it asks about the origin; only another reaches the
    -- handler, after the headers for security and for its origin. A panic of the handler becomes a 500
    -- if nothing was sent, and it never goes on.
    pub serve-answer :
        (w : Response)
        → (take_all (serve canonical encode fresh setup inner r).calls w ≡ take_all expected w)
          × ((serve canonical encode fresh setup inner r).outcome ≡ returned)
    unfolding serve expected request_id_middleware take_all any_sends
    serve-answer w =
        let first = take (set_call (canonical (codes "X-Request-ID")) id) w in
        let (calls, sends, ends) =
          with_observability-same setup.observed inner_chain identified first in
        let own : inner_chain identified ≡ own_run = body_limit-answer setup inner identified in
        let late =
          after_panic-same r chained own_run (sends ∙ ap (λ p. any_sends p.calls) own)
            (ends ∙ ap (λ p. p.outcome) own) in
        (
          take_all-recovered
                (request_id_middleware canonical fresh
                  (with_observability setup.observed inner_chain))
                r w
              ∙ ap₂ take_all late (calls ∙ ap (λ p. take_all p.calls first) own)
              ∙ sym (take_all-append own_run.calls (after_panic r own_run) first),
          recover-outcome
              (request_id_middleware canonical fresh
                (with_observability setup.observed inner_chain))
              r,
        )
