-- ===== src/HttpServer/Chi/Tests.antt =====
-- Runs of the chi server.
use devkit_go.Prelude.{
  ℕ, ◌≡◌, ◌⊎◌, ◌≤◌, refl, Bool, true, false, Option, none, some, List, [], ◌∷◌, ◌++◌, ok, err, All,
  if◌then◌else◌,
}
use devkit_go.Prelude.Int.{pos}
use devkit_go.Prelude.Text.{Text, codes}
use devkit_go.HttpServer.Config.{ConfigError, validate, IsUsable}
use devkit_go.HttpServer.Problem.{ProblemDetail}
use devkit_go.HttpServer.Chi.Calls.{
  Call, set_call, add_call, header_call, body_call, Response, assign, no_header, added, Outcome,
  returned, panicked, Run, Request, new_response, take_all, returning,
}
use devkit_go.HttpServer.Chi.Timeout.{
  Event, called, finished, received, deadline, answered, drained, ended, steps, new_race, tw_calls,
  new_timeout_writer,
}
use devkit_go.HttpServer.Chi.Timeout.Answer.{is_over, steps-settled}
use devkit_go.HttpServer.Chi.Middleware.{
  Handler, observability_middleware, recover_middleware, request_id_middleware,
}
use devkit_go.HttpServer.Chi.Chain.{Setup, serve}
use devkit_go.HttpServer.Chi.Chain.Answers.{expected, serve-answer}
use devkit_go.HttpServer.Chi.Server.{wrap_all, with_deadline}
use devkit_go.HttpServer.Chi.Server.Setting.{
  ServerOption, with_service_name, with_cors, apply_options, blank_server, setup_of, new,
}
use devkit_go.HttpServer.Chi.Server.Made.{AllowsOrigins, new-cases}
use devkit_go.HttpServer.Chi.Server.Lifecycle.{
  start, shutdown, shutdown_all, context_done, new_state, IsClosed, start-once,
}

-- The deadline comes before the handler writes.
abbrev late_handler : List Event
late_handler =
    called (set_call (codes "A") (codes "b"))
    ∷ deadline
    ∷ called (body_call (codes "c"))
    ∷ answered
    ∷ []

abbrev timeout_calls : List Call
timeout_calls = header_call 408 ∷ []

-- A value that the handler adds takes the place of the one that is there already.
abbrev with_cookie : Response
with_cookie = record new_response { header = assign (codes "A") (some (codes "x")) no_header }

abbrev adds : List Call
adds = add_call (codes "A") (codes "y") ∷ header_call 200 ∷ []

value_lost :
    ((take_all (tw_calls adds new_timeout_writer).log with_cookie).header (codes "A")
      ≡ some (codes "y"))
    × ((take_all adds with_cookie).header (codes "A") ≡ some (codes "x\ny"))
unfolding devkit_go.HttpServer.Chi.Timeout.tw_calls devkit_go.HttpServer.Chi.Timeout.tw_call
    devkit_go.HttpServer.Chi.Timeout.tw_write_header devkit_go.HttpServer.Chi.Timeout.flush_headers
    take_all devkit_go.HttpServer.Chi.Calls.take devkit_go.HttpServer.Chi.Calls.send
    devkit_go.HttpServer.Headers.lookup devkit_go.HttpServer.Headers.with_header
    devkit_go.HttpServer.Headers.without devkit_go.Prelude.Text.text_eq
value_lost = (refl, refl)

steps-settled_example :
    let before = steps timeout_calls true late_handler new_race in
    let after = steps timeout_calls true (deadline ∷ answered ∷ drained ∷ []) before in
    (is_over after.waiter ≡ true)
    × (after.leaks ≤ 1)
    × ((after.leaks ≡ 0) ⊎ ((true ≡ true) × (after.waiter ≡ ended)))
steps-settled_example = steps-settled timeout_calls true late_handler

-- A handler that wrote before the deadline still writes after the request has ended.
abbrev writing_on : List Event
writing_on = called (body_call (codes "a")) ∷ deadline ∷ called (body_call (codes "b")) ∷ []

ended_first :
    (steps timeout_calls false (called (body_call (codes "a")) ∷ deadline ∷ []) new_race).waiter
    ≡ ended
unfolding steps devkit_go.HttpServer.Chi.Timeout.step devkit_go.HttpServer.Chi.Timeout.expire
    devkit_go.HttpServer.Chi.Timeout.tw_call devkit_go.HttpServer.Chi.Timeout.tw_write
ended_first = refl

still_written :
    (steps timeout_calls false writing_on new_race).tw.log
    ≡ body_call (codes "a") ∷ body_call (codes "b") ∷ []
unfolding steps devkit_go.HttpServer.Chi.Timeout.step devkit_go.HttpServer.Chi.Timeout.expire
    devkit_go.HttpServer.Chi.Timeout.tw_call devkit_go.HttpServer.Chi.Timeout.tw_write
    devkit_go.HttpServer.Chi.Timeout.flush_headers
still_written = refl

-- A header that the server has set cannot be removed behind the buffer.
abbrev same_key : Text → Text
same_key key = key

abbrev no_json : ProblemDetail → Text
no_json p = p.request_id

abbrev a_request : Request
a_request = record {
  method = codes "GET";
  path = codes "/a";
  origin = codes "x";
  raw_request_id = codes "id-1";
  content_length = pos 3;
  request_id = [];
}

abbrev failing : Handler
failing r = record { calls = []; outcome = panicked 1; reports = [] }

abbrev a_setup : Setup
a_setup = record { observed = true; body_limit = pos 10; origins = some (codes "x" ∷ []) }

serve-answer_example :
    (take_all (serve same_key no_json [] a_setup failing a_request).calls new_response
      ≡ take_all (expected same_key no_json [] a_setup failing a_request) new_response)
    × ((serve same_key no_json [] a_setup failing a_request).outcome ≡ returned)
serve-answer_example = serve-answer same_key no_json [] a_setup failing a_request new_response

-- The telemetry of a handler that panics is finished with status 200 and no error.
panic_reported :
    (observability_middleware failing a_request).reports
    ≡ record { status = 200; bytes = pos 0; failed = false } ∷ []
unfolding observability_middleware devkit_go.HttpServer.Chi.Middleware.finish_observed_request
    devkit_go.HttpServer.Chi.Middleware.status_code devkit_go.HttpServer.Chi.Middleware.observe
panic_reported = refl

-- The answer to a panic has no request id, although the request has one.
panic_answered :
    (take_all
      (recover_middleware no_json (request_id_middleware same_key [] failing) a_request).calls
      new_response).body
    ≡ [] ∷ []
unfolding take_all recover_middleware request_id_middleware devkit_go.HttpServer.Writer.run
    devkit_go.HttpServer.Chi.Calls.write_status_error devkit_go.HttpServer.Chi.Calls.take
    devkit_go.HttpServer.Chi.Calls.send
panic_answered = refl

abbrev two_options : List (ServerOption ℕ)
two_options = with_service_name (codes "a") ∷ with_cors (codes "x") ∷ []

new-cases_example :
    let s = apply_options two_options blank_server in
    ((problem : ConfigError) × (validate s.config ≡ some problem)
      × (new same_key no_json true two_options ≡ err problem))
    ⊎ (IsUsable s.config
        × ((origins : Option (List Text)) × AllowsOrigins s.config origins
            × (new same_key no_json true two_options
                ≡ ok (
                  s,
                  λ fresh turns routes.
                      serve same_key no_json fresh
                        (setup_of true s.config origins)
                        (with_deadline no_json turns false (wrap_all s.custom_middlewares routes)),
                ))))
new-cases_example = new-cases same_key no_json true two_options

abbrev no_errors : Bool → Option ℕ
no_errors done = none

abbrev closing_fails : Bool → Option ℕ
closing_fails done = if done then some 3 else none

start-once_example :
    let (errors, after) =
      start closing_fails
        (some no_errors)
        context_done
        (new_state closing_fails (some no_errors)) in
    IsClosed closing_fails (some no_errors) true after.log errors
    × (shutdown closing_fails (some no_errors) true (new_state closing_fails (some no_errors))
        ≡ start closing_fails
            (some no_errors)
            context_done
            (new_state closing_fails (some no_errors)))
    × ((shutdown_all closing_fails (some no_errors) (true ∷ false ∷ []) after).1 ≡ after)
    × All (λ e. e ≡ []) (shutdown_all closing_fails (some no_errors) (true ∷ false ∷ []) after).0
start-once_example =
    start-once closing_fails (some no_errors) context_done true (true ∷ false ∷ []) refl
