-- ===== src/HttpServer/Chi/Server/Setting.antt =====
-- pkg/http_server/chi_server/options.go, and New, registerMiddlewares, Start and Shutdown of server.go and
-- lifecycle.go. A middleware and the routes are handlers; `E` is the errors of the libraries.
use devkit_go.Prelude.{
  Bool, true, false, ◌||◌, ◌&&◌, Option, none, some, List, [], ◌∷◌, ◌++◌, if◌then◌else◌, Result, ok,
  err, panic,
}
use devkit_go.Prelude.Int.{ℤ, pos, leb_ℤ}
use devkit_go.Prelude.Text.{Text, codes, text_eq, has_prefix}
use devkit_go.HttpServer.Origins.{parse_origins, OriginsError}
use devkit_go.HttpServer.Config.{Config, default_config, ConfigError, validate}
use devkit_go.HttpServer.Problem.{ProblemDetail}
use devkit_go.HttpServer.Chi.Middleware.{Handler}
use devkit_go.HttpServer.Chi.Chain.{Setup, serve}
use devkit_go.HttpServer.Chi.Server.{ErrorHandler, wrap_all, with_deadline, Turn}

abbrev pub with_colon : Text → Text
with_colon port = if has_prefix (codes ":") port then port else codes ":" ++ port

-- `hook` tells whether the telemetry has a hook for HTTP.
abbrev pub setup_of : Bool → Config → Option (List Text) → Setup
setup_of hook c origins = record {
  observed = (c.enable_tracing || c.enable_otel_metrics) && hook;
  body_limit = c.body_limit;
  origins = origins;
}

-- corsMiddleware is made, and panics on origins that cannot be parsed, only where CORS is enabled.
abbrev pub setup_origins : Config → Result OriginsError (Option (List Text))
setup_origins c =
    if c.enable_cors
    then elim (parse_origins c.cors_origins) [
      | ok allowed ↦ ok (some allowed)
      | err e ↦ panic
      | panic ↦ panic
    ]
    else ok none

abbrev pub with_global_deadline : (ProblemDetail → Text) → Config → List Turn → Handler → Handler
with_global_deadline encode c turns next =
    if leb_ℤ c.read_timeout (pos 0) then next else with_deadline encode turns false next

module _ (E : Type 0) where
  -- `health_checks` are the names of the checks; `handler` is the router with its middleware.
  pub record Server : Type 0 where
    pub config : Config
    pub health_checks : List Text
    pub route_timeouts : Text → Option ℤ
    pub custom_middlewares : List (Handler → Handler)
    pub error_handler : Option (ErrorHandler E)
    pub timeout_cleanup : ℤ
    pub shutdown_done : Bool

  -- Of options.go, the options by name.
  pub data ServerOption : Type 0 where
    with_config : Config → ServerOption
    with_port : Text → ServerOption
    with_read_timeout with_write_timeout with_idle_timeout with_body_limit : ℤ → ServerOption
    with_cors : Text → ServerOption
    with_metrics : ServerOption
    with_health_checks : List Text → ServerOption
    with_middleware : (Handler → Handler) → ServerOption
    with_route_timeout : Text → ℤ → ServerOption
    with_service_name with_service_version with_environment : Text → ServerOption
    with_tracing with_otel_metrics : ServerOption
    with_error_handler : ErrorHandler E → ServerOption
    with_shutdown_timeout with_timeout_cleanup : ℤ → ServerOption

module _ {E : Type 0} where
  abbrev pub on_config : (Config → Config) → Server E → Server E
  on_config f s = record s { config = f s.config }

  unfoldable pub apply_option : ServerOption E → Server E → Server E
  apply_option (with_config c) s = record s { config = c }
  apply_option (with_port port) s = on_config (λ c. record c { address = with_colon port }) s
  apply_option (with_read_timeout d) s = on_config (λ c. record c { read_timeout = d }) s
  apply_option (with_write_timeout d) s = on_config (λ c. record c { write_timeout = d }) s
  apply_option (with_idle_timeout d) s = on_config (λ c. record c { idle_timeout = d }) s
  apply_option (with_body_limit n) s = on_config (λ c. record c { body_limit = n }) s
  apply_option (with_cors origins) s =
      on_config (λ c. record c { enable_cors = true; cors_origins = origins }) s
  apply_option with_metrics s = on_config (λ c. record c { enable_metrics = true }) s
  apply_option (with_health_checks names) s = record s {
    config = record s.config { enable_health_checks = true };
    health_checks = names ++ s.health_checks;
  }
  apply_option (with_middleware m) s = record s {
    custom_middlewares = s.custom_middlewares ++ (m ∷ []);
  }
  apply_option (with_route_timeout path d) s = record s {
    route_timeouts = λ p. if text_eq p path then some d else s.route_timeouts p;
  }
  apply_option (with_service_name name) s = on_config (λ c. record c { service_name = name }) s
  apply_option (with_service_version v) s = on_config (λ c. record c { service_version = v }) s
  apply_option (with_environment env) s = on_config (λ c. record c { environment = env }) s
  apply_option with_tracing s = on_config (λ c. record c { enable_tracing = true }) s
  apply_option with_otel_metrics s = on_config (λ c. record c { enable_otel_metrics = true }) s
  apply_option (with_error_handler eh) s = record s { error_handler = some eh }
  apply_option (with_shutdown_timeout d) s = on_config (λ c. record c { shutdown_timeout = d }) s
  apply_option (with_timeout_cleanup d) s = record s { timeout_cleanup = d }

  unfoldable pub apply_options : List (ServerOption E) → Server E → Server E
  apply_options [] s = s
  apply_options (o ∷ options) s = apply_options options (apply_option o s)

  abbrev pub blank_server : Server E
  blank_server = record {
    config = default_config;
    health_checks = [];
    route_timeouts = λ path. none;
    custom_middlewares = [];
    error_handler = none;
    timeout_cleanup = pos 100000000;
    shutdown_done = false;
  }

  module _ (canonical : Text → Text) (encode : ProblemDetail → Text) (hook : Bool) where
    -- What the middleware makes of the routes, for a fresh id and an order of turns.
    unfoldable pub register_middlewares :
        Server E → Result OriginsError (Text → List Turn → Handler → Handler)
    register_middlewares s = elim (setup_origins s.config) [
      | ok origins ↦ ok (λ fresh turns routes.
          serve canonical encode fresh (setup_of hook s.config origins)
            (with_global_deadline encode s.config turns (wrap_all s.custom_middlewares routes)))
      | err e ↦ panic
      | panic ↦ panic
    ]

    -- The server, and what it makes of its routes.
    unfoldable pub new :
        List (ServerOption E)
        → Result ConfigError (Server E × (Text → List Turn → Handler → Handler))
    new options =
        let s = apply_options options blank_server in
        elim (validate s.config) [
          | some problem ↦ err problem
          | none ↦ elim (register_middlewares s) [
            | ok chain ↦ ok (s, chain)
            | err e ↦ panic
            | panic ↦ panic
          ]
        ]
