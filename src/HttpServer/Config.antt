-- ===== src/HttpServer/Config.antt =====
-- pkg/http_server/common/config.go. Durations are in nanoseconds; the texts of the errors are left out.
use devkit_go.Prelude.{
  ◌≡◌, ◌≢◌, ◌⊎◌, ◌↔◌, inl, inr, arith, Bool, true, false, Option, none, some, List, [],
  if◌then◌else◌, ok, err, panic, Result-cases, Bool-cases,
}
use devkit_go.Prelude.Int.{ℤ, pos, leb_ℤ}
use devkit_go.Prelude.Text.{Text, codes, trim_space}
use devkit_go.HttpServer.Origins.{is_empty, parse_origins}

pub record Config : Type 0 where
  pub address : Text
  pub read_timeout : ℤ
  pub write_timeout : ℤ
  pub idle_timeout : ℤ
  pub shutdown_timeout : ℤ
  pub body_limit : ℤ
  pub service_name : Text
  pub service_version : Text
  pub environment : Text
  pub cors_origins : Text
  pub enable_cors : Bool
  pub enable_metrics : Bool
  pub enable_health_checks : Bool
  pub enable_tracing : Bool
  pub enable_otel_metrics : Bool

abbrev pub default_config : Config
default_config = record {
  address = codes ":8080";
  read_timeout = pos 30000000000;
  write_timeout = pos 30000000000;
  idle_timeout = pos 120000000000;
  shutdown_timeout = pos 30000000000;
  body_limit = pos 4194304;
  service_name = codes "unknown-service";
  service_version = codes "unknown";
  environment = codes "development";
  cors_origins = [];
  enable_cors = false;
  enable_metrics = false;
  enable_health_checks = true;
  enable_tracing = false;
  enable_otel_metrics = false;
}

pub data ConfigError : Type 0 where
  no_service_name no_service_version no_environment : ConfigError
  read_timeout_error write_timeout_error idle_timeout_error shutdown_timeout_error : ConfigError
  body_limit_error no_origins invalid_origins : ConfigError

abbrev pub is_blank : Text → Bool
is_blank s = is_empty (trim_space s)

abbrev pub validate_origins : Config → Option ConfigError
validate_origins c =
    if is_blank c.cors_origins then some no_origins else elim (parse_origins c.cors_origins) [
      | ok l ↦ none
      | err e ↦ some invalid_origins
      | panic ↦ none
    ]

unfoldable pub validate : Config → Option ConfigError
validate c =
    if is_blank c.service_name
    then some no_service_name
    else if is_blank c.service_version
    then some no_service_version
    else if is_blank c.environment
    then some no_environment
    else if leb_ℤ c.read_timeout (pos 0)
    then some read_timeout_error
    else if leb_ℤ c.write_timeout (pos 0)
    then some write_timeout_error
    else if leb_ℤ c.idle_timeout (pos 0)
    then some idle_timeout_error
    else if leb_ℤ c.shutdown_timeout (pos 0)
    then some shutdown_timeout_error
    else if leb_ℤ c.body_limit (pos 0)
    then some body_limit_error
    else if c.enable_cors
    then validate_origins c
    else none

-- What a configuration has to have.
pub record IsUsable (c : Config) : Type 0 where
  pub named :
      (is_blank c.service_name ≡ false)
      × (is_blank c.service_version ≡ false)
      × (is_blank c.environment ≡ false)
  pub timed :
      (leb_ℤ c.read_timeout (pos 0) ≡ false)
      × (leb_ℤ c.write_timeout (pos 0) ≡ false)
      × (leb_ℤ c.idle_timeout (pos 0) ≡ false)
      × (leb_ℤ c.shutdown_timeout (pos 0) ≡ false)
      × (leb_ℤ c.body_limit (pos 0) ≡ false)
  pub shared :
      (c.enable_cors ≡ false)
      ⊎ ((is_blank c.cors_origins ≡ false)
          × ((l : List Text) × (parse_origins c.cors_origins ≡ ok l)))

pub parse_origins-panic : (s : Text) → parse_origins s ≢ panic
unfolding parse_origins
parse_origins-panic s = λ h. ground arith

validate_origins-ok :
    (c : Config)
    → validate_origins c ≡ none
    → (is_blank c.cors_origins ≡ false) × ((l : List Text) × (parse_origins c.cors_origins ≡ ok l))
validate_origins-ok c h = elim (Result-cases (parse_origins c.cors_origins)) [
  | inl (l, e) ↦ (ground arith, (l, e))
  | inr (inl (x, e)) ↦ absurd (ground arith)
  | inr (inr e) ↦ absurd (parse_origins-panic c.cors_origins e)
]

validate-IsUsable : (c : Config) → validate c ≡ none → IsUsable c
unfolding validate
validate-IsUsable c h = record {
  named = ground arith;
  timed = ground arith;
  shared = elim (Bool-cases c.enable_cors) [
    | inl on ↦ inr (validate_origins-ok c (ground arith))
    | inr off ↦ inl off
  ];
}

IsUsable-validate : (c : Config) → IsUsable c → validate c ≡ none
unfolding validate
IsUsable-validate c u = ground (arith, u.named, u.timed, u.shared)

-- A configuration is valid exactly when its names are not blank, its timeouts and its limit are
-- positive, and the origins are there and can be parsed if they are to be shared with.
pub validate_iff : (c : Config) → (validate c ≡ none) ↔ IsUsable c
validate_iff c = (validate-IsUsable c, IsUsable-validate c)
