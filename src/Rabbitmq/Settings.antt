-- ===== src/Rabbitmq/Settings.antt =====
-- pkg/messaging/rabbitmq/config.go, options.go, strategy.go, and of client.go New. Durations are in
-- nanoseconds; texts of errors and telemetry are left out. What a strategy gives is what the AMQP library
-- is asked to dial; the files of certificates are read by functions.
use devkit_go.Prelude.{
  ℕ, ◌≡◌, ◌↔◌, arith, Bool, true, false, not, ◌&&◌, Option, none, some, [], ◌∷◌, ◌++◌,
  if◌then◌else◌, Result, ok, err, panic, ◌>>=◌,
}
use devkit_go.Prelude.Int.{ℤ, pos, leb_ℤ, ltb_ℤ}
use devkit_go.Prelude.Text.{Text, codes}
use devkit_go.Prelude.Decimal.{format_int}

pub record Config : Type 0 where
  pub url : Text
  pub heartbeat : ℤ
  pub connection_timeout : ℤ
  pub publish_timeout : ℤ
  pub reconnect_timeout : ℤ
  pub reconnect_initial_interval : ℤ
  pub reconnect_max_interval : ℤ
  pub default_prefetch_count : ℤ
  pub enable_auto_reconnect : Bool
  pub enable_publisher_confirms : Bool
  pub max_retries : ℤ
  pub use_delayed_retry : Bool
  pub service_name : Text
  pub service_version : Text
  pub environment : Text

abbrev pub default_config : Config
default_config = record {
  url = [];
  heartbeat = pos 10000000000;
  connection_timeout = pos 30000000000;
  publish_timeout = pos 5000000000;
  reconnect_timeout = pos 300000000000;
  reconnect_initial_interval = pos 1000000000;
  reconnect_max_interval = pos 30000000000;
  default_prefetch_count = pos 10;
  enable_auto_reconnect = true;
  enable_publisher_confirms = true;
  max_retries = pos 3;
  use_delayed_retry = false;
  service_name = codes "unknown-service";
  service_version = codes "unknown";
  environment = codes "development";
}

pub data ConfigError : Type 0 where
  no_service_name no_service_version no_environment bad_heartbeat : ConfigError
  bad_connection_timeout bad_publish_timeout bad_reconnect_timeout bad_initial_interval :
      ConfigError
  bad_max_interval max_below_initial bad_prefetch_count bad_max_retries : ConfigError

abbrev pub is_blank : Text → Bool
is_blank [] = true
is_blank (c ∷ s) = false

abbrev pub is_positive : ℤ → Bool
is_positive n = ltb_ℤ (pos 0) n

unfoldable pub validate : Config → Option ConfigError
validate c =
    if is_blank c.service_name
    then some no_service_name
    else if is_blank c.service_version
    then some no_service_version
    else if is_blank c.environment
    then some no_environment
    else if not (is_positive c.heartbeat)
    then some bad_heartbeat
    else if not (is_positive c.connection_timeout)
    then some bad_connection_timeout
    else if not (is_positive c.publish_timeout)
    then some bad_publish_timeout
    else if not (is_positive c.reconnect_timeout)
    then some bad_reconnect_timeout
    else if not (is_positive c.reconnect_initial_interval)
    then some bad_initial_interval
    else if not (is_positive c.reconnect_max_interval)
    then some bad_max_interval
    else if ltb_ℤ c.reconnect_max_interval c.reconnect_initial_interval
    then some max_below_initial
    else if ltb_ℤ c.default_prefetch_count (pos 1)
    then some bad_prefetch_count
    else if ltb_ℤ c.max_retries (pos 0)
    then some bad_max_retries
    else none

-- What a configuration has to have.
pub record IsUsable (c : Config) : Type 0 where
  pub named :
      (is_blank c.service_name ≡ false)
      × (is_blank c.service_version ≡ false)
      × (is_blank c.environment ≡ false)
  pub timed :
      (is_positive c.heartbeat ≡ true)
      × (is_positive c.connection_timeout ≡ true)
      × (is_positive c.publish_timeout ≡ true)
      × (is_positive c.reconnect_timeout ≡ true)
      × (is_positive c.reconnect_initial_interval ≡ true)
      × (leb_ℤ c.reconnect_initial_interval c.reconnect_max_interval ≡ true)
  pub counted :
      (leb_ℤ (pos 1) c.default_prefetch_count ≡ true) × (leb_ℤ (pos 0) c.max_retries ≡ true)

validate-IsUsable : (c : Config) → validate c ≡ none → IsUsable c
unfolding validate
validate-IsUsable c h = record {
  named = ground arith;
  timed = ground arith;
  counted = ground arith;
}

IsUsable-validate : (c : Config) → IsUsable c → validate c ≡ none
unfolding validate
IsUsable-validate c u = ground (arith, u.named, u.timed, u.counted)

-- A configuration is valid exactly when its names are there, its times are positive with the initial
-- interval below the maximal one, messages are prefetched, and retries are not negative.
pub validate_iff : (c : Config) → (validate c ≡ none) ↔ IsUsable c
validate_iff c = (validate-IsUsable c, IsUsable-validate c)

-- 771 is TLS 1.2; the certificates are what the files hold.
pub record TlsConfig : Type 0 where
  pub min_version : ℕ
  pub server_name : Text
  pub root_cas : Option Text
  pub certificates : Option (Text × Text)

abbrev pub tls_12 : TlsConfig
tls_12 = record { min_version = 771; server_name = []; root_cas = none; certificates = none }

pub record PlainStrategy : Type 0 where
  pub host : Text
  pub port : ℤ
  pub username : Text
  pub password : Text
  pub vhost : Text

pub record TlsStrategy : Type 0 where
  pub base : PlainStrategy
  pub ca_cert_path : Text
  pub client_cert_path : Text
  pub client_key_path : Text
  pub server_name : Text

pub record CloudStrategy : Type 0 where
  pub url : Text
  pub tls_config : Option TlsConfig

pub data Strategy : Type 0 where
  plain : PlainStrategy → Strategy
  tls : TlsStrategy → Strategy
  cloud : CloudStrategy → Strategy

abbrev pub new_plain_strategy : Text → Text → Text → Text → PlainStrategy
new_plain_strategy host username password vhost = record {
  host = host;
  port = pos 5672;
  username = username;
  password = password;
  vhost = vhost;
}

abbrev pub new_tls_strategy : Text → Text → Text → Text → Text → Text → Text → TlsStrategy
new_tls_strategy host username password vhost ca_cert client_cert client_key = record {
  base = record (new_plain_strategy host username password vhost) { port = pos 5671 };
  ca_cert_path = ca_cert;
  client_cert_path = client_cert;
  client_key_path = client_key;
  server_name = [];
}

abbrev pub new_cloud_strategy : Text → CloudStrategy
new_cloud_strategy url = record { url = url; tls_config = none }

-- `env` gives the environment.
unfoldable pub default_cloud_strategy : (Text → Text) → Option CloudStrategy
default_cloud_strategy env =
    let first = env (codes "RABBITMQ_URL") in
    let url = if is_blank first then env (codes "CLOUDAMQP_URL") else first in
    if is_blank url then none else some (record { url = url; tls_config = some tls_12 })

pub data DialError : Type 0 where
  no_host missing_url invalid_certificate : DialError
  reading_failed loading_failed : Text → DialError

-- What the library is asked to dial.
pub record Dialing : Type 0 where
  pub url : Text
  pub heartbeat : ℤ
  pub tls_config : Option TlsConfig
  pub dial_timeout : Option ℤ

-- The parts are not escaped.
unfoldable pub url_of : Text → PlainStrategy → Text
url_of scheme s =
    scheme
    ++ (codes "://"
        ++ (s.username
            ++ (codes ":"
                ++ (s.password
                    ++ (codes "@"
                        ++ (s.host
                            ++ (codes ":" ++ (format_int s.port ++ (codes "/" ++ s.vhost)))))))))

-- `read_file` gives what a file holds, `is_pem` tells whether that has certificates, and `load_pair` reads a
-- certificate with its key.
module _ (read_file : Text → Result Text Text) (is_pem : Text → Bool)
    (load_pair : Text → Text → Result Text (Text × Text)) where
  unfoldable pub read_cas : Text → Result DialError (Option Text)
  read_cas path = if is_blank path then ok none else elim (read_file path) [
    | ok content ↦ if is_pem content then ok (some content) else err invalid_certificate
    | err e ↦ err (reading_failed e)
    | panic ↦ panic
  ]

  unfoldable pub load_certificates : Text → Text → Result DialError (Option (Text × Text))
  load_certificates cert key =
      if not (is_blank cert) && not (is_blank key)
      then elim (load_pair cert key) [
        | ok pair ↦ ok (some pair)
        | err e ↦ err (loading_failed e)
        | panic ↦ panic
      ]
      else ok none

  unfoldable pub build_tls_config : TlsStrategy → Result DialError TlsConfig
  build_tls_config s = do
    cas ← read_cas s.ca_cert_path
    pair ← load_certificates s.client_cert_path s.client_key_path
    ok (record {
      min_version = 771;
      server_name = s.server_name;
      root_cas = cas;
      certificates = pair;
    })

  unfoldable pub dial : Config → Strategy → Result DialError Dialing
  dial c (plain s) =
      if is_blank s.host
      then err no_host
      else ok (record {
        url = url_of (codes "amqp") s;
        heartbeat = c.heartbeat;
        tls_config = none;
        dial_timeout = none;
      })
  dial c (tls s) = if is_blank s.base.host then err no_host else do
    config ← build_tls_config s
    ok (record {
      url = url_of (codes "amqps") s.base;
      heartbeat = c.heartbeat;
      tls_config = some config;
      dial_timeout = none;
    })
  dial c (cloud s) =
      if is_blank s.url
      then err missing_url
      else ok (record {
        url = s.url;
        heartbeat = c.heartbeat;
        tls_config = some (elim (s.tls_config) [ some t ↦ t | none ↦ tls_12 ]);
        dial_timeout = some c.connection_timeout;
      })
