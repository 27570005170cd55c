-- ===== src/Kafka/Settings.antt =====
-- pkg/messaging/kafka/config.go, options.go, and of client.go NewClient. Durations are in nanoseconds; the
-- logger and the telemetry are left out. The configuration of the queue is that of Kafka/Dlq.
pub mod Sensible
use devkit_go.Prelude.{
  ℕ, ◌≡◌, ◌≢◌, ◌⊎◌, ◌↔◌, inl, inr, refl, arith, Bool, true, false, Option, none, some, List, [],
  ◌∷◌, if◌then◌else◌, Result, ok, err, ◌&&◌,
}
use devkit_go.Prelude.Int.{ℤ, pos, negsuc, leb_ℤ, ltb_ℤ}
use devkit_go.Prelude.Text.{Text, codes}
use devkit_go.Kafka.Auth.{
  Strategy, plaintext, plain, scram, confluent, AuthConfig, scram_sha512, new_strategy,
}

pub record Config : Type 0 where
  pub brokers : List Text
  pub auth_strategy : Option Strategy
  pub auth_config : AuthConfig
  pub dial_timeout : ℤ
  pub connect_timeout : ℤ
  pub reconnect_enabled : Bool
  pub reconnect_interval : ℤ
  pub max_reconnect_delay : ℤ
  pub max_retries : ℤ
  pub retry_backoff : ℤ
  pub max_retry_backoff : ℤ
  pub health_check_timeout : ℤ
  pub health_check_enabled : Bool
  pub producer_batch_size : ℤ
  pub producer_batch_timeout : ℤ
  pub producer_max_attempts : ℤ
  pub producer_async : Bool
  pub producer_compression : ℤ
  pub producer_required_acks : ℤ
  pub consumer_group_id : Text
  pub consumer_topics : List Text
  pub consumer_min_bytes : ℤ
  pub consumer_max_bytes : ℤ
  pub consumer_commit_interval : ℤ
  pub consumer_start_offset : ℤ
  pub consumer_max_wait : ℤ

abbrev pub no_auth : AuthConfig
no_auth = record {
  username = [];
  password = [];
  tls_config = none;
  insecure_skip_verify = false;
  algorithm = [];
}

abbrev pub default_config : Config
default_config = record {
  brokers = [];
  auth_strategy = some (new_strategy (codes "CONFLUENT"));
  auth_config = no_auth;
  dial_timeout = pos 10000000000;
  connect_timeout = pos 30000000000;
  reconnect_enabled = true;
  reconnect_interval = pos 5000000000;
  max_reconnect_delay = pos 120000000000;
  max_retries = pos 3;
  retry_backoff = pos 2000000000;
  max_retry_backoff = pos 30000000000;
  health_check_timeout = pos 5000000000;
  health_check_enabled = true;
  producer_batch_size = pos 100;
  producer_batch_timeout = pos 1000000000;
  producer_max_attempts = pos 3;
  producer_async = false;
  producer_compression = pos 0;
  producer_required_acks = negsuc 0;
  consumer_group_id = [];
  consumer_topics = [];
  consumer_min_bytes = pos 1000;
  consumer_max_bytes = pos 10000000;
  consumer_commit_interval = pos 1000000000;
  consumer_start_offset = negsuc 0;
  consumer_max_wait = pos 500000000;
}

-- Of options.go, the options by name; a nil argument is `none`.
pub data ClientOption : Type 0 where
  with_brokers : List Text → ClientOption
  with_auth_plain with_auth_confluent : Text → Text → ClientOption
  with_auth_scram : Text → Text → Text → ClientOption
  with_auth_plaintext : ClientOption
  with_auth_config : Option Strategy → Option AuthConfig → ClientOption
  with_insecure_skip_verify with_health_check_enabled with_reconnect_enabled with_producer_async :
      Bool → ClientOption
  with_dial_timeout with_connect_timeout with_max_retries with_retry_backoff
        with_max_retry_backoff :
      ℤ → ClientOption
  with_health_check_timeout with_reconnect_interval with_max_reconnect_delay : ℤ → ClientOption
  with_producer_batch_size with_producer_batch_timeout with_producer_max_attempts : ℤ → ClientOption
  with_producer_compression with_producer_required_acks : ℤ → ClientOption
  with_consumer_group_id : Text → ClientOption
  with_consumer_topics : List Text → ClientOption
  with_consumer_min_bytes with_consumer_max_bytes with_consumer_commit_interval : ℤ → ClientOption
  with_consumer_start_offset with_consumer_max_wait : ℤ → ClientOption

abbrev pub or_kept {ℓ} : {A : Type ℓ} → Option A → A → A
or_kept none kept = kept
or_kept (some a) kept = a

abbrev pub is_positive : ℤ → Bool
is_positive n = ltb_ℤ (pos 0) n

abbrev pub no_items {ℓ} : {A : Type ℓ} → List A → Bool
no_items [] = true
no_items (a ∷ l) = false

-- The value if it is positive, and otherwise what there is.
abbrev pub positive_or : ℤ → ℤ → ℤ
positive_or n kept = if is_positive n then n else kept

abbrev pub with_credentials : Strategy → Text → Text → Text → Config → Config
with_credentials s username password algorithm c = record c {
  auth_strategy = some s;
  auth_config = record no_auth { username = username; password = password; algorithm = algorithm };
}

unfoldable pub apply_option : ClientOption → Config → Config
apply_option (with_brokers brokers) c =
    if no_items brokers then c else record c { brokers = brokers }
apply_option (with_auth_plain user password) c = with_credentials plain user password [] c
apply_option (with_auth_scram user password algorithm) c =
    with_credentials scram user password algorithm c
apply_option (with_auth_confluent key secret) c =
    with_credentials confluent key secret scram_sha512 c
apply_option with_auth_plaintext c = record c {
  auth_strategy = some plaintext;
  auth_config = no_auth;
}
apply_option (with_auth_config none auth) c = record c { auth_config = or_kept auth c.auth_config }
apply_option (with_auth_config (some s) auth) c = record c {
  auth_strategy = some s;
  auth_config = or_kept auth c.auth_config;
}
apply_option (with_insecure_skip_verify skip) c = record c {
  auth_config = record c.auth_config { insecure_skip_verify = skip };
}
apply_option (with_health_check_enabled on) c = record c { health_check_enabled = on }
apply_option (with_reconnect_enabled on) c = record c { reconnect_enabled = on }
apply_option (with_producer_async on) c = record c { producer_async = on }
apply_option (with_dial_timeout d) c = record c { dial_timeout = positive_or d c.dial_timeout }
apply_option (with_connect_timeout d) c = record c {
  connect_timeout = positive_or d c.connect_timeout;
}
apply_option (with_max_retries n) c = if leb_ℤ (pos 0) n then record c { max_retries = n } else c
apply_option (with_retry_backoff d) c = record c { retry_backoff = positive_or d c.retry_backoff }
apply_option (with_max_retry_backoff d) c = record c {
  max_retry_backoff = positive_or d c.max_retry_backoff;
}
apply_option (with_health_check_timeout d) c = record c {
  health_check_timeout = positive_or d c.health_check_timeout;
}
apply_option (with_reconnect_interval d) c = record c {
  reconnect_interval = positive_or d c.reconnect_interval;
}
apply_option (with_max_reconnect_delay d) c = record c {
  max_reconnect_delay = positive_or d c.max_reconnect_delay;
}
apply_option (with_producer_batch_size n) c = record c {
  producer_batch_size = positive_or n c.producer_batch_size;
}
apply_option (with_producer_batch_timeout d) c = record c {
  producer_batch_timeout = positive_or d c.producer_batch_timeout;
}
apply_option (with_producer_max_attempts n) c = record c {
  producer_max_attempts = positive_or n c.producer_max_attempts;
}
apply_option (with_producer_compression codec) c =
    if leb_ℤ (pos 0) codec && leb_ℤ codec (pos 4)
    then record c { producer_compression = codec }
    else c
apply_option (with_producer_required_acks acks) c = record c { producer_required_acks = acks }
apply_option (with_consumer_group_id id) c =
    if no_items id then c else record c { consumer_group_id = id }
apply_option (with_consumer_topics topics) c =
    if no_items topics then c else record c { consumer_topics = topics }
apply_option (with_consumer_min_bytes n) c = record c {
  consumer_min_bytes = positive_or n c.consumer_min_bytes;
}
apply_option (with_consumer_max_bytes n) c = record c {
  consumer_max_bytes = positive_or n c.consumer_max_bytes;
}
apply_option (with_consumer_commit_interval d) c =
    if leb_ℤ (pos 0) d then record c { consumer_commit_interval = d } else c
apply_option (with_consumer_start_offset offset) c = record c { consumer_start_offset = offset }
apply_option (with_consumer_max_wait d) c = record c {
  consumer_max_wait = positive_or d c.consumer_max_wait;
}

unfoldable pub apply_options : List ClientOption → Config → Config
apply_options [] c = c
apply_options (o ∷ options) c = apply_options options (apply_option o c)

pub data ConfigError : Type 0 where
  invalid_brokers invalid_auth_strategy : ConfigError

unfoldable pub validate_config : Config → Option ConfigError
validate_config c =
    if no_items c.brokers
    then some invalid_brokers
    else elim (c.auth_strategy) [ none ↦ some invalid_auth_strategy | some s ↦ none ]

-- The configuration of the client that is made.
unfoldable pub new_client : List ClientOption → Result ConfigError Config
new_client options =
    let c = apply_options options default_config in
    elim (validate_config c) [ some e ↦ err e | none ↦ ok c ]
