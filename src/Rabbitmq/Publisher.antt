-- ===== src/Rabbitmq/Publisher.antt =====
-- pkg/messaging/rabbitmq/publisher.go, options.go, and of client.go New and what refuses a closed client. The
-- connection manager, the pool and the channel are what they answer; the time of a message, logs and
-- telemetry are left out.
mod Tests
use devkit_go.Prelude.{
  ℕ, zero, suc, ◌≡◌, ◌⊎◌, ◌≤◌, ◌+◌, inl, inr, refl, ap, subst, ◌∙◌, arith, Bool, true, false, not,
  ◌&&◌, Option, none, some, List, [], ◌∷◌, ◌++◌, if◌then◌else◌, Result, ok, err, panic, ◌>>=◌, map,
  length, Result-cases, Bool-cases,
}
use devkit_go.Prelude.Int.{ℤ}
use devkit_go.Prelude.Text.{Text, codes, text_eq}
use devkit_go.Rabbitmq.{Error, client_closed}
use devkit_go.Rabbitmq.Settings.{
  Config, ConfigError, default_config, validate, Strategy, plain, tls, cloud, new_plain_strategy,
  new_tls_strategy, new_cloud_strategy,
}

-- A client that is being made, and the options of options.go by name.
pub record Settings : Type 0 where
  pub config : Config
  pub strategy : Option Strategy

pub data ClientOption : Type 0 where
  with_config : Config → ClientOption
  with_connection_strategy : Option Strategy → ClientOption
  with_url with_service_name with_service_version with_environment with_cloud_connection :
      Text → ClientOption
  with_heartbeat with_connection_timeout with_publish_timeout with_default_prefetch_count :
      ℤ → ClientOption
  with_reconnect_config : ℤ → ℤ → ℤ → ClientOption
  with_auto_reconnect with_publisher_confirms : Bool → ClientOption
  with_plain_connection : Text → Text → Text → Text → ClientOption
  with_tls_connection : Text → Text → Text → Text → Text → Text → Text → ClientOption

abbrev pub on_config : (Config → Config) → Settings → Settings
on_config f c = record c { config = f c.config }

unfoldable pub apply_option : ClientOption → Settings → Settings
apply_option (with_config cfg) c = record c { config = cfg }
apply_option (with_connection_strategy s) c = record c { strategy = s }
apply_option (with_url url) c = on_config (λ k. record k { url = url }) c
apply_option (with_heartbeat d) c = on_config (λ k. record k { heartbeat = d }) c
apply_option (with_connection_timeout d) c = on_config (λ k. record k { connection_timeout = d }) c
apply_option (with_publish_timeout d) c = on_config (λ k. record k { publish_timeout = d }) c
apply_option (with_reconnect_config timeout initial max) c =
    on_config
      (λ k. record k {
        reconnect_timeout = timeout;
        reconnect_initial_interval = initial;
        reconnect_max_interval = max;
      })
      c
apply_option (with_auto_reconnect on) c = on_config (λ k. record k { enable_auto_reconnect = on }) c
apply_option (with_publisher_confirms on) c =
    on_config (λ k. record k { enable_publisher_confirms = on }) c
apply_option (with_default_prefetch_count n) c =
    on_config (λ k. record k { default_prefetch_count = n }) c
apply_option (with_service_name name) c = on_config (λ k. record k { service_name = name }) c
apply_option (with_service_version v) c = on_config (λ k. record k { service_version = v }) c
apply_option (with_environment env) c = on_config (λ k. record k { environment = env }) c
apply_option (with_plain_connection host user password vhost) c = record c {
  strategy = some (plain (new_plain_strategy host user password vhost));
}
apply_option (with_tls_connection host user password vhost ca cert key) c = record c {
  strategy = some (tls (new_tls_strategy host user password vhost ca cert key));
}
apply_option (with_cloud_connection url) c = record c {
  strategy = some (cloud (new_cloud_strategy url));
}

unfoldable pub apply_options : List ClientOption → Settings → Settings
apply_options [] c = c
apply_options (o ∷ options) c = apply_options options (apply_option o c)

pub data NewError : Type 0 where
  invalid_configuration : ConfigError → NewError
  invalid_strategy no_initial_connection : NewError

-- `connects` tells whether the manager that is made of a configuration and a strategy connects.
unfoldable pub new :
    (Config → Strategy → Bool) → List ClientOption → Result NewError (Config × Strategy)
new connects options =
    let c = apply_options options (record { config = default_config; strategy = none }) in
    elim (validate c.config) [
      | some e ↦ err (invalid_configuration e)
      | none ↦ elim (c.strategy) [
        | none ↦ err invalid_strategy
        | some s ↦ if connects c.config s then ok (c.config, s) else err no_initial_connection
      ]
    ]

-- `healthy` is isHealthy, and the function behind it what the manager and its pool answer.
unfoldable pub is_connected : Bool → Bool → Bool
is_connected closed healthy = if closed then false else healthy

unfoldable pub channel : {C : Type 0} → Bool → Result Error C → Result Error C
channel closed from_pool = if closed then err client_closed else from_pool

unfoldable pub connection : {C : Type 0} → Bool → Result Error C → Result Error C
connection closed from_manager = if closed then err client_closed else from_manager

pub data PingError : Type 0 where
  ping_closed not_healthy : PingError

unfoldable pub ping : Bool → Bool → Option PingError
ping closed healthy =
    if closed then some ping_closed else if not healthy then some not_healthy else none

-- A message of the AMQP library; the value of a header is a text.
pub record Publishing : Type 0 where
  pub content_type : Text
  pub delivery_mode : ℕ
  pub priority : ℕ
  pub expiration : Text
  pub correlation_id : Text
  pub reply_to : Text
  pub message_id : Text
  pub headers : List (Text × Text)
  pub body : Text

pub data PublishOption : Type 0 where
  with_content_type with_expiration with_correlation_id with_reply_to with_message_id :
      Text → PublishOption
  with_headers : List (Text × Text) → PublishOption
  with_priority with_delivery_mode : ℕ → PublishOption

-- The table of headers is the list of its entries, with no key twice.
unfoldable pub set_header : Text → Text → List (Text × Text) → List (Text × Text)
set_header key value [] = (key, value) ∷ []
set_header key value ((k, v) ∷ rest) =
    let later = set_header key value rest in
    if text_eq key k then (key, value) ∷ rest else (k, v) ∷ later

unfoldable pub set_headers : List (Text × Text) → List (Text × Text) → List (Text × Text)
set_headers [] table = table
set_headers ((k, v) ∷ headers) table = set_headers headers (set_header k v table)

unfoldable pub apply_publish_option : PublishOption → Publishing → Publishing
apply_publish_option (with_content_type t) p = record p { content_type = t }
apply_publish_option (with_headers hs) p = record p { headers = set_headers hs p.headers }
apply_publish_option (with_priority n) p = record p { priority = n }
apply_publish_option (with_expiration ms) p = record p { expiration = ms }
apply_publish_option (with_correlation_id id) p = record p { correlation_id = id }
apply_publish_option (with_reply_to queue) p = record p { reply_to = queue }
apply_publish_option (with_message_id id) p = record p { message_id = id }
apply_publish_option (with_delivery_mode mode) p = record p { delivery_mode = mode }

unfoldable pub apply_publish_options : List PublishOption → Publishing → Publishing
apply_publish_options [] p = p
apply_publish_options (o ∷ options) p = apply_publish_options options (apply_publish_option o p)

unfoldable pub message_of : List PublishOption → Text → Publishing
message_of options body = apply_publish_options options (record {
  content_type = codes "application/json";
  delivery_mode = 2;
  priority = 0;
  expiration = [];
  correlation_id = [];
  reply_to = [];
  message_id = [];
  headers = [];
  body = body;
})

-- What the client answers when the n-th message of a batch is published: whether it is connected, the
-- publisher's channel, and what that channel answers with and without confirmations.
pub record Answers (C : Type 0) : Type 0 where
  pub connected : ℕ → Bool
  pub publisher_channel : ℕ → Result Error C
  pub with_confirm : ℕ → C → Publishing → Result Error (Unit {0})
  pub without_confirm : ℕ → C → Publishing → Result Error (Unit {0})

module _ {C : Type 0} (config : Config) (a : Answers C) where
  unfoldable pub publish_internal : ℕ → Publishing → Result Error (Unit {0})
  publish_internal n msg = do
    ch ← a.publisher_channel n
    if config.enable_publisher_confirms then a.with_confirm n ch msg else a.without_confirm n ch msg

  unfoldable pub publish : ℕ → List PublishOption → Text → Result Error (Unit {0})
  publish n options body =
      if a.connected n then publish_internal n (message_of options body) else err client_closed

  -- The number of the message that failed, with its error.
  unfoldable pub publish_batch : ℕ → List PublishOption → List Text → Result (ℕ × Error) (Unit {0})
  publish_batch n options [] = ok tt
  publish_batch n options (body ∷ messages) =
      let rest = publish_batch (suc n) options messages in
      elim (publish n options body) [ ok done ↦ rest | err e ↦ err (n, e) | panic ↦ panic ]

  -- The messages before it were published.
  abbrev pub ArePublished : ℕ → List PublishOption → List Text → Type 0
  ArePublished n options [] = Unit {0}
  ArePublished n options (body ∷ messages) =
      (publish n options body ≡ ok tt) × ArePublished (suc n) options messages

  -- When a batch gives the error of a message, every message before that one was published all the same.
  pub publish_batch-prefix :
      (n : ℕ) (options : List PublishOption) (messages : List Text) (k : ℕ) (e : Error)
      → publish_batch n options messages ≡ err (k, e)
      → (before : List Text) × ((body : Text) × ((after : List Text) × (messages
              ≡ before ++ (body ∷ after))
            × (n + length before ≡ k)
            × ArePublished n options before
            × (publish k options body ≡ err e)))
  unfolding publish_batch
  publish_batch-prefix n options [] k e h = absurd (ground arith)
  publish_batch-prefix n options (body ∷ messages) k e h =
      elim (Result-cases (publish n options body)) [
        | inl (done, fine) ↦
            let (before, (failed, (after, same, count, published, refused))) =
              publish_batch-prefix (suc n) options messages k e (ground arith) in
            (
              body ∷ before,
              (
                failed,
                (after, ap (◌∷◌ body) same, omega (arith, count), (fine, published), refused),
              ),
            )
        | inr (inl (x, failed)) ↦
            let here : n ≡ k = ground arith in
            let what : x ≡ e = ground arith in
            (
              [],
              (
                body,
                (
                  messages,
                  refl,
                  omega (arith, here),
                  tt,
                  subst (λ j. publish j options body ≡ err e) here (failed ∙ ap err what),
                ),
              ),
            )
        | inr (inr crashed) ↦ absurd (ground arith)
      ]
