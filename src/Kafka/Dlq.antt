-- ===== src/Kafka/Dlq.antt =====
-- pkg/messaging/kafka/dlq.go and dlq_options.go, and the methods `sendToDLQ` and `initializeDLQ` of
-- consumer_dlq.go, and `extractHeaders` of new_consumer.go. Times of day and logs are left out; a map of
-- headers is the list of its entries, with no key twice.
pub mod Extracting
use devkit_go.Prelude.{
  ℕ, Bool, true, false, not, Option, none, some, List, [], ◌∷◌, ◌++◌, if◌then◌else◌, map,
}
use devkit_go.Prelude.Int.{ℤ, pos, ltb_ℤ}
use devkit_go.Prelude.Text.{Text, codes, text_eq}
use devkit_go.Prelude.Decimal.{format_nat}
use devkit_go.Kafka.{Error, max_retries_exceeded, no_dlq_topic, no_publisher, serialize_failed}

abbrev pub Headers : Type 0
Headers = List (Text × Text)

-- kafka.Message of the library, as far as it is read.
pub record Message : Type 0 where
  pub topic : Text
  pub partition : ℕ
  pub offset : ℕ
  pub key : Text
  pub value : Text
  pub headers : Headers

pub record Retry : Type 0 where
  pub attempt : ℕ
  pub error : Text
  pub backoff : ℤ

pub record DlqMessage : Type 0 where
  pub original : Message
  pub original_event : Text
  pub error : Text
  pub attempts : ℕ
  pub max_attempts : ℕ
  pub retry_history : List Retry
  pub consumer_group : Text
  pub service_name : Text
  pub environment : Text

-- messaging.Publisher: topic, key, headers and body.
abbrev pub Publisher : Type 0
Publisher = Text → Text → Headers → Text → Option Error

pub data DlqStrategy : Type 0 where
  publish_to_dlq : Option Publisher → Text → DlqStrategy
  log_only discard : DlqStrategy
  custom : (DlqMessage → Option Error) → DlqStrategy

pub record DlqConfig : Type 0 where
  pub enabled : Bool
  pub topic : Text
  pub max_retries : ℕ
  pub retry_backoff : ℤ
  pub max_retry_backoff : ℤ
  pub strategy : Option DlqStrategy
  pub service_name : Text
  pub environment : Text
  pub include_stack_trace : Bool
  pub publisher : Option Publisher

-- Durations in nanoseconds.
abbrev pub default_dlq_config : DlqConfig
default_dlq_config = record {
  enabled = false;
  topic = [];
  max_retries = 3;
  retry_backoff = pos 2000000000;
  max_retry_backoff = pos 30000000000;
  strategy = none;
  service_name = codes "unknown";
  environment = codes "development";
  include_stack_trace = false;
  publisher = none;
}

abbrev pub is_empty : Text → Bool
is_empty [] = true
is_empty (c ∷ s) = false

-- `headers[key]`, which is empty for a missing key.
unfoldable pub header : Text → Headers → Text
header key [] = []
header key ((k, v) ∷ rest) = let later = header key rest in if text_eq key k then v else later

abbrev pub or_unknown : Text → Text
or_unknown s = if is_empty s then codes "unknown" else s

-- `headers[key] = value`.
unfoldable pub put_header : Text → Text → Headers → Headers
put_header key value [] = (key, value) ∷ []
put_header key value ((k, v) ∷ rest) =
    let later = put_header key value rest in
    if text_eq key k then (key, value) ∷ rest else (k, v) ∷ later

-- The headers of a message put into a map one after the other: of a key that stands twice, the last
-- value is kept.
unfoldable pub put_headers : Headers → Headers → Headers
put_headers [] made = made
put_headers ((k, v) ∷ rest) made = put_headers rest (put_header k v made)

abbrev pub extract_headers : Message → Headers
extract_headers msg = put_headers msg.headers []

-- What a message of the queue holds of the original, with the map of its headers.
abbrev pub extracted : Message → Message
extracted msg = record msg { headers = extract_headers msg }

unfoldable pub new_dlq_message : Message → Text → ℕ → ℕ → Text → List Retry → DlqConfig → DlqMessage
new_dlq_message msg error attempts max_attempts consumer_group history config = record {
  original = extracted msg;
  original_event = or_unknown (header (codes "event_type") (extract_headers msg));
  error = error;
  attempts = attempts;
  max_attempts = max_attempts;
  retry_history = history;
  consumer_group = consumer_group;
  service_name = config.service_name;
  environment = config.environment;
}

abbrev pub original_header : Text × Text → Text × Text
original_header (k, v) = (codes "original_" ++ k, v)

-- The headers of the published message, but for its time.
unfoldable pub dlq_headers : DlqMessage → Headers
dlq_headers msg =
    (codes "dlq_version", codes "1.0")
    ∷ (codes "dlq_original_topic", msg.original.topic)
    ∷ (codes "dlq_error", msg.error)
    ∷ (codes "dlq_attempts", format_nat msg.attempts)
    ∷ (codes "dlq_service", msg.service_name)
    ∷ (codes "dlq_environment", msg.environment)
    ∷ map original_header msg.original.headers

-- `json` is `json.Marshal`, with none for its error.
unfoldable pub handle_failure : (DlqMessage → Option Text) → DlqStrategy → DlqMessage → Option Error
handle_failure json (publish_to_dlq none topic) msg = some no_publisher
handle_failure json (publish_to_dlq (some publish) topic) msg = elim (json msg) [
  | none ↦ some serialize_failed
  | some payload ↦ publish topic msg.original.key (dlq_headers msg) payload
]
handle_failure json log_only msg = none
handle_failure json discard msg = none
handle_failure json (custom handle) msg = handle msg

unfoldable pub name : DlqStrategy → Option Text
name (publish_to_dlq publisher topic) = some (codes "publish_to_dlq")
name log_only = some (codes "log_only")
name discard = some (codes "discard")
name (custom handle) = none

-- `initializeDLQ`: the strategy of the consumer, with none when the queue is disabled.
unfoldable pub initialize_dlq : DlqConfig → Text → Option Error × Option DlqStrategy
initialize_dlq config consumer_topic =
    let topic = if is_empty consumer_topic then config.topic else consumer_topic in
    if not config.enabled
    then (none, none)
    else if is_empty topic
    then (some no_dlq_topic, none)
    else elim config.strategy [
      | some strategy ↦ (none, some strategy)
      | none ↦ elim config.publisher [
        | some publish ↦ (none, some (publish_to_dlq (some publish) topic))
        | none ↦ (none, some log_only)
      ]
    ]

-- What the loop over the attempts keeps.
pub record RetryState : Type 0 where
  pub attempts : ℕ
  pub retry_history : List Retry

unfoldable pub send_to_dlq :
    (DlqMessage → Option Text)
    → DlqConfig
    → Option DlqStrategy
    → Text
    → Message
    → Text
    → RetryState
    → Option Error
send_to_dlq json config none group msg error state = some max_retries_exceeded
send_to_dlq json config (some strategy) group msg error state =
    if not config.enabled
    then some max_retries_exceeded
    else handle_failure json strategy (
        new_dlq_message msg error state.attempts config.max_retries group state.retry_history
          config)

abbrev pub DlqOption : Type 0
DlqOption = DlqConfig → DlqConfig

abbrev pub with_dlq_enabled : Bool → DlqOption
with_dlq_enabled enabled c = record c { enabled = enabled }

unfoldable pub with_dlq_topic : Text → DlqOption
with_dlq_topic topic c = if is_empty topic then c else record c { topic = topic; enabled = true }

abbrev pub with_dlq_max_retries : ℕ → DlqOption
with_dlq_max_retries n c = record c { max_retries = n }

unfoldable pub with_dlq_retry_backoff : ℤ → DlqOption
with_dlq_retry_backoff backoff c =
    if ltb_ℤ (pos 0) backoff then record c { retry_backoff = backoff } else c

unfoldable pub with_dlq_max_retry_backoff : ℤ → DlqOption
with_dlq_max_retry_backoff backoff c =
    if ltb_ℤ (pos 0) backoff then record c { max_retry_backoff = backoff } else c

unfoldable pub with_dlq_service_name : Text → DlqOption
with_dlq_service_name service_name c =
    if is_empty service_name then c else record c { service_name = service_name }

unfoldable pub with_dlq_environment : Text → DlqOption
with_dlq_environment environment c =
    if is_empty environment then c else record c { environment = environment }

abbrev pub with_dlq_include_stack_trace : Bool → DlqOption
with_dlq_include_stack_trace include c = record c { include_stack_trace = include }

abbrev pub with_dlq_strategy : DlqStrategy → DlqOption
with_dlq_strategy strategy c = record c { strategy = some strategy }
