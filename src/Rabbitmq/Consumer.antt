-- ===== src/Rabbitmq/Consumer.antt =====
-- pkg/messaging/rabbitmq/consumer.go: what becomes of a delivery. The handlers, and the answers of
-- the AMQP library and of the pool, are parameters; logs, instrumentation and the fields that a
-- message only hands on are left out. Errors of `Ack` and `Nack` are only logged.
pub mod Settling
pub mod Retries
mod Tests
use devkit_go.Prelude.{
  ℕ, zero, suc, ◌+◌, ◌-◌, ◌%◌, ◌^◌, ltb, Bool, true, false, Option, none, some, List, [], ◌∷◌, ◌++◌,
  if◌then◌else◌,
}
use devkit_go.Prelude.Int.{ℤ, pos, negsuc, pos_part, neg_part, ltb_ℤ, leb_ℤ}
use devkit_go.Prelude.Int64.{mul64, wrap64, add64}
use devkit_go.Prelude.Text.{Text, codes, text_eq}
use devkit_go.Rabbitmq.{Error}

-- The value of a header of package amqp, as far as it is told apart.
pub data HeaderValue : Type 0 where
  int32_value int64_value int_value : ℤ → HeaderValue
  other_value : HeaderValue

abbrev pub Headers : Type 0
Headers = List (Text × HeaderValue)

pub record Delivery : Type 0 where
  pub exchange : Text
  pub routing_key : Text
  pub body : Text
  pub headers : Headers

pub data Answer : Type 0 where
  succeeded failed panicked : Answer

abbrev pub Handler : Type 0
Handler = Delivery → Answer

pub record Consumer : Type 0 where
  pub auto_ack : Bool
  pub max_retries : ℤ
  pub handlers : Text → Option Handler

-- What a retry meets: whether the context ends in the pause, and what the pool, the channel and the
-- publish answer.
pub record Surroundings : Type 0 where
  pub done_asleep : Bool
  pub pool_answer : Option Error
  pub channel_answer : Option Error
  pub publish_answer : Option Error

-- What a delivery leads to: `Ack(false)`, `Nack(false, false)` and a publish without an error.
pub data Action : Type 0 where
  ack nack : Action
  republish : Delivery → Action

abbrev pub retry_key : Text
retry_key = codes "x-retry-count"

abbrev pub count_of : HeaderValue → ℤ
count_of (int32_value n) = n
count_of (int64_value n) = n
count_of (int_value n) = n
count_of other_value = pos 0

unfoldable pub retry_count_in : Headers → ℤ
retry_count_in [] = pos 0
retry_count_in ((k, v) ∷ rest) =
    let later = retry_count_in rest in if text_eq k retry_key then count_of v else later

unfoldable pub get_retry_count : Delivery → ℤ
get_retry_count d = retry_count_in d.headers

-- `headers[key] = value`
unfoldable pub set_header : Text → HeaderValue → Headers → Headers
set_header key value [] = (key, value) ∷ []
set_header key value ((k, v) ∷ rest) =
    let others = set_header key value rest in
    if text_eq k key then (k, value) ∷ rest else (k, v) ∷ others

-- The conversion to an int32, of an int64.
unfoldable pub wrap32 : ℤ → ℤ
wrap32 a =
    let r = (pos_part a + (2 ^ 32 - neg_part a % 2 ^ 32)) % 2 ^ 32 in
    if ltb r (2 ^ 31) then pos r else negsuc (2 ^ 32 - r - 1)

-- The delivery that is published for a retry.
unfoldable pub with_retry_count : ℤ → Delivery → Delivery
with_retry_count retry_count d = record d {
  headers = set_header retry_key (int32_value (wrap32 (add64 retry_count (pos 1)))) d.headers;
}

-- In nanoseconds; a shift by 64 or more, also that of a negative count, gives 0.
abbrev pub shift_one : ℤ → ℤ
shift_one (pos n) = wrap64 (pos (2 ^ n))
shift_one (negsuc n) = pos 0

unfoldable pub calculate_retry_backoff : ℤ → ℤ
calculate_retry_backoff retry_count =
    let backoff = mul64 (pos 100000000) (shift_one retry_count) in
    if ltb_ℤ (pos 30000000000) backoff then pos 30000000000 else backoff

unfoldable pub find_handler : Consumer → Text → Option Handler
find_handler c routing_key = elim (c.handlers routing_key) [
  | some h ↦ some h
  | none ↦ c.handlers (codes "*")
]

unfoldable pub requeue_message : Surroundings → Delivery → ℤ → List Action
requeue_message s d retry_count = if s.done_asleep then nack ∷ [] else elim s.pool_answer [
  | some e ↦ nack ∷ []
  | none ↦ elim s.channel_answer [
    | some e ↦ nack ∷ []
    | none ↦ elim s.publish_answer [
      | some e ↦ nack ∷ []
      | none ↦ republish (with_retry_count retry_count d) ∷ ack ∷ []
    ]
  ]
]

unfoldable pub handle_error : Consumer → Surroundings → Delivery → ℤ → List Action
handle_error c s d retry_count =
    if c.auto_ack
    then []
    else if leb_ℤ c.max_retries retry_count
    then nack ∷ []
    else requeue_message s d retry_count

abbrev pub unless_auto : Consumer → Action → List Action
unless_auto c action = if c.auto_ack then [] else action ∷ []

-- `processMessage`: a panic of the handler is recovered.
unfoldable pub process_message : Consumer → Surroundings → Delivery → List Action
process_message c s d = elim (find_handler c d.routing_key) [
  | none ↦ unless_auto c nack
  | some handler ↦ elim (handler d) [
    | succeeded ↦ unless_auto c ack
    | failed ↦ handle_error c s d (get_retry_count d)
    | panicked ↦ unless_auto c nack
  ]
]
