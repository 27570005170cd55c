-- ===== src/Kafka/Running.antt =====
-- pkg/messaging/kafka/new_consumer.go: newConsumer, the goroutines of a consumer with its channel of
-- errors and Close, as steps. What a goroutine does with a message is in Kafka/Consuming; here it only
-- sends errors and ends. Logs and the monitor of the channel are left out.
pub mod Accounting
use devkit_go.Prelude.{
  ℕ, suc, ◌+◌, ◌-◌, ◌%◌, ◌^◌, Bool, true, false, not, ◌&&◌, Option, none, some, List, [], ◌∷◌, ◌++◌,
  if◌then◌else◌, ltb, length, Result, ok, err, panic,
}
use devkit_go.Prelude.Int.{ℤ}
use devkit_go.Prelude.Text.{Text, text_eq}
use devkit_go.Kafka.Settings.{Config, no_items}

-- Of a consumer's configuration.
pub record ConsumerConfig : Type 0 where
  pub group_id : Text
  pub topics : List Text
  pub start_offset : ℤ
  pub min_bytes : ℤ
  pub max_bytes : ℤ
  pub commit_each : Bool

pub data ConsumerOption : Type 0 where
  with_group_id : Text → ConsumerOption
  with_topics : List Text → ConsumerOption
  with_start_offset : ℤ → ConsumerOption

abbrev pub consumer_config_of : Config → ConsumerConfig
consumer_config_of c = record {
  group_id = c.consumer_group_id;
  topics = c.consumer_topics;
  start_offset = c.consumer_start_offset;
  min_bytes = c.consumer_min_bytes;
  max_bytes = c.consumer_max_bytes;
  commit_each = true;
}

unfoldable pub apply_consumer_option : ConsumerOption → ConsumerConfig → ConsumerConfig
apply_consumer_option (with_group_id id) c = record c { group_id = id }
apply_consumer_option (with_topics topics) c = record c { topics = topics }
apply_consumer_option (with_start_offset offset) c = record c { start_offset = offset }

unfoldable pub apply_consumer_options : List ConsumerOption → ConsumerConfig → ConsumerConfig
apply_consumer_options [] c = c
apply_consumer_options (o ∷ options) c = apply_consumer_options options (apply_consumer_option o c)

pub data ConsumerError : Type 0 where
  no_topic consumer_closed : ConsumerError

-- What the reader of the library is made with; the queue is set up in Kafka/Dlq.
unfoldable pub new_consumer : Config → List ConsumerOption → Result ConsumerError ConsumerConfig
new_consumer config options =
    let c = apply_consumer_options options (consumer_config_of config) in
    if no_items c.topics then err no_topic else ok c

-- RegisterHandler on the map of handlers, which is a function.
unfoldable pub register_handler {ℓ} :
    {H : Type ℓ} → Text → H → (Text → Option (List H)) → Text → Option (List H)
register_handler event_type handler handlers t =
    if text_eq t event_type
    then some ((elim (handlers event_type) [ none ↦ [] | some hs ↦ hs ]) ++ (handler ∷ []))
    else handlers t

-- `E` is the errors. `running` is the counter of the wait group, `error_ch` the buffer of the channel.
-- What follows is kept to state properties: what was taken from the channel, what it accepted and
-- refused, whether something was sent on it when closed, and whether Close stopped waiting.
pub record Consumer (E : Type 0) : Type 0 where
  pub closed : Bool
  pub running : ℕ
  pub error_ch : List E
  pub dropped_errors : ℕ
  pub waiting : Bool
  pub channel_closed : Bool
  pub received : List E
  pub accepted : List E
  pub refused : ℕ
  pub sent_closed : Bool
  pub timed_out : Bool

abbrev pub default_error_channel_size : ℕ
default_error_channel_size = 1000

pub data Event (E : Type 0) : Type 0 where
  consume_called : ℕ → Event E
  error_sent : E → Event E
  goroutine_ended error_received close_called workers_done close_timed_out : Event E

abbrev pub is_zero : ℕ → Bool
is_zero n = not (ltb 0 n)

module _ {E : Type 0} where
  abbrev pub new_running : Consumer E
  new_running = record {
    closed = false;
    running = 0;
    error_ch = [];
    dropped_errors = 0;
    waiting = false;
    channel_closed = false;
    received = [];
    accepted = [];
    refused = 0;
    sent_closed = false;
    timed_out = false;
  }

  -- Consume starts one goroutine, and ConsumeWithWorkerPool the workers and the fetcher.
  unfoldable pub consume : ℕ → Consumer E → Result ConsumerError (Consumer E)
  consume n c = if c.closed then err consumer_closed else ok (record c { running = c.running + n })

  unfoldable pub consume_with_worker_pool : ℕ → Consumer E → Result ConsumerError (Consumer E)
  consume_with_worker_pool worker_count c = consume (worker_count + 1) c

  -- A send on a closed channel panics, in a `select` with a default too. The counter is a uint64.
  unfoldable pub send_error : E → Consumer E → Consumer E
  send_error e c =
      if c.channel_closed
      then record c { sent_closed = true }
      else if ltb (length c.error_ch) default_error_channel_size
      then record c { error_ch = c.error_ch ++ (e ∷ []); accepted = c.accepted ++ (e ∷ []) }
      else record c { dropped_errors = (c.dropped_errors + 1) % 2 ^ 64; refused = c.refused + 1 }

  unfoldable pub receive : Consumer E → Consumer E
  receive c = elim (c.error_ch) [
    | [] ↦ c
    | e ∷ rest ↦ record c { error_ch = rest; received = c.received ++ (e ∷ []) }
  ]

  abbrev pub close_channel : Consumer E → Consumer E
  close_channel c = record c { waiting = false; channel_closed = true }

  -- Only a running goroutine sends errors and ends. An event that cannot happen changes nothing.
  unfoldable pub step : Event E → Consumer E → Consumer E
  step (consume_called n) c = elim (consume n c) [ ok c' ↦ c' | err e ↦ c | panic ↦ c ]
  step (error_sent e) c = if ltb 0 c.running then send_error e c else c
  step goroutine_ended c = if ltb 0 c.running then record c { running = c.running - 1 } else c
  step error_received c = receive c
  step close_called c = if c.closed then c else record c { closed = true; waiting = true }
  step workers_done c = if c.waiting && is_zero c.running then close_channel c else c
  step close_timed_out c = if c.waiting then record (close_channel c) { timed_out = true } else c

  unfoldable pub steps : List (Event E) → Consumer E → Consumer E
  steps [] c = c
  steps (e ∷ events) c = steps events (step e c)
