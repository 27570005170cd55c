-- ===== src/Rabbitmq/Topology.antt =====
-- pkg/messaging/rabbitmq/dlq.go, and of client.go the declarations. A declaration opens a channel, asks the
-- broker and closes the channel; its error, of either, is an answer to its place in the sequence. Logs and
-- what the broker tells of a queue are left out. A queue's dead letters have the key of the message
-- unless the queue names another.
pub mod Lost
mod Tests
use devkit_go.Prelude.{
  ℕ, suc, ◌+◌, Bool, true, false, ◌&&◌, Option, none, some, List, [], ◌∷◌, ◌++◌, if◌then◌else◌,
  Result, ok, err, panic,
}
use devkit_go.Prelude.Int.{ℤ, pos, leb_ℤ}
use devkit_go.Prelude.Text.{Text, codes, text_eq}

-- The arguments of a queue: its time to live, its length, and where its dead letters go.
pub record QueueArgs : Type 0 where
  pub message_ttl : Option ℤ
  pub max_length : Option ℤ
  pub dead_letter_exchange : Option Text
  pub dead_letter_key : Option Text

abbrev pub no_args : QueueArgs
no_args = record {
  message_ttl = none;
  max_length = none;
  dead_letter_exchange = none;
  dead_letter_key = none;
}

-- Name, kind and durability of an exchange; name, durability and arguments of a queue; the queue, the key
-- and the exchange of a binding. Nothing is deleted by the broker or exclusive.
pub data Declaration : Type 0 where
  declare_exchange : Text → Text → Bool → Declaration
  declare_queue : Text → Bool → QueueArgs → Declaration
  bind_queue : Text → Text → Text → Declaration

pub data TopologyError : Type 0 where
  no_queue_name no_exchange_name no_dlx_exchange ttl_not_positive delay_not_positive : TopologyError
  declaration_failed : TopologyError

-- What was declared, and the error that stopped it.
pub record Declared : Type 0 where
  pub declarations : List Declaration
  pub error : Option TopologyError

-- Declarations are made in order until the first that fails; `fails` tells which do.
unfoldable pub declare_all : (ℕ → Bool) → ℕ → List Declaration → Declared
declare_all fails n [] = record { declarations = []; error = none }
declare_all fails n (d ∷ ds) =
    let rest = declare_all fails (suc n) ds in
    if fails n
    then record { declarations = []; error = some declaration_failed }
    else record rest { declarations = d ∷ rest.declarations }

abbrev pub refused : TopologyError → Declared
refused e = record { declarations = []; error = some e }

abbrev pub is_blank : Text → Bool
is_blank [] = true
is_blank (c ∷ s) = false

pub record DlqConfig : Type 0 where
  pub queue_name : Text
  pub exchange_name : Text
  pub routing_key : Text
  pub message_ttl : ℤ
  pub max_length : ℤ
  pub exchange_type : Text
  pub durable : Bool

unfoldable pub default_dlq_config : Text → DlqConfig
default_dlq_config queue_name = record {
  queue_name = queue_name ++ codes ".dlq";
  exchange_name = queue_name ++ codes ".dlq.exchange";
  routing_key = queue_name ++ codes ".failed";
  message_ttl = pos 0;
  max_length = pos 0;
  exchange_type = codes "direct";
  durable = true;
}

abbrev pub if_positive : ℤ → Option ℤ
if_positive n = if leb_ℤ n (pos 0) then none else some n

abbrev pub or_default : Text → Text → Text
or_default s fallback = if is_blank s then fallback else s

-- The exchange, the queue and their binding.
abbrev pub dlq_declarations : DlqConfig → List Declaration
dlq_declarations cfg =
    declare_exchange cfg.exchange_name (or_default cfg.exchange_type (codes "direct")) cfg.durable
    ∷ declare_queue cfg.queue_name cfg.durable (record no_args {
      message_ttl = if_positive cfg.message_ttl;
      max_length = if_positive cfg.max_length;
    })
    ∷ bind_queue cfg.queue_name (or_default cfg.routing_key (codes "#")) cfg.exchange_name
    ∷ []

abbrev pub main_exchange : Text → Text
main_exchange queue_name = queue_name ++ codes ".exchange"

abbrev pub retry_exchange : Text → Text
retry_exchange queue_name = queue_name ++ codes ".retry.exchange"

abbrev pub retry_queue : Text → Text
retry_queue queue_name = queue_name ++ codes ".retry"

abbrev pub retry_declarations : Text → ℤ → List Declaration
retry_declarations queue_name delay =
    declare_exchange (main_exchange queue_name) (codes "direct") true
    ∷ declare_queue queue_name true
        (record no_args { dead_letter_exchange = some (retry_exchange queue_name) })
    ∷ bind_queue queue_name queue_name (main_exchange queue_name)
    ∷ declare_exchange (retry_exchange queue_name) (codes "direct") true
    ∷ declare_queue (retry_queue queue_name) true (record no_args {
      message_ttl = some delay;
      dead_letter_exchange = some (main_exchange queue_name);
      dead_letter_key = some queue_name;
    })
    ∷ bind_queue (retry_queue queue_name) (retry_queue queue_name) (retry_exchange queue_name)
    ∷ dlq_declarations (record {
      queue_name = queue_name ++ codes ".dlq";
      exchange_name = queue_name ++ codes ".dlq.exchange";
      routing_key = queue_name ++ codes ".failed";
      message_ttl = pos 0;
      max_length = pos 0;
      exchange_type = [];
      durable = true;
    })

module _ (fails : ℕ → Bool) where
  unfoldable pub setup_dlq : DlqConfig → Declared
  setup_dlq cfg =
      if is_blank cfg.queue_name
      then refused no_queue_name
      else if is_blank cfg.exchange_name
      then refused no_exchange_name
      else declare_all fails 0 (dlq_declarations cfg)

  unfoldable pub declare_queue_with_dlq : Text → Text → Bool → Declared
  declare_queue_with_dlq queue_name dlx_exchange durable =
      if is_blank queue_name
      then refused no_queue_name
      else if is_blank dlx_exchange
      then refused no_dlx_exchange
      else declare_all fails 0 (
          declare_queue queue_name durable
            (record no_args { dead_letter_exchange = some dlx_exchange })
          ∷ [])

  unfoldable pub declare_queue_with_dlq_and_ttl : Text → Text → Bool → ℤ → Declared
  declare_queue_with_dlq_and_ttl queue_name dlx_exchange durable ttl_ms =
      if is_blank queue_name
      then refused no_queue_name
      else if is_blank dlx_exchange
      then refused no_dlx_exchange
      else if leb_ℤ ttl_ms (pos 0)
      then refused ttl_not_positive
      else declare_all fails 0 (
          declare_queue queue_name durable
            (record no_args { dead_letter_exchange = some dlx_exchange; message_ttl = some ttl_ms })
          ∷ [])

  unfoldable pub setup_delayed_retry_queue : Text → ℤ → Declared
  setup_delayed_retry_queue queue_name retry_delay_ms =
      if is_blank queue_name
      then refused no_queue_name
      else if leb_ℤ retry_delay_ms (pos 0)
      then refused delay_not_positive
      else declare_all fails 0 (retry_declarations queue_name retry_delay_ms)
