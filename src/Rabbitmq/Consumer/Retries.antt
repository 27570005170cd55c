-- ===== src/Rabbitmq/Consumer/Retries.antt =====
-- The retries of pkg/messaging/rabbitmq/consumer.go: the count in the headers, and how they end.
use devkit_go.Prelude.{ℕ, zero, suc, Bool, true, false, ◌&&◌, Option, none, some, List, ◌∷◌}
use devkit_go.Prelude.Int.{pos, leb_ℤ}
use devkit_go.Rabbitmq.Consumer.{
  Delivery, Consumer, Surroundings, Action, republish, process_message, calculate_retry_backoff,
}

abbrev pub republished : List Action → Option Delivery
republished (republish d ∷ rest) = some d
republished _ = none

-- How a message ends that is delivered again each time it is published: the number of retries, and
-- the answer that ends them. None if the fuel does not suffice.
unfoldable pub redeliver : Consumer → Surroundings → ℕ → Delivery → ℕ → Option (ℕ × List Action)
redeliver c s zero d retries = none
redeliver c s (suc fuel) d retries = elim (republished (process_message c s d)) [
  | none ↦ some (retries, process_message c s d)
  | some d' ↦ redeliver c s fuel d' (suc retries)
]

abbrev pub calm : Surroundings
calm = record {
  done_asleep = false;
  pool_answer = none;
  channel_answer = none;
  publish_answer = none;
}

-- A test on all numbers below `n`.
all_below : ℕ → (ℕ → Bool) → Bool
all_below zero f = true
all_below (suc n) f = f n && all_below n f

in_bounds : ℕ → Bool
in_bounds n =
    leb_ℤ (pos 100000000) (calculate_retry_backoff (pos n))
    && leb_ℤ (calculate_retry_backoff (pos n)) (pos 30000000000)
