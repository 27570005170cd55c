-- ===== src/Rabbitmq/Consumer/Tests.antt =====
-- Deliveries that fail.
use devkit_go.Prelude.{ℕ, ◌≡◌, ◌⊎◌, refl, true, false, Option, none, some, [], ◌∷◌}
use devkit_go.Prelude.Int.{pos, leb_ℤ}
use devkit_go.Prelude.Text.{codes}
use devkit_go.Rabbitmq.Consumer.{
  Delivery, failed, panicked, succeeded, Handler, Consumer, ack, nack, republish, find_handler,
  process_message, get_retry_count, with_retry_count, calculate_retry_backoff, int32_value,
  retry_key,
}
use devkit_go.Rabbitmq.Consumer.Settling.{IsAnsweredBy, process_message-answers}
use devkit_go.Rabbitmq.Consumer.Retries.{calm}

abbrev fails : Handler
fails d = failed

abbrev consumer : Consumer
consumer = record { auto_ack = false; max_retries = pos 3; handlers = λ k. some fails }

-- It was published once for a retry.
abbrev delivery : Delivery
delivery = record {
  exchange = [];
  routing_key = codes "k";
  body = [];
  headers = (retry_key, int32_value (pos 1)) ∷ [];
}

process_message-answers_example :
    (IsAnsweredBy consumer delivery succeeded × (process_message consumer calm delivery ≡ ack ∷ []))
    ⊎ (((find_handler consumer (codes "k") ≡ none)
          × (process_message consumer calm delivery ≡ nack ∷ []))
        ⊎ ((IsAnsweredBy consumer delivery panicked
              × (process_message consumer calm delivery ≡ nack ∷ []))
            ⊎ (IsAnsweredBy consumer delivery failed
                × ((process_message consumer calm delivery ≡ nack ∷ [])
                    ⊎ (process_message consumer calm delivery
                        ≡ republish (with_retry_count (get_retry_count delivery) delivery)
                          ∷ ack
                          ∷ [])))))
process_message-answers_example = process_message-answers consumer calm delivery refl

-- The shift overflows.
no_delay : leb_ℤ (calculate_retry_backoff (pos 37)) (pos 0) ≡ true
unfolding calculate_retry_backoff devkit_go.Prelude.Int64.mul64 devkit_go.Prelude.Int64.wrap64
    devkit_go.Prelude.Int.◌*ℤ◌
no_delay = refl
