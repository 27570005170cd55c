-- ===== src/Rabbitmq/Consumer/Settling.antt =====
-- How `processMessage` of pkg/messaging/rabbitmq/consumer.go answers the broker.
use devkit_go.Prelude.{none, ◌≡◌, ◌⊎◌, inl, inr, refl, arith, false, some, [], ◌∷◌, Option-cases}
use devkit_go.Rabbitmq.Consumer.{
  Delivery, Answer, succeeded, failed, panicked, Handler, Consumer, Surroundings, ack, nack,
  republish, get_retry_count, with_retry_count, find_handler, requeue_message, handle_error,
  process_message,
}

Answer-cases : (a : Answer) → (a ≡ succeeded) ⊎ ((a ≡ failed) ⊎ (a ≡ panicked))
Answer-cases succeeded = inl refl
Answer-cases failed = inr (inl refl)
Answer-cases panicked = inr (inr refl)

requeue_message-cases :
    (s : Surroundings) (d : Delivery)
    → (requeue_message s d (get_retry_count d) ≡ nack ∷ [])
      ⊎ (requeue_message s d (get_retry_count d)
          ≡ republish (with_retry_count (get_retry_count d) d) ∷ ack ∷ [])
unfolding requeue_message
requeue_message-cases s d = ground arith

handle_error-cases :
    (c : Consumer) (s : Surroundings) (d : Delivery)
    → c.auto_ack ≡ false
    → (handle_error c s d (get_retry_count d) ≡ nack ∷ [])
      ⊎ (handle_error c s d (get_retry_count d)
          ≡ republish (with_retry_count (get_retry_count d) d) ∷ ack ∷ [])
unfolding handle_error
handle_error-cases c s d manual = ground (arith, requeue_message-cases s d)

-- The handler of the delivery's key gives the answer.
abbrev pub IsAnsweredBy : Consumer → Delivery → Answer → Type 0
IsAnsweredBy c d a = (h : Handler) × (find_handler c d.routing_key ≡ some h) × (h d ≡ a)

-- Without automatic acknowledgement every delivery is answered exactly once: it is acknowledged if its
-- handler succeeded; it is rejected if there is no handler for its key or the handler panicked; and if
-- the handler failed it is rejected, or published for a retry and then acknowledged.
pub process_message-answers :
    (c : Consumer) (s : Surroundings) (d : Delivery)
    → c.auto_ack ≡ false
    → (IsAnsweredBy c d succeeded × (process_message c s d ≡ ack ∷ []))
      ⊎ (((find_handler c d.routing_key ≡ none) × (process_message c s d ≡ nack ∷ []))
          ⊎ ((IsAnsweredBy c d panicked × (process_message c s d ≡ nack ∷ []))
              ⊎ (IsAnsweredBy c d failed
                  × ((process_message c s d ≡ nack ∷ [])
                      ⊎ (process_message c s d
                          ≡ republish (with_retry_count (get_retry_count d) d) ∷ ack ∷ [])))))
unfolding process_message
process_message-answers c s d manual = elim (Option-cases (find_handler c d.routing_key)) [
  | inl e ↦ inr (inl (e, ground arith))
  | inr (h, e) ↦ elim (Answer-cases (h d)) [
    | inl fine ↦ inl ((h, e, fine), ground arith)
    | inr (inl bad) ↦
        let same : process_message c s d ≡ handle_error c s d (get_retry_count d) = ground arith in
        inr (inr (inr ((h, e, bad), ground (arith, same, handle_error-cases c s d manual))))
    | inr (inr bad) ↦ inr (inr (inl ((h, e, bad), ground arith)))
  ]
]
