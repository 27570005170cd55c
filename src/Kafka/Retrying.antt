-- ===== src/Kafka/Retrying.antt =====
-- `handleMessageWithRetry` of pkg/messaging/kafka/consumer_dlq.go, with `calculateBackoff` of
-- client.go. The handler's answers, and when the context ends, are parameters of the attempt. The
-- map of the states of retries is left out: every call stores a state of its own and deletes it.
pub mod Accounting
use devkit_go.Prelude.{
  ℕ, zero, suc, ◌+◌, ◌<◌, ◌≤◌, ◌≡◌, ◌⊎◌, inl, inr, refl, sym, ap, subst, ◌∙◌, append-nil, arith,
  Bool, true, false, Option, none, some, List, [], ◌∷◌, ◌++◌, if◌then◌else◌, map, Option-cases,
  append_assoc,
}
use devkit_go.Prelude.Int.{ℤ, pos, ltb_ℤ}
use devkit_go.Prelude.Int64.{mul64}
use devkit_go.Prelude.Text.{Text, codes}
use devkit_go.Kafka.{Error, canceled}
use devkit_go.Kafka.Dlq.{
  Message, Retry, DlqMessage, DlqStrategy, DlqConfig, RetryState, new_dlq_message, handle_failure,
  send_to_dlq,
}

unfoldable pub calculate_backoff : ℤ → ℤ → ℤ
calculate_backoff current max =
    let next = mul64 current (pos 2) in if ltb_ℤ max next then max else next

-- The text of the handler's error in an attempt, from 0; whether the context is done before it, and
-- whether it ends in the sleep behind it.
pub record Handling : Type 0 where
  pub answer : ℕ → Option Text
  pub done_before : ℕ → Bool
  pub done_asleep : ℕ → Bool

-- How the loop over the attempts ends.
pub data Loop : Type 0 where
  succeeded : Loop
  stopped : Error → Loop
  exhausted : RetryState → Loop

abbrev pub record_failure : ℕ → Text → ℤ → RetryState → RetryState
record_failure attempt error backoff state = record {
  attempts = suc attempt;
  retry_history =
      state.retry_history
      ++ (record { attempt = suc attempt; error = error; backoff = backoff } ∷ []);
}

-- The loop, with the attempts that are left.
unfoldable pub retry_loop : Handling → ℤ → ℕ → ℕ → ℤ → RetryState → Loop
retry_loop h max_backoff zero attempt backoff state = exhausted state
retry_loop h max_backoff (suc left) attempt backoff state = elim (h.done_before attempt) [
  | true ↦ stopped canceled
  | false ↦ elim (h.answer attempt) [
    | none ↦ succeeded
    | some e ↦ elim left [
      | zero ↦ exhausted (record_failure attempt e backoff state)
      | suc k ↦ elim (h.done_asleep attempt) [
        | true ↦ stopped canceled
        | false ↦
            retry_loop h max_backoff left (suc attempt) (calculate_backoff backoff max_backoff)
              (record_failure attempt e backoff state)
      ]
    ]
  ]
]

abbrev pub fresh_state : RetryState
fresh_state = record { attempts = 0; retry_history = [] }

unfoldable pub handle_message_with_retry :
    (DlqMessage → Option Text)
    → DlqConfig
    → Option DlqStrategy
    → Text
    → Handling
    → Message
    → Option Error
handle_message_with_retry json config strategy group h msg =
    elim (retry_loop h config.max_retry_backoff config.max_retries 0 config.retry_backoff
      fresh_state) [
        | succeeded ↦ none
        | stopped e ↦ some e
        | exhausted state ↦
            send_to_dlq json config strategy group msg (codes "max retries exceeded") state
      ]
