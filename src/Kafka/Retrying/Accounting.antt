-- ===== src/Kafka/Retrying/Accounting.antt =====
-- What `handleMessageWithRetry` of pkg/messaging/kafka/consumer_dlq.go has done when it gives no error.
use devkit_go.Prelude.{
  ℕ, zero, suc, ◌+◌, ◌<◌, ◌≤◌, ◌≡◌, ◌⊎◌, inl, inr, refl, sym, ap, subst, ◌∙◌, append-nil, arith,
  Option, none, some, List, [], ◌∷◌, ◌++◌, map, Option-cases, append_assoc,
}
use devkit_go.Prelude.Int.{ℤ}
use devkit_go.Prelude.Text.{Text, codes}
use devkit_go.Kafka.{Error}
use devkit_go.Kafka.Dlq.{
  Message, Retry, DlqMessage, DlqStrategy, DlqConfig, RetryState, new_dlq_message, handle_failure,
  send_to_dlq, extracted,
}
use devkit_go.Kafka.Retrying.{
  calculate_backoff, Handling, Loop, succeeded, stopped, exhausted, record_failure, retry_loop,
  fresh_state, handle_message_with_retry,
}

-- What a history tells of the attempts: their numbers and errors.
abbrev pub told : Retry → ℕ × Text
told r = (r.attempt, r.error)

-- The failures of the attempts, one after the other.
pub failures : (ℕ → Option Text) → ℕ → ℕ → List (ℕ × Text)
failures answer attempt zero = []
failures answer attempt (suc left) =
    let later = failures answer (suc attempt) left in
    elim (answer attempt) [ none ↦ later | some e ↦ (suc attempt, e) ∷ later ]

map-append : (f : Retry → ℕ × Text) (xs ys : List Retry) → map f (xs ++ ys) ≡ map f xs ++ map f ys
map-append f [] ys = refl
map-append f (x ∷ xs) ys = ap (λ l. f x ∷ l) (map-append f xs ys)

failures-some :
    (answer : ℕ → Option Text) (attempt left : ℕ) {e : Text}
    → answer attempt ≡ some e
    → failures answer attempt (suc left) ≡ (suc attempt, e) ∷ failures answer (suc attempt) left
unfolding failures
failures-some answer attempt left h = rw (h, failures) refl

-- The first of the attempts that are left fails in a loop that is exhausted.
retry_loop-step :
    (h : Handling) (max_backoff : ℤ) (left attempt : ℕ) (backoff : ℤ) (state : RetryState)
    {final : RetryState}
    → retry_loop h max_backoff (suc left) attempt backoff state ≡ exhausted final
    → (e : Text) × (h.answer attempt ≡ some e)
      × (retry_loop h max_backoff left
            (suc attempt)
            (calculate_backoff backoff max_backoff)
            (record_failure attempt e backoff state)
          ≡ exhausted final)
unfolding retry_loop
retry_loop-step h max_backoff zero attempt backoff state x =
    elim (Option-cases (h.answer attempt)) [
      | inl e ↦ absurd (ground arith)
      | inr (t, e) ↦ (t, e, ground arith)
    ]
retry_loop-step h max_backoff (suc left) attempt backoff state x =
    elim (Option-cases (h.answer attempt)) [
      | inl e ↦ absurd (ground arith)
      | inr (t, e) ↦ (t, e, ground arith)
    ]

-- An exhausted loop has tried every attempt, and its history tells how each of them failed.
retry_loop-exhausted :
    (h : Handling) (max_backoff : ℤ) (left attempt : ℕ) (backoff : ℤ) (state : RetryState)
    {final : RetryState}
    → retry_loop h max_backoff left attempt backoff state ≡ exhausted final
    → state.attempts ≡ attempt
    → (final.attempts ≡ attempt + left)
      × (map told final.retry_history
          ≡ map told state.retry_history ++ failures h.answer attempt left)
unfolding retry_loop failures
retry_loop-exhausted h max_backoff zero attempt backoff state {final} x a =
    let same : state ≡ final = cc in
    subst
      (λ f.
        (f.attempts ≡ attempt + 0)
        × (map told f.retry_history ≡ map told state.retry_history ++ []))
      same (omega (arith, a), sym (append-nil (map told state.retry_history)))
retry_loop-exhausted h max_backoff (suc left) attempt backoff state x a =
    let (t, e, later) = retry_loop-step h max_backoff left attempt backoff state x in
    let rest = retry_loop-exhausted h max_backoff left (suc attempt) _ _ later refl in
    let fs = failures h.answer (suc attempt) left in
    (
      omega (arith, rest.0),
      rest.1
          ∙ (ap (λ l. l ++ fs) (map-append told state.retry_history _)
              ∙ (append_assoc (map told state.retry_history) ((suc attempt, t) ∷ []) fs
                  ∙ ap (λ l. map told state.retry_history ++ l)
                      (sym (failures-some h.answer attempt left e)))),
    )

-- A loop that succeeds has seen the handler succeed in one of the attempts.
retry_loop-succeeded :
    (h : Handling) (max_backoff : ℤ) (left attempt : ℕ) (backoff : ℤ) (state : RetryState)
    → retry_loop h max_backoff left attempt backoff state ≡ succeeded
    → (k : ℕ) × (attempt ≤ k) × (k < attempt + left) × (h.answer k ≡ none)
unfolding retry_loop
retry_loop-succeeded h max_backoff zero attempt backoff state e = absurd (ground arith)
retry_loop-succeeded h max_backoff (suc zero) attempt backoff state e =
    (attempt, omega arith, omega arith, ground arith)
retry_loop-succeeded h max_backoff (suc (suc left)) attempt backoff state x =
    elim (Option-cases (h.answer attempt)) [
      | inl e ↦ (attempt, omega arith, omega arith, e)
      | inr (t, e) ↦
          let (k, low, high, fine) =
            retry_loop-succeeded h max_backoff (suc left) (suc attempt)
              (calculate_backoff backoff max_backoff) (record_failure attempt t backoff state)
              (ground arith) in
          (k, omega arith, omega arith, fine)
    ]

Loop-cases :
    (l : Loop)
    → (l ≡ succeeded)
      ⊎ (((e : Error) × (l ≡ stopped e)) ⊎ ((state : RetryState) × (l ≡ exhausted state)))
Loop-cases succeeded = inl refl
Loop-cases (stopped e) = inr (inl (e, refl))
Loop-cases (exhausted state) = inr (inr (state, refl))

-- What the strategy has taken when sending gives no error.
send_to_dlq-sent :
    (json : DlqMessage → Option Text) (config : DlqConfig) (strategy : Option DlqStrategy)
    (group : Text) (msg : Message) (error : Text) (state : RetryState)
    → send_to_dlq json config strategy group msg error state ≡ none
    → (s : DlqStrategy) × (strategy ≡ some s)
      × (handle_failure json s (
            new_dlq_message msg error state.attempts config.max_retries group state.retry_history
              config)
          ≡ none)
unfolding send_to_dlq
send_to_dlq-sent json config none group msg error state e = absurd (ground arith)
send_to_dlq-sent json config (some s) group msg error state e = (s, refl, ground arith)

-- When a message counts as handled: the handler took it in one of the attempts, or every attempt
-- failed and the strategy took a message that tells of all of them.
pub handle_message-accounted :
    (json : DlqMessage → Option Text) (config : DlqConfig) (strategy : Option DlqStrategy)
    (group : Text) (h : Handling) (msg : Message)
    → handle_message_with_retry json config strategy group h msg ≡ none
    → ((k : ℕ) × (k < config.max_retries) × (h.answer k ≡ none))
      ⊎ ((s : DlqStrategy) × (m : DlqMessage) × (strategy ≡ some s)
          × (handle_failure json s m ≡ none)
          × (m.original ≡ extracted msg)
          × (m.attempts ≡ config.max_retries)
          × (map told m.retry_history ≡ failures h.answer 0 config.max_retries))
unfolding handle_message_with_retry new_dlq_message
handle_message-accounted json config strategy group h msg e =
    let loop =
      retry_loop h config.max_retry_backoff config.max_retries 0 config.retry_backoff fresh_state in
    elim (Loop-cases loop) [
      | inl won ↦
          let (k, low, high, fine) =
            retry_loop-succeeded h config.max_retry_backoff config.max_retries 0
              config.retry_backoff fresh_state won in
          inl (k, omega arith, fine)
      | inr (inl (x, gone)) ↦ absurd (ground arith)
      | inr (inr (state, lost)) ↦
          let (all, history) =
            retry_loop-exhausted h config.max_retry_backoff config.max_retries 0
              config.retry_backoff fresh_state lost refl in
          let (s, has, sent) =
            send_to_dlq-sent json config strategy group msg (codes "max retries exceeded") state
              (ground arith) in
          inr (
            s,
            new_dlq_message msg (codes "max retries exceeded") state.attempts config.max_retries
                group state.retry_history config,
            has,
            sent,
            refl,
            omega (arith, all),
            history,
          )
    ]
