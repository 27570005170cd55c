-- ===== src/Kafka/Producing.antt =====
-- pkg/messaging/kafka/new_producer.go: publishing one message or a batch, with retries. What the
-- library answers to a write, and whether the context ends in a pause, are parameters of the attempt.
use devkit_go.Prelude.{
  ℕ, zero, suc, ◌+◌, ◌<◌, ◌≤◌, ◌≡◌, inl, inr, sym, subst, arith, ◌==◌, ==_iff, Bool, true, false,
  Option, none, some, List, [], ◌∷◌, ◌++◌, if◌then◌else◌, map, Bool-cases,
}
use devkit_go.Prelude.Text.{Text}
use devkit_go.Kafka.{Error, canceled, max_retries_exceeded, producer_closed}
use devkit_go.Kafka.Dlq.{Headers}

-- messaging.Message
pub record Content : Type 0 where
  pub body : Text
  pub headers : Headers

-- kafka.Message, but for its time.
pub record KafkaMessage : Type 0 where
  pub topic : Text
  pub key : Text
  pub value : Text
  pub headers : Headers

unfoldable pub kafka_message : Text → Text → Headers → Content → KafkaMessage
kafka_message topic key headers content = record {
  topic = topic;
  key = key;
  value = content.body;
  headers = headers ++ content.headers;
}

-- The writer: whether the attempt, counted from 0, gives an error for the messages; and whether the
-- context ends in the pause before the attempt.
pub record Writing : Type 0 where
  pub fails : ℕ → List KafkaMessage → Bool
  pub done_asleep : ℕ → Bool

pub record Producer : Type 0 where
  pub closed : Bool
  pub max_retries : ℕ

-- The loop, with the attempts that are left; the error and the number of writes made.
unfoldable pub write_loop : Writing → List KafkaMessage → ℕ → ℕ → Option Error × ℕ
write_loop w msgs zero attempt = (some max_retries_exceeded, attempt)
write_loop w msgs (suc left) attempt =
    let rest = write_loop w msgs left (suc attempt) in
    if (if 0 == attempt then false else w.done_asleep attempt)
    then (some canceled, attempt)
    else if w.fails attempt msgs
    then rest
    else (none, suc attempt)

-- `writeWithRetry` and `writeBatchWithRetry`
unfoldable pub write_batch_with_retry : Producer → Writing → List KafkaMessage → Option Error × ℕ
write_batch_with_retry p w msgs = write_loop w msgs (suc p.max_retries) 0

unfoldable pub publish : Producer → Writing → Text → Text → Headers → Content → Option Error × ℕ
publish p w topic key headers content =
    if p.closed
    then (some producer_closed, 0)
    else write_batch_with_retry p w (kafka_message topic key headers content ∷ [])

abbrev pub is_none : {A : Type 0} → List A → Bool
is_none [] = true
is_none (x ∷ xs) = false

unfoldable pub publish_batch :
    Producer → Writing → Text → Text → Headers → List Content → Option Error × ℕ
publish_batch p w topic key headers contents =
    if p.closed
    then (some producer_closed, 0)
    else if is_none contents
    then (none, 0)
    else write_batch_with_retry p w (map (kafka_message topic key headers) contents)

-- `close`: whether the writer is to be closed.
unfoldable pub close : Producer → Bool × Producer
close p = if p.closed then (false, p) else (true, record p { closed = true })

write_loop-writes :
    (w : Writing) (msgs : List KafkaMessage) (left attempt : ℕ)
    → (attempt ≤ (write_loop w msgs left attempt).1)
      × ((write_loop w msgs left attempt).1 ≤ attempt + left)
unfolding write_loop
write_loop-writes w msgs zero attempt = ground arith
write_loop-writes w msgs (suc left) attempt =
    ground (arith, write_loop-writes w msgs left (suc attempt))

-- Where a loop goes on, its first write failed.
first-fails :
    (w : Writing) (msgs : List KafkaMessage) (left attempt : ℕ)
    → suc attempt < (write_loop w msgs (suc left) attempt).1
    → w.fails attempt msgs ≡ true
unfolding write_loop
first-fails w msgs left attempt h = ground arith

write_loop-fails :
    (w : Writing) (msgs : List KafkaMessage) (left attempt k : ℕ)
    → attempt ≤ k
    → suc k < (write_loop w msgs left attempt).1
    → w.fails k msgs ≡ true
unfolding write_loop
write_loop-fails w msgs zero attempt k low high = absurd (ground arith)
write_loop-fails w msgs (suc left) attempt k low high = elim (Bool-cases (k == attempt)) [
  | inl here ↦ rw ((==_iff k attempt).0 here) (first-fails w msgs left attempt (ground arith))
  | inr later ↦
      write_loop-fails w msgs left (suc attempt) k (ground arith) (ground (arith, low, high))
]

write_loop-last :
    (w : Writing) (msgs : List KafkaMessage) (left attempt : ℕ)
    → (write_loop w msgs left attempt).0 ≡ none
    → (k : ℕ) × ((write_loop w msgs left attempt).1 ≡ suc k) × (w.fails k msgs ≡ false)
unfolding write_loop
write_loop-last w msgs zero attempt h = absurd (ground arith)
write_loop-last w msgs (suc left) attempt h = elim (Bool-cases (w.fails attempt msgs)) [
  | inl bad ↦
      let (k, e, fine) = write_loop-last w msgs left (suc attempt) (ground arith) in
      (k, ground arith, fine)
  | inr good ↦ (attempt, ground arith, good)
]

-- A batch that is published without an error, by a producer that is open, was written by the last of
-- at most `max_retries + 1` writes, and every write before that one failed.
pub publish_batch-written :
    (p : Producer) (w : Writing) (topic key : Text) (headers : Headers) (first : Content)
    (rest : List Content) (earlier : ℕ)
    → let msgs = map (kafka_message topic key headers) (first ∷ rest) in
      let result = publish_batch p w topic key headers (first ∷ rest) in
      result.0 ≡ none
      → suc earlier < result.1
      → (result.1 ≤ suc p.max_retries)
        × (w.fails earlier msgs ≡ true)
        × ((k : ℕ) × (result.1 ≡ suc k) × (w.fails k msgs ≡ false))
unfolding publish_batch write_batch_with_retry
publish_batch-written p w topic key headers first rest earlier h before =
    let msgs = map (kafka_message topic key headers) (first ∷ rest) in
    elim (Bool-cases p.closed) [
      | inl c ↦ absurd (ground arith)
      | inr o ↦
          let same : publish_batch p w topic key headers (first ∷ rest)
              ≡ write_loop w msgs (suc p.max_retries) 0 =
            ground arith in
          subst
            (λ r.
              (r.1 ≤ suc p.max_retries)
              × (w.fails earlier msgs ≡ true)
              × ((k : ℕ) × (r.1 ≡ suc k) × (w.fails k msgs ≡ false)))
            (sym same)
            (
              omega (arith, write_loop-writes w msgs (suc p.max_retries) 0),
              write_loop-fails w msgs (suc p.max_retries) 0 earlier (omega arith)
                  (subst (λ r. suc earlier < r.1) same before),
              write_loop-last w msgs (suc p.max_retries) 0 (subst (λ r. r.0 ≡ none) same h),
            )
    ]
