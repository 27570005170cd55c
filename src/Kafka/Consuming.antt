-- ===== src/Kafka/Consuming.antt =====
-- pkg/messaging/kafka/new_consumer.go: which messages a consumer commits, and `handlePanic`. Whether
-- the context is done is a parameter; errors that are sent to the channel of errors are kept in a list.
use devkit_go.Prelude.{
  subst, sym, ap, ◌≡◌, ◌⊎◌, inl, inr, ◌∙◌, arith, Bool, true, false, Option, none, some, List, [],
  ◌∷◌, ◌++◌, if◌then◌else◌, Option-cases, Bool-cases, All,
}
use devkit_go.Prelude.Text.{Text, codes}
use devkit_go.Kafka.{Error, external}
use devkit_go.Kafka.Dlq.{
  Message, DlqMessage, DlqStrategy, DlqConfig, RetryState, header, extract_headers, send_to_dlq,
}
use devkit_go.Kafka.Dlq.Extracting.{last_value, header-extract_headers}
use devkit_go.Kafka.Retrying.{Handling, handle_message_with_retry}
use devkit_go.Prelude.Int.{pos}

-- What came of a message: whether CommitMessages was called, and the errors sent.
pub record Processed : Type 0 where
  pub commit : Bool
  pub errors : List Error

-- A handler, and whether the context is done before it is called.
pub record Handler : Type 0 where
  pub handling : Handling
  pub done : Bool

-- The error of a commit, if there is one.
abbrev pub commit_errors : Option Text → List Error
commit_errors none = []
commit_errors (some e) = external e ∷ []

-- `reader` gives the error of CommitMessages; it may be nil.
module _ (json : DlqMessage → Option Text) (config : DlqConfig) (strategy : Option DlqStrategy)
    (group : Text) (reader : Option (Message → Option Text)) where
  abbrev pub commit_message : Message → List Error → Processed
  commit_message msg errors = elim reader [
    | none ↦ record { commit = false; errors = errors }
    | some commit ↦ record { commit = true; errors = errors ++ commit_errors (commit msg) }
  ]

  -- The loop of `processMessageWithDLQ`: none when the context ends it.
  unfoldable pub dlq_loop : List Handler → Message → Bool → List Error → Option Processed
  dlq_loop [] msg failed errors =
      some
        (if failed then record { commit = false; errors = errors } else commit_message msg errors)
  dlq_loop (h ∷ hs) msg failed errors = elim h.done [
    | true ↦ none
    | false ↦ elim (handle_message_with_retry json config strategy group h.handling msg) [
      | none ↦ dlq_loop hs msg failed errors
      | some e ↦ dlq_loop hs msg true (errors ++ (e ∷ []))
    ]
  ]

  -- The loop of `processMessageWithoutDLQ`, where a handler is called once.
  unfoldable pub plain_loop : List Handler → Message → Bool → List Error → Option Processed
  plain_loop [] msg all_success errors = some (
      if all_success then commit_message msg errors else record { commit = false; errors = errors })
  plain_loop (h ∷ hs) msg all_success errors = elim h.done [
    | true ↦ none
    | false ↦ elim (h.handling.answer 0) [
      | none ↦ plain_loop hs msg all_success errors
      | some e ↦ plain_loop hs msg false (errors ++ (external e ∷ []))
    ]
  ]

  unfoldable pub process_message_internal : List Handler → Message → Option Processed
  process_message_internal hs msg =
      if config.enabled then dlq_loop hs msg false [] else plain_loop hs msg true []

  -- `handlers` is the map, `done` whether the context is done at the start.
  unfoldable pub process_message :
      (Text → Option (List Handler)) → Bool → Message → Option Processed
  process_message handlers done msg =
      if done then none else elim (handlers (header (codes "event_type") (extract_headers msg))) [
        | none ↦ none
        | some hs ↦ process_message_internal hs msg
      ]

  -- The errors that a panic of a handler sends, behind the message to the queue.
  unfoldable pub handle_panic : Message → Text → Option Error × Error
  handle_panic msg value =
      let state : RetryState = record {
        attempts = config.max_retries;
        retry_history =
            record { attempt = 1; error = codes "PANIC: " ++ value; backoff = pos 0 } ∷ [];
      } in
      (
        (elim strategy [
          | none ↦ none
          | some s ↦
              if config.enabled
              then send_to_dlq json config (some s) group msg (codes "panic: " ++ value) state
              else none
        ]),
        external (codes "panic in handler: " ++ value),
      )

  -- The handler took the message: in an attempt or by the strategy when the queue is enabled, and
  -- at once otherwise.
  abbrev pub IsTaken : Message → Handler → Type 0
  IsTaken msg h = handle_message_with_retry json config strategy group h.handling msg ≡ none

  abbrev pub IsAnswered : Handler → Type 0
  IsAnswered h = h.handling.answer 0 ≡ none

  -- A commit was asked for, and its error is all that was sent behind the errors before.
  abbrev pub IsCommitted : Message → List Error → Processed → Type 0
  IsCommitted msg errors p =
      (commit : Message → Option Text) × (reader ≡ some commit)
      × (p.errors ≡ errors ++ commit_errors (commit msg))

  commit_message-IsCommitted :
      (msg : Message) (errors : List Error)
      → (commit_message msg errors).commit ≡ true
      → IsCommitted msg errors (commit_message msg errors)
  commit_message-IsCommitted msg errors c = elim (Option-cases reader) [
    | inl missing ↦ absurd (ground arith)
    | inr (commit, given) ↦ (commit, given, ground arith)
  ]

  dlq_loop-commits :
      (hs : List Handler) (msg : Message) (failed : Bool) (errors : List Error) {p : Processed}
      → dlq_loop hs msg failed errors ≡ some p
      → p.commit ≡ true
      → (failed ≡ false) × All (IsTaken msg) hs × IsCommitted msg errors p
  unfolding dlq_loop
  dlq_loop-commits [] msg failed errors {p} e c = elim (Bool-cases failed) [
    | inl lost ↦ absurd (ground arith)
    | inr kept ↦
        let same : commit_message msg errors ≡ p = ground arith in
        (
          kept,
          tt,
          subst (IsCommitted msg errors) same
              (commit_message-IsCommitted msg errors (ap (λ q. q.commit) same ∙ c)),
        )
  ]
  dlq_loop-commits (h ∷ hs) msg failed errors {p} e c =
      elim (Option-cases (handle_message_with_retry json config strategy group h.handling msg)) [
        | inl taken ↦
            let (f, all, same) = dlq_loop-commits hs msg failed errors {p = p} (ground arith) c in
            (f, (taken, all), same)
        | inr (x, refused) ↦
            let (f, all, same) =
              dlq_loop-commits hs msg true (errors ++ (x ∷ [])) {p = p} (ground arith) c in
            absurd (ground arith)
      ]

  plain_loop-commits :
      (hs : List Handler) (msg : Message) (all_success : Bool) (errors : List Error) {p : Processed}
      → plain_loop hs msg all_success errors ≡ some p
      → p.commit ≡ true
      → (all_success ≡ true) × All IsAnswered hs × IsCommitted msg errors p
  unfolding plain_loop
  plain_loop-commits [] msg all_success errors {p} e c = elim (Bool-cases all_success) [
    | inr lost ↦ absurd (ground arith)
    | inl kept ↦
        let same : commit_message msg errors ≡ p = ground arith in
        (
          kept,
          tt,
          subst (IsCommitted msg errors) same
              (commit_message-IsCommitted msg errors (ap (λ q. q.commit) same ∙ c)),
        )
  ]
  plain_loop-commits (h ∷ hs) msg all_success errors {p} e c =
      elim (Option-cases (h.handling.answer 0)) [
        | inl fine ↦
            let (f, all, same) =
              plain_loop-commits hs msg all_success errors {p = p} (ground arith) c in
            (f, (fine, all), same)
        | inr (x, failed) ↦
            let (f, all, same) =
              plain_loop-commits hs msg false (errors ++ (external x ∷ [])) {p = p} (ground arith)
                c in
            absurd (ground arith)
      ]

  -- The commit of a message is asked for only if there is a list of handlers for its event, which is the
  -- last value of that header, and each handler took it: with the queue enabled in an attempt or by
  -- the strategy, otherwise at once. No error is then sent but that of the commit.
  pub process_message-commits :
      (handlers : Text → Option (List Handler)) (done : Bool) (msg : Message) {p : Processed}
      → process_message handlers done msg ≡ some p
      → p.commit ≡ true
      → (hs : List Handler) × (handlers (last_value (codes "event_type") msg.headers []) ≡ some hs)
        × IsCommitted msg [] p
        × (((config.enabled ≡ true) × All (IsTaken msg) hs)
            ⊎ ((config.enabled ≡ false) × All IsAnswered hs))
  unfolding process_message process_message_internal
  process_message-commits handlers done msg {p} e c =
      let event = header-extract_headers (codes "event_type") msg in
      elim (Option-cases (handlers (header (codes "event_type") (extract_headers msg)))) [
        | inl missing ↦ absurd (ground arith)
        | inr (hs, found) ↦ elim (Bool-cases config.enabled) [
          | inl on ↦
              let (f, all, same) = dlq_loop-commits hs msg false [] {p = p} (ground arith) c in
              (hs, ap handlers (sym event) ∙ found, same, inl (on, all))
          | inr off ↦
              let (f, all, same) = plain_loop-commits hs msg true [] {p = p} (ground arith) c in
              (hs, ap handlers (sym event) ∙ found, same, inr (off, all))
        ]
      ]
