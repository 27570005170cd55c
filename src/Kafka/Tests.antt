-- ===== src/Kafka/Tests.antt =====
-- Messages that fail, with and without a later one that is committed.
use devkit_go.Prelude.{
  ℕ, ◌<◌, ◌≡◌, ◌⊎◌, refl, arith, true, false, not, ◌==◌, Option, none, some, List, [], ◌∷◌, map,
  suc, All,
}
use devkit_go.Prelude.Text.{Text, codes}
use devkit_go.Kafka.{Error}
use devkit_go.Kafka.Dlq.{
  Message, DlqMessage, DlqStrategy, DlqConfig, custom, default_dlq_config, handle_failure, header,
  put_header, put_headers, extract_headers, extracted,
}
use devkit_go.Kafka.Dlq.Extracting.{last_value}
use devkit_go.Kafka.Retrying.{Handling, handle_message_with_retry}
use devkit_go.Kafka.Retrying.Accounting.{handle_message-accounted, told, failures}
use devkit_go.Kafka.Producing.{
  Content, kafka_message, Writing, Producer, publish_batch, publish_batch-written,
}
use devkit_go.Kafka.Consuming.{
  Handler, Processed, process_message, process_message-commits, IsTaken, IsAnswered, IsCommitted,
  commit_errors,
}

abbrev message : ℕ → Message
message offset = record {
  topic = codes "t";
  partition = 0;
  offset = offset;
  key = [];
  value = [];
  headers = (codes "event_type", codes "e") ∷ [];
}

abbrev config : DlqConfig
config = record default_dlq_config { enabled = true; max_retries = 2 }

abbrev json : DlqMessage → Option Text
json m = some []

-- A handler that fails twice.
abbrev failing : Handling
failing = record {
  answer = λ k. some (codes "x");
  done_before = λ k. false;
  done_asleep = λ k. false;
}

abbrev accepting : DlqStrategy
accepting = custom (λ m. none)

is_handled : handle_message_with_retry json config (some accepting) [] failing (message 4) ≡ none
unfolding handle_message_with_retry devkit_go.Kafka.Retrying.retry_loop
    devkit_go.Kafka.Dlq.send_to_dlq handle_failure
is_handled = refl

handle_message-accounted_example :
    ((k : ℕ) × (k < 2) × (failing.answer k ≡ none))
    ⊎ ((s : DlqStrategy) × (m : DlqMessage) × (some accepting ≡ some s)
        × (handle_failure json s m ≡ none)
        × (m.original ≡ extracted (message 4))
        × (m.attempts ≡ 2)
        × (map told m.retry_history ≡ failures failing.answer 0 2))
handle_message-accounted_example =
    handle_message-accounted json config (some accepting) [] failing (message 4) is_handled

abbrev one_handler : Text → Option (List Handler)
one_handler event = some (record { handling = failing; done = false } ∷ [])

-- The commit fails.
abbrev a_reader : Option (Message → Option Text)
a_reader = some (λ msg. some (codes "no coordinator"))

abbrev processed : Processed
processed = record { commit = true; errors = commit_errors (some (codes "no coordinator")) }

is_processed :
    process_message json config (some accepting) [] a_reader one_handler false (message 4)
    ≡ some processed
unfolding process_message devkit_go.Kafka.Consuming.process_message_internal
    devkit_go.Kafka.Consuming.dlq_loop handle_message_with_retry devkit_go.Kafka.Retrying.retry_loop
    devkit_go.Kafka.Dlq.send_to_dlq handle_failure
is_processed = refl

process_message-commits_example :
    (hs : List Handler) × (one_handler (last_value (codes "event_type") (message 4).headers [])
      ≡ some hs)
    × IsCommitted json config (some accepting) [] a_reader (message 4) [] processed
    × (((config.enabled ≡ true)
          × All (IsTaken json config (some accepting) [] a_reader (message 4)) hs)
        ⊎ ((config.enabled ≡ false) × All (IsAnswered json config (some accepting) [] a_reader) hs))
process_message-commits_example =
    process_message-commits json config (some accepting) [] a_reader one_handler false (message 4)
      is_processed refl

last_value_kept :
    header
      (codes "a")
      (put_headers ((codes "a", codes "1") ∷ (codes "b", []) ∷ (codes "a", codes "2") ∷ []) [])
    ≡ codes "2"
unfolding header put_headers put_header devkit_go.Prelude.Text.text_eq
last_value_kept = refl

-- The first write of three fails.
abbrev writing : Writing
writing = record { fails = λ k msgs. k == 0; done_asleep = λ k. false }

abbrev content : Content
content = record { body = []; headers = [] }

abbrev producer : Producer
producer = record { closed = false; max_retries = 3 }

second_write : (publish_batch producer writing [] [] [] (content ∷ [])).1 ≡ 2
unfolding publish_batch devkit_go.Kafka.Producing.write_batch_with_retry
    devkit_go.Kafka.Producing.write_loop
second_write = refl

published : (publish_batch producer writing [] [] [] (content ∷ [])).0 ≡ none
unfolding publish_batch devkit_go.Kafka.Producing.write_batch_with_retry
    devkit_go.Kafka.Producing.write_loop
published = refl

one_before : 1 < (publish_batch producer writing [] [] [] (content ∷ [])).1
one_before = omega (arith, second_write)
