-- ===== src/Kafka.antt =====
-- pkg/messaging/kafka: the retries of a handler, the dead letter queue, the commits and the goroutines of
-- a consumer, the producer, and the client with its settings and its ways to authenticate.
pub mod Dlq
pub mod Retrying
pub mod Consuming
pub mod Producing
pub mod Auth
pub mod Settings
pub mod Client
pub mod Running
mod Tests
use devkit_go.Prelude.Text.{Text}

-- What `handleMessageWithRetry` and the strategies give; the wrapped texts are left out.
pub data Error : Type 0 where
  canceled max_retries_exceeded no_dlq_topic no_publisher serialize_failed producer_closed : Error
  external : Text → Error
