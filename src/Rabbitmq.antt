-- ===== src/Rabbitmq.antt =====
-- pkg/messaging/rabbitmq: the connection, its pool of channels, publishing with confirmations, the
-- consumer, the queues that are declared, the settings of a client, and the publisher.
pub mod Pool
pub mod Publishing
pub mod Consumer
pub mod Connection
pub mod Topology
pub mod Settings
pub mod Publisher

-- pkg/messaging/rabbitmq/errors.go, as far as it is used, and the two errors that the pool makes
-- itself. `driver` is an error of the AMQP library.
pub data Error : Type 0 where
  client_closed channel_closed publish_confirm_failed publish_timeout empty_tag no_publisher : Error
  no_connection reconnecting : Error
  driver : Error
