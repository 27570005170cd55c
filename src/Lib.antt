-- ===== src/Lib.antt =====
-- Verification of devkit-go, a library of Go packages, and of its release tool.
--
-- The value objects of pkg/vos (Vos) keep an amount as int64 cents with a currency and a percentage
-- as an int64 scaled by 1000; they check their bounds before every operation, and read themselves
-- from and write themselves to a database. The release tool of scripts/ci_release (Release) is a
-- pipeline: it reads the last tag and the commits since, classifies the commits, resolves the next
-- version, finds its section in the changelog, checks that all of it may be released, and then
-- pushes a tag and publishes a release. The event dispatcher of pkg/events (Events) and the slice
-- functions of pkg/linq (Linq) stand alone, and so does the retrying transport of pkg/httpclient
-- (HttpClient). The unit of work of pkg/database/uow runs a function in a transaction of the
-- manager of pkg/database/manager, which counts open transactions so that its shutdown can wait for
-- them, and which takes its connection strings from configurations and the environment (Database).
-- A Kafka client of pkg/messaging/kafka authenticates, connects, and makes producers and consumers
-- until it is closed; a consumer tries a handler several times, then hands the message to a dead
-- letter queue, and commits what is taken (Kafka). The pool of pkg/messaging/rabbitmq owns the
-- channels of a connection, over which messages are published with confirmations (Rabbitmq); its
-- consumer settles deliveries, its connection manager reconnects, and its client declares the
-- queues that rejected messages go to. The manager of pkg/worker starts and stops a scheduler of
-- jobs and consumers (Worker). Both HTTP servers use the helpers of pkg/http_server/common; the
-- server of pkg/http_server/chi_server puts a chain of middleware with a deadline around the
-- handlers (HttpServer). pkg/observability/validation.go checks names and labels (Observability).
--
-- Files
-- - Prelude: names and lemmas that all parts use. Int and Int64 are Go's integers: an int64 is an
--   integer, and an operation wraps it around modulo 2^64; a division by 0 panics. Text is a string
--   as the list of its codes with the functions of package strings; Decimal prints and reads
--   integers as package strconv does. A function that returns an error returns a Result, whose
--   third case is a panic.
-- - Vos/Currency, Vos/Money, Vos/Percentage: pkg/vos/currency.go, money.go and percentage.go, with
--   one function per method, named as in the source. Vos/Float is what they use of float64, a
--   parameter.
-- - Release/Version, Release/Commit, Release/Candidate: semantic_version.go, conventional_commit.go
--   and release_candidate.go of scripts/ci_release/domain. A regular expression is a function that
--   gives its groups.
-- - Release/Changelog: scripts/ci_release/adapters/changelog_reader.go on the lines of the file.
-- - Release/Git: scripts/ci_release/adapters/git_cli.go; a run of git is a parameter.
-- - Release/Service: scripts/ci_release/app/service.go, and what scripts/ci_release/main.go does
--   with a configuration. Release/Cli: the rest of main.go, which makes the configuration of the
--   arguments and the interfaces of the adapters. The interfaces are a record of their answers, and
--   a log keeps the calls in order.
-- - Events: pkg/events/event_dispatcher.go. The map of handlers is a function; a handler is a
--   parameter that may change the dispatcher, and the equality of handlers is a parameter too.
-- - Linq: pkg/linq/slices.go, with nil slices apart from empty ones.
-- - HttpClient/Retry: pkg/httpclient/retry_policy.go and transport_retry.go. The loop of RoundTrip
--   runs on fuel, one more than the number of attempts, which is enough because every round but the
--   last counts an attempt.
-- - Database/Manager: pkg/database/manager/manager.go. BeginTx is split where it waits for the
--   driver; Manager/Shutdown interleaves it with the ends of transactions and with Shutdown, as
--   steps.
-- - Database/Dsn: config.go of pkg/database/postgres and pkg/database/cockroach; Database/Env:
--   config.go of pkg/database/mysql and pkg/database/mssql, and
--   pkg/database/manager/env_config.go. The environment is a function. Dsn/Reader is libpq's reader
--   of connection strings, as its documentation describes it.
-- - Database/Uow: pkg/database/uow/uow.go and options.go. The caller's function may change the
--   world of the model in any way; a panic is a result.
-- - Kafka/Producing: pkg/messaging/kafka/new_producer.go.
-- - Kafka/Dlq, Kafka/Retrying, Kafka/Consuming: dlq.go and dlq_options.go, consumer_dlq.go, and the
--   processing of messages in new_consumer.go, of pkg/messaging/kafka. The answers of handlers,
--   publishers and strategies are parameters, and so is the error of a commit. Dlq/Extracting is about
--   the map of a message's headers.
-- - Kafka/Auth: pkg/messaging/kafka/auth. Kafka/Settings: config.go, options.go and NewClient of
--   client.go, of pkg/messaging/kafka; Kafka/Client: the rest of client.go, Connect as a loop over
--   the answers of the dialer, and the client as steps. Kafka/Running: how new_consumer.go makes a
--   consumer, and its goroutines and Close as steps.
-- - Rabbitmq/Pool, Rabbitmq/Publishing: pkg/messaging/rabbitmq/channel_pool.go. A channel is the
--   number that the connection gave it; the broker may close one between any two calls.
-- - Rabbitmq/Consumer: pkg/messaging/rabbitmq/consumer.go; an answer to the broker is an action.
--   Messages are delivered again on fuel, one more than the retries that are left, which is enough
--   because every retry raises the count. Rabbitmq/Connection: connection.go, with contexts as
--   lists of numbered cancel functions.
-- - Rabbitmq/Topology, Rabbitmq/Settings, Rabbitmq/Publisher: dlq.go, config.go with strategy.go, and
--   publisher.go with client.go and options.go, of pkg/messaging/rabbitmq. What the broker does
--   with a message is a parameter of the theorems.
-- - Worker: pkg/worker/manager.go and errors.go, job/scheduler.go, job/adapter.go and job/types.go.
--   Worker/Consumer: registry.go, runner.go and registration.go of pkg/worker/consumer. The parser
--   of schedules is a parameter.
-- - HttpServer/Origins, HttpServer/Config, HttpServer/RequestId, HttpServer/Writer,
--   HttpServer/Headers, HttpServer/Problem, HttpServer/Health: cors.go, config.go, request_id.go,
--   response_writer.go, security.go, problem.go with errors.go, and health.go of
--   pkg/http_server/common. What reaches a wrapped writer is a log of calls.
-- - HttpServer/Chi: pkg/http_server/chi_server. Chi/Timeout is the race of a handler with its
--   deadline in middleware.go, as steps; Chi/Middleware the other middleware, functions on the
--   calls that the inner handler makes; Chi/Chain their order; Chi/Server with Setting, Made and
--   Lifecycle options.go, server.go, handler.go and lifecycle.go; Chi/Support health.go.
-- - Observability/Validation: pkg/observability/validation.go, with the lower case of characters and
--   what strings.EqualFold takes for equal as parameters.
--
-- Bounds: amounts and percentages lie between -2^53 and 2^53, as the constructors check; numbers of
-- a version are int64. Every other loop is structural recursion.
--
-- Not modelled: the texts that wrap an error; String and the JSON methods of the value objects,
-- which format floats; logs, spans, metrics and times of day; the server of
-- pkg/http_server/server_fiber, which does over fiber what the chi server does; the opening of
-- databases and their migrations; statuses below 200 of HTTP, which are taken for final ones; where a
-- Kafka group resumes after a commit; the providers of telemetry and their fake; nullable values; pools
-- of workers and other goroutines, but for the interleavings above; and the rest of the files of
-- these packages, which is calls of libraries.
mod Prelude
pub mod Database
pub mod Rabbitmq
pub mod Kafka
pub mod Worker
pub mod HttpServer
pub mod Observability
pub mod Events
pub mod HttpClient
pub mod Linq
pub mod Vos
pub mod Release
