-- ===== src/Lib.antt =====
-- notification-system: an HTTP service that stores notifications in PostgreSQL, publishes them to
-- RabbitMQ, one queue for each channel (sms, email, push), and sends them from workers to a webhook
-- provider, under a circuit breaker and a rate limiter.
--
-- The parts, with the code that they model:
--   Domain          internal/domain: the records and constants, Validate, Render, the error types.
--   CircuitBreaker  internal/circuitbreaker: Allow, RecordSuccess, RecordFailure, each one step
--                   under the mutex at a reading of the clock.
--   RateLimiter     internal/ratelimiter: the Redis script (Bucket), Allow and Wait (Wait).
--   Provider        internal/provider: Send and its classification of replies.
--   Queue           internal/queue: NewConnection (Connection), Publish (Producer),
--                   DeclareInfrastructure (Topology, and call by call in Topology/Declaring) and the
--                   routing of the exchanges that it declares.
--   Repository      internal/repository and migrations: the statements on the table notifications
--                   (Sql, Notifications, Batches, Listing) and on templates (Templates), the
--                   scanning of a row (Rows) and the text of a cursor (Cursors).
--   Service         internal/service: Create, CreateBatch and Cancel over the repository and the
--                   producer.
--   Scheduler       internal/scheduler: poll, and the loop of Start.
--   Worker          internal/worker: calculateBackoff (Backoff), Process in its stages and the loop
--                   of one worker (Processor), with the status updates of internal/pubsub, and
--                   Start of the dispatcher (Dispatcher); and the workers side by side (Threads):
--                   Process cut at each call, each use of the breaker and each sleep, and a system of
--                   any number of workers in any order, with the writes of the other parts.
--   Api             internal/api: the handlers, responses, backpressure with the poller of
--                   cmd/server/main.go, health, middleware, the router, metrics, the WebSocket.
--   Program         cmd/server: what main opens, starts, stops and closes, and parseLogLevel; the
--                   settings of internal/config, and what main makes of them (Wiring).
--   EndToEnd        the service, the queue and the worker together.
-- World holds the state that these share: the clock, the tables, the queue, the published status
-- updates, the requests that left, the breaker and the bucket of one channel. An operation takes a
-- world and returns its result and the next world. The environment Env decides, call by call, how
-- long a call of PostgreSQL, RabbitMQ or Redis takes and whether it goes through, fails without an
-- effect, or takes effect and loses its answer; it also supplies the provider's replies, random
-- numbers, UUIDs and their text, the order in which a map is read, the JSON decoder, the correlation
-- id that the context carries, and what PostgreSQL keeps of a JSONB text and of a TIMESTAMPTZ. The time
-- that NOW() gives is the clock's, unrounded. Program keeps the circuit breakers behind pointers, since
-- the processors and the metrics share them. Base has the Boolean tests, lists, texts and integers;
-- Scenarios the concrete inputs.
--
-- Bounds and fuel. Times are nanoseconds as natural numbers. The delays of calculateBackoff are
-- 64-bit and wrap; the queue depth is converted to 32 bits. Wait runs on 501 rounds, one for every
-- 10 ms of its 5 seconds and one more, which is proved to be enough. The client that reads page
-- after page runs on one page more than there are matching rows. Decimal numerals run on as much
-- fuel as the number itself. A message is delivered again as often as the fuel of Retries says, which
-- is arbitrary.
--
-- Not modelled: the encoding of JSON, the transport of HTTP, AMQP and Redis, the generated
-- documentation, and what libraries do: chi's choice of a route, the parser of the environment's
-- variables, PostgreSQL's aggregates and floating point numbers are parameters. Where several cases of
-- a select are ready, the model takes a fixed one. In Threads a delivery counts as settled when its
-- worker has done all that follows the acknowledgement, and the workers of one channel share one
-- breaker and one bucket; the other channels' workers write to the table only.
pub mod Base
pub mod Domain
pub mod CircuitBreaker
pub mod Worker
pub mod World
pub mod RateLimiter
pub mod Provider
pub mod Queue
pub mod Repository
pub mod Service
pub mod Scheduler
pub mod Api
pub mod EndToEnd
pub mod Program
pub mod Scenarios
