-- ===== src/Rabbit.antt =====
-- src/infra/mq/utils/rabbitmq-server/rabbitmq-server.ts: the client of the message broker. The
-- broker, the library's channels and the timers are the environment: what they answer is an
-- argument of an event, and their order is the order of the events.
pub mod State
pub mod Delivery
pub mod Connection
pub mod Events
pub mod Once
pub mod Publish
pub mod Settle
mod Tests
