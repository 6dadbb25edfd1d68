-- ===== src/Lib.antt =====
-- A verification library of the service template: each module models a part of the code, with the
-- names of the code in snake case, and its child modules prove what the code there does.
--
-- Shared:
-- - Prelude: numbers, lists, `Map`s as lists of entries, Boolean tests.
-- - Text: strings as lists of UTF-16 code units, with the string methods that the code calls. Letter
--   case is that of ASCII: `toLowerCase` and `toUpperCase` leave other units as they are.
-- - Value: the values of a payload (JSON, `undefined` and dates).
--
-- Parts of the program:
-- - Flow (src/main/adapters/flow-adapter.ts): `make_flow` runs the events of one flow, on fuel of two
--   more than the middlewares, which is one emit for each, one for the empty stack and one for the
--   end. A middleware is a function from the shared data to what one awaited call of it leaves.
--   Flow.Message is src/main/adapters/flow-manager/adapters/message-adapter.ts, a flow in a flow.
-- - Buffer (src/infra/db/mongodb/util/bulk-insert-buffer.ts): the buffer of logs, as a machine whose
--   events are the calls of its methods, the end of a write and the timer, in any order.
-- - Security (src/util/security): sensitive keys, card numbers, masks and the walk that masks a
--   payload. The fragments of a key are searched with a memo in the code, which is left out.
-- - Rabbit (src/infra/mq/utils/rabbitmq-server/rabbitmq-server.ts): the client of the message broker,
--   as a machine over its fields; the broker, the timers and the index that is drawn are events.
-- - Loader (the same file and src/infra/worker/worker-manager.ts): which consumers and workers are
--   started, from a list of allowed and denied names.
-- - Reprocessing (src/data/usecases/mq/mq-send-reprocessing.ts, src/job/util/reprocessing.ts): what
--   becomes of a message whose job throws. Reprocessing.Send makes the call that publishes or saves
--   the message, and Reprocessing.Decorator is the decorator that catches the error and prepares a
--   message that comes back. Rabbit delivers the messages and Flow runs the decorated jobs.
-- - Promises (src/util/promise/split-promises.ts): callbacks run so many at a time, as a machine whose
--   events are the ends of the callbacks.
-- - Keys (src/util/object/formatters): the keys of a payload between camel case and snake case.
-- - Validation (src/main/adapters/request-validation-adapter.ts): a request is validated whatever the
--   case of its keys; the schema is a parameter.
-- - Cache (src/infra/cache/cache-server.ts): the client of the cache server, as a machine over its
--   methods; Cache.Request (src/infra/http/service/adapters/cache-request-adapter.ts): an HTTP client
--   that keeps responses, over any cache service that keeps what it was given for its time.
-- - Paths (src/util/object/handlers/get-in.ts, src/plugin/extract-values.ts): values by dotted paths,
--   and the object that is made of configured paths.
-- - Manager (src/main/adapters/flow-manager/flow-manager-adapter.ts): which of the flows takes a
--   call; the conditions read their values by Paths, and the flows that it chooses are those of Flow.
-- - Parallelize (src/main/adapters/parallelize/parallelize-adapter.ts): middlewares that run at once,
--   over the order in which their promises settle.
-- - Web (src/infra/http/util/web-server): a request through the middlewares of a route, over Flow
--   and Keys; Web.Server and Web.Events are the routes and the start of the server, as a machine.
-- - Sockets (src/infra/http/util/websocket-server, src/main/adapters/socket): the messages of a
--   websocket over Flow, and the repeater with its timers.
-- - Modify (src/util/object/modifiers): objects made of objects.
-- - Select (src/infra/db/mssql/util/knex/extensions/formatted-select-plugin.ts): a select of nested
--   objects by aliases that hold the paths; the rows are the database's.
-- - Workers (src/infra/worker/worker-manager.ts): the scheduler that the workers share, its connection
--   and the registrations, as a machine over the ends of the promises; the guards are Loader's.
-- - Bootstrap (src/main/bootstrap.ts): the start of the services and their end at a signal, over
--   whether each call succeeds.
-- - Helm (script/helm/util.mjs): the values of an environment file, and what is deployed of them.
--
-- Not modelled: databases, the search service and loggers, which call packages; the types of the
-- domain; factories, routes and most of the configuration, which compose the parts; the adapters of
-- jobs, the HTTP clients and the runs of the workers themselves.
mod Prelude
pub mod Text
pub mod Value
pub mod Flow
pub mod Buffer
pub mod Security
pub mod Loader
pub mod Manager
pub mod Rabbit
pub mod Reprocessing
pub mod Promises
pub mod Keys
pub mod Validation
pub mod Cache
pub mod Parallelize
pub mod Web
pub mod Workers
pub mod Modify
pub mod Select
pub mod Sockets
pub mod Helm
pub mod Bootstrap
pub mod Paths
