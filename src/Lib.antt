-- ===== src/Lib.antt =====
-- The workshop service: executions of repair orders, the stock of parts with its reservations, and
-- the messages that drive them (a NestJS service over MySQL and RabbitMQ).
--
-- Parts and files. Paths are from the root of the repository.
-- - Execution.antt, Execution/Methods.antt: class Execution (src/execution/domain/entities/
--   execution.entity.ts), one function for each method. Execution/Lifecycle*: its state machine.
-- - Execution/Mapper.antt, Execution/Repository.antt: ExecutionMapper and
--   TypeOrmExecutionRepository (src/execution/infrastructure).
-- - Execution/Identity.antt, Execution/Service.antt: ExecutionService (src/execution/application/
--   services/execution.service.ts). Execution/Service/*: repeated creation, and the table of
--   executions through every operation.
-- - Execution/Publisher.antt, Messaging.antt: ExecutionRabbitMqPublisher (src/messaging/
--   execution-rabbitmq.publisher.ts) and createDeterministicEventId (src/common/events).
-- - Part.antt, Part/Methods.antt: PartCode and Part (src/part/domain). Part/Stock.antt: its stock.
-- - Reservation.antt: StockReservation (src/part/domain/entities/stock-reservation.entity.ts).
-- - Inventory.antt: the tables of parts and reservations with their mappers and repositories
--   (src/part/infrastructure).
-- - Reserving.antt: StockReservationService (src/part/application/services/
--   stock-reservation.service.ts). Reserving/*: what it does to the stock.
-- - Releasing.antt: StockReleaseService (src/part/application/services/stock-release.service.ts).
--   Releasing/Work.antt and Releasing/Unit.antt: TypeOrmStockReleaseUnitOfWork (src/part/
--   infrastructure/persistence) and StockReleaseOperationMapper. Its other files: what it does.
-- - Consumed.antt: TypeOrmConsumedMessageRepository (src/messaging/consumed-message.repository.ts),
--   each call of claim as a whole. Consumed/Workers.antt: the same calls of many workers, which
--   interleave at each access to the database, with a clock and crashes.
-- - Broker.antt: how RabbitMqConsumer (src/messaging/rabbitmq-broker.ts) handles a delivery.
--   Broker/Recovery.antt: how it restores its subscriptions, one event for what happens between
--   two awaits. Broker/Connection.antt: RabbitMqConnection in the same manner, with the attempts to
--   open a channel. Broker/Publisher.antt: RabbitMqPublisher. Broker/*: what they do.
-- - Events.antt: a consumption under a claim. Events/Requests.antt: the validation of the messages.
--   Events/Executions.antt and Events/Stocks.antt: ExecutionEventsService and StockEventsService
--   (src/messaging). Events/*: what they do with Consumed, Execution, Reserving and Releasing.
-- - Parts.antt: PartService (src/part/application/services/part.service.ts). Parts/*: what it does to
--   the table.
-- - Catalog.antt, Catalog/Service.antt: ServiceCatalogItem and ServiceCatalogService
--   (src/service-catalog). Catalog/*: what they do to the table.
-- - Listing.antt: filtered, ordered and paged lists (the query builder of TypeORM as the interface
--   Engine). Parts/Listing.antt, Catalog/Listing.antt and Execution/Listing.antt: the lists of the
--   repositories and services. Listing/*, and Paging and Listed beside those: what they hold.
-- - Base, Int, Number, Text, Errors, Persistence, IsoDate: the shared helpers. Tests: concrete runs.
--
-- How the code is modelled. A method that may throw is an Action: a function from the state to a
-- result and the state that is left, so that what was written before a throw stays written. The
-- state of a service is the tables, the confirmed messages and the observed durations. What a
-- constructor reads from the clock and from randomUUID is an argument (Readings, Moments). Times
-- are milliseconds since the epoch. A string is the list of its UTF-16 code units; toUpperCase is
-- written out for Latin-1 and leaves other units alone. A number is exact in millionths, or one of
-- NaN and the infinities: the rounding of large doubles is not modelled. Values have the types that
-- the source declares, so a missing value behind a declared type does not occur.
--
-- What stands outside. TypeORM's Repository is the interface Orm of Persistence.antt: a call
-- answers as documented or throws. The hash of node:crypto and the confirmation of the broker are
-- fields of Outside. A statement that needs an answer says so by Answers or DatabaseAnswers.
-- The query builder gives the rows that meet the conditions in the order that is asked for; rows that
-- tie in it may come in any order, and in another one for another page.
-- Two look-ups that the source starts together by Promise.all run one after the other; requests run
-- one at a time, and interleavings of two requests are modelled for the ledger of consumed messages
-- only. A transaction keeps what it wrote when it returns and nothing when it throws; a fault of the
-- commit itself is not modelled, nor is a unique index beside the primary keys and the ledger's.
-- Texts in a condition of a look-up are compared exactly, without the collation of a column.
-- JSON.stringify, localeCompare and the code of a driver's error are parameters (Hashing,
-- Transactions).
--
-- The reservations of one reserve message, which the source starts together, run one after the
-- other; the envelope of a message has the types that its interface declares, its payload is any
-- value. A driver that throws for another reason than a duplicate key ends a worker like a crash.
-- The parsing of dates and of JSON, the conversion Number and the channel are parameters (Dates,
-- ConsumerEnv).
--
-- Not modelled: the set of the listeners of a connection, the delete of a repository, the formatted
-- answers, HTTP controllers, configuration, authentication, logging, migrations and modules; of a
-- consumed message, the generated columns and the precision of its times; of an item of the
-- catalog, the discounted price.
-- No definition runs on fuel: every loop is structural.
pub mod Base
pub mod Int
pub mod Number
pub mod Text
pub mod Errors
pub mod Persistence
pub mod IsoDate
pub mod Messaging
pub mod Execution
pub mod Part
pub mod Reservation
pub mod Inventory
pub mod Listing
pub mod Reserving
pub mod Releasing
pub mod Consumed
pub mod Broker
pub mod Events
pub mod Parts
pub mod Catalog
pub mod Tests
