-- ===== src/Lib.antt =====
-- An event-sourced core bank (src/ of the repository): accounts and transfers are aggregates whose
-- commands raise domain events; a repository loads an aggregate by replaying its event stream and
-- appends the new events under optimistic concurrency control; every append stages outbox messages;
-- idempotency keys and transaction ids keep a request from moving money twice; projectors build
-- read models from the events.
--
-- The files, and what they model:
--   Base          lists, texts (strings as lists of code units), integers, maps as association lists
--   Common        src/common: money.ts (Money), domain-event.ts and command-context.ts (Event),
--                 aggregate-root.ts (Aggregate); exceptions as values (Result, Message)
--   Infrastructure  src/infrastructure, over the in-memory stores: in-memory-event-store.ts
--                 (EventStore), in-memory-outbox-store.ts (Outbox), outbox-publisher.service.ts
--                 (Outbox/Publisher), in-memory-snapshot-store.ts (Snapshots),
--                 idempotency.service.ts and its records (Idempotency),
--                 transaction-registry.service.ts and its records (Transactions)
--   Account       src/modules/accounts: account.aggregate.ts (Aggregate), the commands and handlers
--                 (Command), account.repository.ts (Repository), the in-memory read model
--                 (ReadModel), account-projector.service.ts (Projector); Step is the abstract account
--   Transfer      src/modules/transfers: transfer.aggregate.ts (Aggregate), the commands and handlers
--                 (Command, Initiation), transfer.repository.ts (Repository), the in-memory read
--                 model (ReadModel), transfer-projector.service.ts (Projector),
--                 transfer-coordinator.service.ts (Coordinator, over a Bank of the account stores
--                 and the transaction records); Lifecycle is the diagram of a transfer's phases
--   Projection    src/infrastructure/projections: projection-runner.service.ts (Runner) and
--                 projection-coordination.service.ts (Coordination)
--   Api           accounts.controller.ts (Accounts) and transfers.controller.ts (Transfers), over the
--                 idempotency records, the bank and the read models
-- A method of a class with mutable fields is a function from the state before it to a result and the
-- state after it, under the method's name in snake_case; a thrown exception is `err`. A `Map` is an
-- association list in insertion order. Times are milliseconds, and random identifiers are arguments
-- (`Stamp`). A JavaScript number that holds money is the decimal text that it is read from or printed
-- as; rounding of binary64 numbers is not modelled. Counters and versions are natural numbers without
-- the bound 2 ^ 53.
--
-- The retry loop of a repository counts down the three attempts of the source (`retry_loop`), so it
-- needs no other fuel; what other instances commit between its reads and writes is an argument
-- (`Others`). The in-process lock of an account is a step relation of its own (Account/Repository/Lock;
-- transfers have the same lock): it only delays operations, and the theorems about the repositories
-- hold without it. The replay of the log takes a number of rounds; one more than there are events
-- behind the position is enough. `to_string` prints with one unit of fuel more than the number, which is enough since a number
-- has fewer digits than that.
--
-- Not modelled: the PostgreSQL stores (their meaning is the SQL server's), Kafka, metrics and logs,
-- the HTTP framework with its validation of bodies, wiring, timers and when the service starts the
-- outbox publisher. The SHA-256 of a request is a parameter.
mod Base
pub mod Common
pub mod Infrastructure
pub mod Account
pub mod Transfer
pub mod Projection
pub mod Api
