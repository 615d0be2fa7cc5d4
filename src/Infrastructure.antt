-- ===== src/Infrastructure.antt =====
-- infrastructure: the stores and services that the modules build on.
pub mod Outbox
pub mod EventStore
pub mod Snapshots
pub mod Idempotency
pub mod Transactions
mod Tests
