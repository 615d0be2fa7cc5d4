-- ===== src/Transfer.antt =====
-- modules/transfers: the transfer aggregate, its commands and the saga that moves the money.
pub mod Aggregate
pub mod ReadModel
pub mod Initiation
pub mod Repository
pub mod Projector
pub mod Command
pub mod Coordinator
pub mod Lifecycle
mod Tests
