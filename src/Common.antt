-- ===== src/Common.antt =====
-- What every part of the service shares: results and errors, and money.
pub mod Result
pub mod Optional
pub mod Event
pub mod Aggregate
pub mod Money
pub mod Message
