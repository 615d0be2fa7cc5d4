-- ===== src/Account.antt =====
-- modules/accounts: the account aggregate, its commands, its repository and its read model.
pub mod Aggregate
pub mod Command
pub mod Step
pub mod Refinement
pub mod Amounts
pub mod Repository
pub mod ReadModel
pub mod Projector
mod Tests
