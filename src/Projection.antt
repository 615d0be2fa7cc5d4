-- ===== src/Projection.antt =====
-- infrastructure/projections: what feeds the projectors, and what keeps a rebuild apart from the
-- live consumers.
pub mod Runner
pub mod Coordination
mod Tests
