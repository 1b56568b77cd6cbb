-- ===== src/Engine.antt =====
-- The execution engine: execution-engine/internal.
pub mod Outside
pub mod Runner
pub mod Server
pub mod Main
