-- ===== src/System.antt =====
-- The parts of the program together: the engine and the clients of its event stream, the worker and
-- the engine, and the life of executions in the whole.
pub mod Announces
pub mod Runners
pub mod Watch
pub mod Delivery
pub mod State
pub mod Lifecycle
