-- ===== src/Gateway.antt =====
-- The API gateway: api-gateway/internal and api-gateway/model.
pub mod Auth
pub mod Middleware
pub mod Outside
pub mod Workflows
pub mod Executions
pub mod Stream
pub mod Executor
pub mod Store
pub mod Login
pub mod Handlers
pub mod Main
