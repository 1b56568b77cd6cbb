-- ===== src/Tests.antt =====
-- Concrete runs of the engine, the worker, the scheduler and the gateway.
mod EngineRuns
mod WorkerRuns
mod SchedulerRuns
mod GatewayRuns
mod StoreRuns
mod Reader
mod LifecycleRuns
mod StartRuns
mod PlaygroundRuns
mod SystemRuns
mod HandlerRuns
