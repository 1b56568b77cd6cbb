-- ===== src/Lib.antt =====
-- A model of the workflow automation engine, and the theorems that make its parts correct.
--
-- A workflow is a list of steps with a trigger. The API gateway keeps workflows in a database with
-- a cache in Redis, and a request or the scheduler triggers one: a pending execution is inserted
-- and a message for it is published to RabbitMQ. A worker of the gateway takes the message and
-- calls the execution engine, which runs the steps one after the other, logs each one, and
-- announces it on the Redis channel of the workflow, from which the gateway serves an event stream.
-- A message that the worker hands back comes again through a retry queue.
--
-- How the model is built. Code that calls a database, a queue, a clock or a service is an action
-- (Common/Effects): a function from the calls made so far, its trace, to its result and the trace
-- with its own calls added. What is outside the repository answers through a record `World` (or
-- `Broker`), whose fields are functions of the trace where the answers can change with time. A view
-- collects from a trace the calls that a theorem is about. An error is a value: `Result`, or an
-- `Option String` that is `none` where all went well. A `%d` is printed by `decimal`, whose fuel is
-- the number and one more, at least the count of its digits. Conversions between uint and int64
-- wrap at 2 ^ 64.
--
-- Files, by the part that they model.
-- - Value: Go's `any` and maps, as decoded from JSON. Json: what `json.Marshal` prints of the
--   structs that are published. Amqp: header tables and the calls of amqp091-go.
-- - Engine/Outside: execution-engine/internal/model/models.go and what the engine calls.
-- - Engine/Runner: the runners of execution-engine/internal/runner, with `RunnerFactory.New` as
--   `new`, `Run` as `run`, the constructors `new…Runner` as `new_…_runner`, ai_runner.go in
--   Engine/Runner/Ai and the other runners in Engine/Runner/Simple. Engine/Runner/Quiet is about the
--   calls that a runner makes, Engine/Runner/Tokens about what an AI step streams, and
--   Engine/Runner/Required about which steps the factory takes.
-- - Engine/Server: execution-engine/internal/server/server.go. RunExecution is `run_execution`,
--   runSteps `run_steps` with its loop `run_loop`, whose body is `do_step`, and StreamExecution
--   `stream_execution`. Its children prove: Step what one step does, Logs which steps are run and
--   logged, Status which statuses are written, Remote the same for the call, and Streaming the
--   relation between the two calls. Views names what is seen of a trace.
-- - Engine/Main: execution-engine/main.go and internal/config/config.go, with a proof in
--   Engine/Main/Served.
-- - Queue: api-gateway/internal/queue/publisher.go, with proofs in Queue/Headers and
--   Queue/Topology.
-- - Worker: api-gateway/internal/worker/executionworker.go. Worker/Settle is about one delivery,
--   Worker/Consumer about one consumer, Worker/Retry about all deliveries of one message: `deliver`
--   has fuel, and four rounds less the deaths that the message has had are enough. Worker/Start is
--   the start of the consumers.
-- - Scheduler: scheduler-service/cron/scheduler.go. Scheduler/Due is about the minutes at which a
--   cron expression is due, Scheduler/Triggers about what one check inserts and publishes. The cron
--   library is the parameter `parse_standard`; `Run` takes the number of ticks that come before its
--   context is done. Scheduler/Main is scheduler-service/main.go, with a proof in
--   Scheduler/Main/Ended.
-- - Gateway: api-gateway. Auth is internal/auth/claims.go, Middleware
--   internal/middleware/authmiddleware.go, Outside model/models.go and internal/types/types.go,
--   Workflows internal/logic/workflowlogic.go (with proofs in Access and Writes), Executions
--   internal/logic/executionlogic.go, Stream internal/handler/executionstreamhandler.go
--   (Stream/Finished on which events end a stream, Stream/Skip on the search for them), Login
--   internal/logic/loginlogic.go and healthlogic.go, Handlers internal/handler with its routes (with
--   proofs in Guarded and Parsing), and Executor internal/engine/executor.go, with the runners of
--   internal/engine in Executor/Runners, compared with the engine in Executor/Matching and
--   Executor/Same. Main is gateway.go, internal/svc/servicecontext.go and
--   internal/config/config.go, with a proof in Main/Served.
-- - Gateway/Store: the table of workflows and the cache of their items as one state that the calls of
--   workflowlogic.go change. Coherent is the invariant and what a single call does to it, Requests
--   the requests, Writing and Reading what each of them does, Reach the states that they lead to,
--   Table the answer that the table alone gives, and Race two requests at once.
-- - System: the parts together. Watch joins the engine and the event stream of the gateway (with
--   Announces and Runners on what the engine publishes), Delivery the worker and the engine. State
--   and Lifecycle join the gateway, the scheduler, the worker and the engine over one table of
--   executions and one run queue: a request that triggers a workflow, a check of the scheduler and
--   the handling of a delivery are its steps. Lifecycle/Inv is the invariant, Born, Scheduled, Runs
--   and Handled are about the steps, Rows about what a run writes, Settling about what becomes of a
--   delivery, Reach about the states that they lead to, Drain about emptying the queue, and Copies
--   and Once about how often an execution runs. A read, an insert, a status
--   write, a publication, a settlement or the answer of the engine may be lost at each step; `keep`
--   says by their places which status writes the database takes. No process stops in the middle of a
--   step, a run is over before its call fails, and the logs of the steps are not part of this state.
-- - Playground: playground/step_runner_demo.go, whose fan-out over goroutines is in
--   Playground/FanOut.
-- - Tests: concrete runs of these.
--
-- Not modelled: the routing by path, the parsing of requests and the printing of responses by the
-- server library, which are parameters of the handlers; the code that protoc generates; tracing and
-- logging. The goroutines of
-- the workers run on their own, each over a list of what arrives. PostgreSQL, Redis, RabbitMQ,
-- Keycloak and the services of the AI steps are parameters; of the first two Gateway/Store writes
-- down what an insert, an update, a deletion, SETEX and DEL change. Floats are a parameter.
pub mod Common
pub mod Value
pub mod Json
pub mod Amqp
pub mod Engine
pub mod Queue
pub mod Worker
pub mod Scheduler
pub mod Gateway
pub mod System
pub mod Playground
pub mod Tests
