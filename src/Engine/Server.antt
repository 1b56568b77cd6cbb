-- ===== src/Engine/Server.antt =====
-- execution-engine/internal/server/server.go: the two remote calls of the engine. A step of a
-- workflow is run, logged and announced before the next one starts; the first failure ends the run.
-- Tracing spans are left out. `time.Since` reads a clock that does not run backwards, so the
-- difference of two of its times is a natural number.
pub mod Views
pub mod Step
pub mod Logs
pub mod Status
pub mod Remote
pub mod Streaming
use workflow_automation_go_z.Common.{
  ℕ, ◌-◌, ◌/◌, ◌*◌, String, Option, none, some, List, [], ◌∷◌, ◌++◌, str_eq, ◌==◌, if◌then◌else◌,
  ◌<>◌, decimal, decimal_int, ℤ, pure, ask, tell, ◌>>=◌, ◌>>◌, Result, ok, err,
}
use workflow_automation_go_z.Json.{string_member, number_member}
use workflow_automation_go_z.Value.{GoMap, end}
use workflow_automation_go_z.Engine.Outside.{
  Workflow, Execution, Context, with_timeout, request, StepDef, M, World, first_workflow,
  first_execution, update_status, update_finished, create_step_log, publish, now,
}
use workflow_automation_go_z.Engine.Runner
use workflow_automation_go_z.Engine.Runner.{RunnerFactory}

-- `30 * time.Second`
abbrev pub step_timeout : ℕ
step_timeout = 30 * 1000000000

pub record RedisEvent : Type 0 where
  pub type : String
  pub execution_id : ℕ
  pub step_id : String
  pub status : String
  pub duration_ms : ℕ

-- `json.Marshal` of the event, whose `stepId` and `durationMs` are left out where they are zero.
unfoldable pub encode_redis_event : RedisEvent → String
unfolding string_member number_member
encode_redis_event e =
    "{"
    <> string_member "type" e.type
    <> ","
    <> number_member "executionId" e.execution_id
    <> (if str_eq e.step_id "" then "" else "," <> string_member "stepId" e.step_id)
    <> ","
    <> string_member "status" e.status
    <> (if e.duration_ms == 0 then "" else "," <> number_member "durationMs" e.duration_ms)
    <> "}"

unfoldable pub channel_of : ℕ → String
unfolding decimal
channel_of workflow_id = "executions:" <> decimal workflow_id

unfoldable pub publish_redis_event : ℕ → ℕ → String → String → String → ℕ → M (Unit {0})
publish_redis_event workflow_id execution_id event_type step_id status duration_ms = tell (
    publish (channel_of workflow_id) (
      encode_redis_event (record {
        type = event_type;
        execution_id = execution_id;
        step_id = step_id;
        status = status;
        duration_ms = duration_ms;
      })))

-- An event of the gRPC stream.
pub record ExecutionEvent : Type 0 where
  pub event_type : String
  pub step_id : String
  pub status : String
  pub duration_ms : ℕ
  pub error : String

-- `pb.RunExecutionReq`, with its int64 fields.
pub record RunExecutionReq : Type 0 where
  pub execution_id : ℤ
  pub workflow_id : ℤ
  pub trigger_payload : String

pub record RunExecutionResp : Type 0 where
  pub status : String
  pub error : String

-- What one step came to: `status`, `stepErrMsg`, `output` and `durationMs` of the loop's body.
pub record StepOutcome (F : Type 0) : Type 0 where
  pub status : String
  pub err_msg : String
  pub output : GoMap F
  pub duration_ms : ℕ

module _ {F : Type 0} where
  abbrev pub outcome_of : Result (GoMap F) → ℕ → StepOutcome F
  outcome_of (ok output) ms = record {
    status = "success";
    err_msg = "";
    output = output;
    duration_ms = ms;
  }
  outcome_of (err e) ms = record { status = "failed"; err_msg = e; output = none; duration_ms = ms }

module _ {F : Type 0} (w : World F) where
  unfoldable pub write_step_log :
      Execution → StepDef F → String → String → GoMap F → GoMap F → ℕ → M (Unit {0})
  write_step_log execution step status err_msg input output duration_ms = tell (
      create_step_log (record {
        execution_id = execution.id;
        step_id = step.id;
        step_type = step.type;
        status = status;
        input = w.encode_map input;
        output = w.encode_map output;
        error = err_msg;
        duration_ms = duration_ms;
      }))

  unfoldable pub finish_execution : Execution → ℕ → String → M (Unit {0})
  unfolding publish_redis_event
  finish_execution execution workflow_id status = do
    at ← ask now w.clock
    tell (update_finished execution.id status at)
    publish_redis_event workflow_id execution.id "finished" "" status 0

module _ {F : Type 0} (w : World F) (factory : RunnerFactory) where
  -- The runner is made and run; a failure of either is the step's error.
  unfoldable pub attempt_step : StepDef F → String → Context → GoMap F → M (Result (GoMap F))
  attempt_step step channel ctx input = elim (Runner.new w.float factory step channel) [
    | err e ↦ pure (err e)
    | ok r ↦ Runner.run w r ctx input
  ]

  -- The body of the loop up to the log and the event of the step.
  unfoldable pub do_step : Execution → Workflow → Context → StepDef F → GoMap F → M (StepOutcome F)
  unfolding write_step_log publish_redis_event
  do_step execution wf ctx step input = do
    started_at ← ask now w.clock
    result ← attempt_step step (channel_of wf.id) (with_timeout ctx step_timeout) input
    ended_at ← ask now w.clock
    let o : StepOutcome F = outcome_of result ((ended_at - started_at) / 1000000)
    write_step_log w execution step o.status o.err_msg input o.output o.duration_ms
    publish_redis_event wf.id execution.id "step_done" step.id o.status o.duration_ms
    pure o

  -- The loop of `runSteps`.
  unfoldable pub run_loop :
      Execution → Workflow → Context → List (StepDef F) → GoMap F → M (String × String)
  run_loop execution wf ctx [] input = do
    finish_execution w execution wf.id "success"
    pure ("success", "")
  run_loop execution wf ctx (step ∷ steps) input = do
    o ← do_step execution wf ctx step input
    if str_eq o.status "failed"
        then (do finish_execution w execution wf.id "failed"; pure ("failed", o.err_msg))
        else run_loop execution wf ctx steps o.output

  -- Steps that do not decode are no steps: the execution ends with success, as with an empty list.
  abbrev pub steps_of : Workflow → List (StepDef F)
  steps_of wf = elim (w.decode_steps wf.steps) [ err _ ↦ [] | ok steps ↦ steps ]

  unfoldable pub run_steps : Context → Execution → Workflow → M (String × String)
  run_steps ctx execution wf = run_loop execution wf ctx (steps_of wf) (some end)

  unfoldable pub run_execution : RunExecutionReq → M (Result RunExecutionResp)
  run_execution req = do
    found ← ask (first_workflow req.workflow_id) (λ t. w.load_workflow t req.workflow_id)
    elim found [
      | err e ↦ pure (err ("load workflow " <> decimal_int req.workflow_id <> ": " <> e))
      | ok wf ↦ do
        loaded ← ask (first_execution req.execution_id) (λ t. w.load_execution t req.execution_id)
        elim loaded [
          | err e ↦ pure (err ("load execution " <> decimal_int req.execution_id <> ": " <> e))
          | ok execution ↦ do
            tell (update_status execution.id "running")
            result ← run_steps request execution wf
            pure (ok (record { status = result.0; error = result.1 }))
        ]
    ]

abbrev pub finished_event : String → String → ExecutionEvent
finished_event status error = record {
  event_type = "finished";
  step_id = "";
  status = status;
  duration_ms = 0;
  error = error;
}

-- The other end of the gRPC stream: the error of `Send` after these events have been sent.
pub record Client : Type 0 where
  pub send_error : List ExecutionEvent → ExecutionEvent → Option String

-- The state of a streaming call: the events sent so far beside the calls.
module _ {F : Type 0} (w : World F) (factory : RunnerFactory) (client : Client) where
  -- The loop of `StreamExecution`: the error that it returns, and the events that it has sent.
  unfoldable pub stream_loop :
      Execution
      → Workflow
      → Context
      → List (StepDef F)
      → GoMap F
      → List ExecutionEvent
      → M (Option String × List ExecutionEvent)
  stream_loop execution wf ctx [] input sent = do
    finish_execution w execution wf.id "success"
    let last = finished_event "success" ""
    pure (client.send_error sent last, sent ++ last ∷ [])
  stream_loop execution wf ctx (step ∷ steps) input sent = do
    o ← do_step w factory execution wf ctx step input
    let done : ExecutionEvent = record {
      event_type = "step_done";
      step_id = step.id;
      status = o.status;
      duration_ms = o.duration_ms;
      error = o.err_msg;
    }
    if str_eq o.status "failed"
        then (do
          finish_execution w execution wf.id "failed"
          pure (none, (sent ++ done ∷ []) ++ finished_event "failed" o.err_msg ∷ []))
        else stream_loop execution wf ctx steps o.output (sent ++ done ∷ [])

  unfoldable pub stream_execution : RunExecutionReq → M (Option String × List ExecutionEvent)
  stream_execution req = do
    found ← ask (first_workflow req.workflow_id) (λ t. w.load_workflow t req.workflow_id)
    elim found [
      | err e ↦ pure (some ("load workflow " <> decimal_int req.workflow_id <> ": " <> e), [])
      | ok wf ↦ do
        loaded ← ask (first_execution req.execution_id) (λ t. w.load_execution t req.execution_id)
        elim loaded [
          | err e ↦ pure (some ("load execution " <> decimal_int req.execution_id <> ": " <> e), [])
          | ok execution ↦ do
            tell (update_status execution.id "running")
            stream_loop execution wf request (steps_of w factory wf) (some end) []
        ]
    ]
