-- ===== src/Gateway/Executor.antt =====
-- api-gateway/internal/engine: the executor of the gateway, from which the execution engine was made.
-- executor.go is modelled here, the step runners in a module of their own.
pub mod Runners
pub mod Matching
pub mod Same
use workflow_automation_go_z.Common.{
  ℕ, ◌-◌, ◌/◌, ◌*◌, String, none, some, List, [], ◌∷◌, str_eq, ◌==◌, if◌then◌else◌, ◌<>◌, decimal,
  pure, ask, tell, ◌>>=◌, ◌>>◌, Result, ok, err,
}
use workflow_automation_go_z.Json.{string_member, number_member}
use workflow_automation_go_z.Value.{GoMap, end}
use workflow_automation_go_z.Engine.Outside.{
  Context, with_timeout, StepDef, M, World, Float64, update_finished, create_step_log, publish, now,
}
use Runners.{new_step_runner, run}
use workflow_automation_go_z.Gateway.Outside.{Workflow, Execution}

-- `30 * time.Second`
abbrev pub step_timeout : ℕ
step_timeout = 30 * 1000000000

-- ExecutionEvent of executor.go.
pub record ProgressEvent : Type 0 where
  pub type : String
  pub execution_id : ℕ
  pub step_id : String
  pub status : String
  pub duration_ms : ℕ

unfoldable pub publish_event : String → ProgressEvent → M (Unit {0})
unfolding string_member number_member
publish_event channel e = tell (
    publish channel (
      "{"
      <> string_member "type" e.type
      <> ","
      <> number_member "executionId" e.execution_id
      <> (if str_eq e.step_id "" then "" else "," <> string_member "stepId" e.step_id)
      <> ","
      <> string_member "status" e.status
      <> (if e.duration_ms == 0 then "" else "," <> number_member "durationMs" e.duration_ms)
      <> "}"))

module _ {F : Type 0} where
  -- `status`, `stepErrMsg` and `output` of the loop's body.
  abbrev pub status_of : Result (GoMap F) → String
  status_of (ok output) = "success"
  status_of (err e) = "failed"

  abbrev pub error_of : Result (GoMap F) → String
  error_of (ok output) = ""
  error_of (err e) = e

  abbrev pub output_of : Result (GoMap F) → GoMap F
  output_of (ok output) = output
  output_of (err e) = none

module _ {F : Type 0} (w : World F) where
  unfoldable pub finish_execution : String → Execution → String → M (Unit {0})
  unfolding publish_event
  finish_execution channel execution status = do
    at ← ask now w.clock
    tell (update_finished execution.id status at)
    publish_event channel (record {
      type = "finished";
      execution_id = execution.id;
      step_id = "";
      status = status;
      duration_ms = 0;
    })

  unfoldable pub attempt_step : StepDef F → Context → GoMap F → M (Result (GoMap F))
  unfolding new_step_runner run
  attempt_step step ctx input = elim (new_step_runner w.float step) [
    | err e ↦ pure (err e)
    | ok r ↦ run w r ctx input
  ]

  -- The body of the loop, up to the event of the step.
  unfoldable pub execute_step :
      String → Execution → Context → StepDef F → GoMap F → M (Result (GoMap F))
  unfolding attempt_step publish_event
  execute_step channel execution ctx step input = do
    started_at ← ask now w.clock
    result ← attempt_step step (with_timeout ctx step_timeout) input
    ended_at ← ask now w.clock
    let duration_ms = (ended_at - started_at) / 1000000
    tell (
        create_step_log (record {
          execution_id = execution.id;
          step_id = step.id;
          step_type = step.type;
          status = status_of result;
          input = w.encode_map input;
          output = w.encode_map (output_of result);
          error = error_of result;
          duration_ms = duration_ms;
        }))
    publish_event channel (record {
      type = "step_done";
      execution_id = execution.id;
      step_id = step.id;
      status = status_of result;
      duration_ms = duration_ms;
    })
    pure result

  unfoldable pub execute_steps :
      String → Execution → Context → List (StepDef F) → GoMap F → M (Unit {0})
  unfolding execute_step finish_execution
  execute_steps channel execution ctx [] input = finish_execution channel execution "success"
  execute_steps channel execution ctx (step ∷ steps) input = do
    result ← execute_step channel execution ctx step input
    if str_eq (status_of result) "failed"
        then finish_execution channel execution "failed"
        else execute_steps channel execution ctx steps (output_of result)

  abbrev pub steps_of : Workflow → List (StepDef F)
  steps_of wf = elim (w.decode_steps wf.steps) [ err _ ↦ [] | ok steps ↦ steps ]

  unfoldable pub run_workflow : Context → Execution → Workflow → M (Unit {0})
  unfolding execute_steps decimal
  run_workflow ctx execution wf =
      execute_steps ("executions:" <> decimal wf.id) execution ctx (steps_of wf) (some end)
