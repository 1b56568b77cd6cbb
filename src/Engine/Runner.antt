-- ===== src/Engine/Runner.antt =====
-- execution-engine/internal/runner/runner.go: the factory that makes a runner for a step, and the
-- dispatch of `Run` over the runners.
pub mod Simple
pub mod Ai
pub mod Quiet
pub mod Tokens
pub mod Required
use workflow_automation_go_z.Common.{
  String, Bool, false, str_eq, if◌then◌else◌, ◌<>◌, Result, ok, err,
}
use workflow_automation_go_z.Value.{GoMap}
use workflow_automation_go_z.Engine.Outside.{Context, StepDef, M, Float64, World}
use Simple.{
  HttpRequestRunner, TransformRunner, DelayRunner, ConditionRunner, SendEmailRunner,
  new_http_request_runner, new_transform_runner, new_delay_runner, new_condition_runner,
  new_send_email_runner, run_http_request, run_transform, run_delay, run_condition, run_send_email,
}
use Ai.{AiTaskRunner, new_ai_task_runner, run_ai_task}

-- The implementations of the interface `StepRunner`.
pub data StepRunner : Type 0 where
  http_request : HttpRequestRunner → StepRunner
  transform : TransformRunner → StepRunner
  delay : DelayRunner → StepRunner
  condition : ConditionRunner → StepRunner
  send_email : SendEmailRunner → StepRunner
  ai_task : AiTaskRunner → StepRunner

-- `rdb` says whether the Redis client is there.
pub record RunnerFactory : Type 0 where
  pub anthropic_api_key : String
  pub openai_api_key : String
  pub rdb : Bool

abbrev pub wrap : {A : Type 0} → (A → StepRunner) → Result A → Result StepRunner
wrap f (ok a) = ok (f a)
wrap f (err e) = err e

module _ {F : Type 0} where
  -- `RunnerFactory.New`
  unfoldable pub new : Float64 F → RunnerFactory → StepDef F → String → Result StepRunner
  unfolding new_http_request_runner new_transform_runner new_delay_runner new_condition_runner
      new_send_email_runner new_ai_task_runner
  new fl f step stream_chan =
      if str_eq step.type "http_request"
      then wrap http_request (new_http_request_runner step.config)
      else if str_eq step.type "transform"
      then wrap transform (new_transform_runner step.config)
      else if str_eq step.type "delay"
      then wrap delay (new_delay_runner fl step.config)
      else if str_eq step.type "condition"
      then wrap condition (new_condition_runner step.config)
      else if str_eq step.type "send_email"
      then wrap send_email (new_send_email_runner step.config)
      else if str_eq step.type "ai_task"
      then wrap ai_task (
          new_ai_task_runner fl step.config f.anthropic_api_key f.openai_api_key f.rdb stream_chan
            step.id)
      else err ("unknown step type: " <> step.type)

  unfoldable pub new_step_runner : Float64 F → StepDef F → Result StepRunner
  unfolding new
  new_step_runner fl step =
      new fl (record { anthropic_api_key = ""; openai_api_key = ""; rdb = false }) step ""

-- `StepRunner.Run`
module _ {F : Type 0} (w : World F) where
  unfoldable pub run : StepRunner → Context → GoMap F → M (Result (GoMap F))
  unfolding run_http_request run_transform run_delay run_condition run_send_email run_ai_task
  run (http_request r) ctx input = run_http_request w r ctx input
  run (transform r) ctx input = run_transform w r ctx input
  run (delay r) ctx input = run_delay w r ctx input
  run (condition r) ctx input = run_condition w r ctx input
  run (send_email r) ctx input = run_send_email w r ctx input
  run (ai_task r) ctx input = run_ai_task w r ctx input
