-- ===== src/Gateway/Executor/Same.antt =====
-- The executor of the gateway against the loop of the execution engine.
use workflow_automation_go_z.Common.{
  ℕ, String, Bool, true, false, not, ◌&&◌, some, List, [], ◌∷◌, ◌++◌, ◌≡◌, refl, sym, ap, ◌∙◌, inl,
  inr, str_eq, ◌<>◌, decimal, pure, ◌>>=◌, Result, ok, err, Result-cases, arith, ◌⊎◌,
}
use workflow_automation_go_z.Value.{GoMap, end}
use workflow_automation_go_z.Engine.Outside.{
  Context, with_timeout, StepDef, M, Trace, World, Float64,
}
use workflow_automation_go_z.Engine.Outside
use workflow_automation_go_z.Engine.Runner
use workflow_automation_go_z.Engine.Runner.{RunnerFactory}
use workflow_automation_go_z.Engine.Server
use workflow_automation_go_z.Gateway.Outside.{Workflow, Execution}
use workflow_automation_go_z.Gateway.Executor.Runners.{new_step_runner}
use workflow_automation_go_z.Gateway.Executor.Matching.{new-same, run_result-same}
use workflow_automation_go_z.Gateway.Executor.{
  attempt_step, execute_step, execute_steps, finish_execution, run_workflow, publish_event,
  steps_of, step_timeout,
}

-- The rows as the engine reads them. Its user id is a number, and is used by nothing.
abbrev pub engine_workflow : ℕ → Workflow → Outside.Workflow
engine_workflow user_id wf = record {
  id = wf.id;
  name = wf.name;
  user_id = user_id;
  trigger_type = wf.trigger_type;
  trigger_config = wf.trigger_config;
  steps = wf.steps;
  is_active = wf.is_active;
}

abbrev pub engine_execution : Execution → Outside.Execution
engine_execution ex = record {
  id = ex.id;
  workflow_id = ex.workflow_id;
  status = ex.status;
  started_at = ex.started_at;
  finished_at = ex.finished_at;
  trigger_payload = ex.trigger_payload;
}

module _ {F : Type 0} where
  -- No step is an AI task.
  abbrev pub no_ai_task : List (StepDef F) → Bool
  no_ai_task [] = true
  no_ai_task (s ∷ ss) = not (str_eq s.type "ai_task") && no_ai_task ss

module _ {F : Type 0} (w : World F) (f : RunnerFactory) where
  attempt-same :
      (step : StepDef F) (channel : String) (ctx : Context) (input : GoMap F) (t : Trace)
      → str_eq step.type "ai_task" ≡ false
      → Server.attempt_step w f step channel ctx input t ≡ attempt_step w step ctx input t
  unfolding Server.attempt_step attempt_step
  attempt-same step channel ctx input t e =
      ap
        (λ (r : Result Runner.StepRunner).
          elim r as (λ _. M (Result (GoMap F))) [
            | err e ↦ pure (err e)
            | ok r ↦ Runner.run w r ctx input
          ]
            t)
        (new-same w.float f step channel e)
      ∙ run_result-same w (new_step_runner w.float step) ctx input t

  module _ (user_id : ℕ) (wf : Workflow) (ex : Execution) (ctx : Context) where
    abbrev channel : String
    channel = "executions:" <> decimal wf.id

    abbrev engine_step : StepDef F → GoMap F → Trace → Server.StepOutcome F × Trace
    engine_step step input t =
        Server.do_step w f (engine_execution ex) (engine_workflow user_id wf) ctx step input t

    abbrev gateway_step : StepDef F → GoMap F → Trace → Result (GoMap F) × Trace
    gateway_step step input t = execute_step w channel ex ctx step input t

    step-same :
        (step : StepDef F) (input : GoMap F) (t : Trace)
        → str_eq step.type "ai_task" ≡ false
        → ((engine_step step input t).1 ≡ (gateway_step step input t).1)
          × (((out : GoMap F) × ((gateway_step step input t).0 ≡ ok out)
                × ((engine_step step input t).0.status ≡ "success")
                × ((engine_step step input t).0.output ≡ out))
              ⊎ ((e : String) × ((gateway_step step input t).0 ≡ err e)
                  × ((engine_step step input t).0.status ≡ "failed")))
    unfolding Server.do_step execute_step Server.write_step_log Server.publish_redis_event
        publish_event Server.encode_redis_event Server.channel_of ◌>>=◌
    step-same step input t e =
        let c = with_timeout ctx step_timeout in
        let t' = t ++ Outside.now ∷ [] in
        rw (attempt-same step channel c input t' e)
          (elim (Result-cases (attempt_step w step c input t').0) [
            | inl (out, r) ↦ rw r (refl, inl (out, refl, refl, refl))
            | inr (m, r) ↦ rw r (refl, inr (m, refl, refl))
          ])

    finish-same :
        (status : String) (t : Trace)
        → (Server.finish_execution w (engine_execution ex) wf.id status t).1
          ≡ (finish_execution w channel ex status t).1
    unfolding Server.finish_execution finish_execution Server.publish_redis_event publish_event
        Server.encode_redis_event Server.channel_of ◌>>=◌
    finish-same status t = refl

    engine_loop-failed :
        (step : StepDef F) (steps : List (StepDef F)) (input : GoMap F) (t : Trace)
        → (engine_step step input t).0.status ≡ "failed"
        → (Server.run_loop w f
            (engine_execution ex)
            (engine_workflow user_id wf)
            ctx
            (step ∷ steps)
            input
            t).1
          ≡ (Server.finish_execution w
              (engine_execution ex)
              wf.id
              "failed"
              (engine_step step input t).1).1
    unfolding Server.run_loop ◌>>=◌
    engine_loop-failed step steps input t e = rw e

    engine_loop-success :
        (step : StepDef F) (steps : List (StepDef F)) (input : GoMap F) (t : Trace)
        → (engine_step step input t).0.status ≡ "success"
        → (Server.run_loop w f
            (engine_execution ex)
            (engine_workflow user_id wf)
            ctx
            (step ∷ steps)
            input
            t).1
          ≡ (Server.run_loop w f
              (engine_execution ex)
              (engine_workflow user_id wf)
              ctx
              steps
              (engine_step step input t).0.output
              (engine_step step input t).1).1
    unfolding Server.run_loop ◌>>=◌
    engine_loop-success step steps input t e = rw e

    gateway_loop-failed :
        (step : StepDef F) (steps : List (StepDef F)) (input : GoMap F) (t : Trace) (e : String)
        → (gateway_step step input t).0 ≡ err e
        → (execute_steps w channel ex ctx (step ∷ steps) input t).1
          ≡ (finish_execution w channel ex "failed" (gateway_step step input t).1).1
    unfolding execute_steps ◌>>=◌
    gateway_loop-failed step steps input t e bad = rw bad

    gateway_loop-success :
        (step : StepDef F) (steps : List (StepDef F)) (input out : GoMap F) (t : Trace)
        → (gateway_step step input t).0 ≡ ok out
        → (execute_steps w channel ex ctx (step ∷ steps) input t).1
          ≡ (execute_steps w channel ex ctx steps out (gateway_step step input t).1).1
    unfolding execute_steps ◌>>=◌
    gateway_loop-success step steps input out t good = rw good

    loop-same :
        (steps : List (StepDef F)) (input : GoMap F) (t : Trace)
        → no_ai_task steps ≡ true
        → (Server.run_loop w f
            (engine_execution ex)
            (engine_workflow user_id wf)
            ctx
            steps
            input
            t).1
          ≡ (execute_steps w channel ex ctx steps input t).1
    loop-same [] input t none_left =
        unfold Server.run_loop execute_steps ◌>>=◌ in finish-same "success" t
    loop-same (s ∷ ss) input t plain =
        let (same, cases) = step-same s input t (ground arith) in
        elim cases [
          | inl (out, ran, good, gives) ↦
              engine_loop-success s ss input t good
              ∙ rw (gives, same) (loop-same ss out (gateway_step s input t).1 (ground arith))
              ∙ sym (gateway_loop-success s ss input out t ran)
          | inr (e, ran, bad) ↦
              engine_loop-failed s ss input t bad
              ∙ finish-same "failed" (engine_step s input t).1
              ∙ ap (λ u. (finish_execution w channel ex "failed" u).1) same
              ∙ sym (gateway_loop-failed s ss input t e ran)
        ]

    -- For a workflow without AI tasks, the executor of the gateway and the loop of the engine make
    -- the same calls of the database, of Redis and of the steps, in the same order, whatever keys the
    -- engine's factory has.
    pub run_workflow-same :
        (t : Trace)
        → no_ai_task (steps_of w wf) ≡ true
        → (run_workflow w ctx ex wf t).1
          ≡ (Server.run_steps w f ctx (engine_execution ex) (engine_workflow user_id wf) t).1
    unfolding run_workflow Server.run_steps
    run_workflow-same t plain = sym (loop-same (steps_of w wf) (some end) t plain)
