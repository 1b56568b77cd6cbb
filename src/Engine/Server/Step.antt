-- ===== src/Engine/Server/Step.antt =====
-- One step of a run: the log that it writes, its outcome, and how the loop goes on.
use workflow_automation_go_z.Common.{
  ℕ, String, List, [], ◌∷◌, ◌++◌, ◌≡◌, ◌⊎◌, inl, inr, collect, Quiet, quiet_rules, append-nil,
  ◌>>=◌, collect-append, Result-cases, ok, err,
}
use workflow_automation_go_z.Value.{GoMap}
use workflow_automation_go_z.Engine.Outside.{
  Workflow, Execution, StepLog, Context, with_timeout, StepDef, Call, Trace, World, now,
}
use workflow_automation_go_z.Engine.Runner
use workflow_automation_go_z.Engine.Runner.{RunnerFactory}
use workflow_automation_go_z.Engine.Runner.Quiet.{HidesRunners, run-Quiet}
use workflow_automation_go_z.Engine.Server.{
  StepOutcome, attempt_step, do_step, run_loop, finish_execution, channel_of, step_timeout,
  outcome_of,
}
use workflow_automation_go_z.Engine.Server.Views.{
  log_view, status_view, log_view-HidesRunners, status_view-HidesRunners,
}

module _ {F : Type 0} (w : World F) (factory : RunnerFactory) where
  pub attempt_step-Quiet :
      {V : Type 0} (view : Call → List V) (h : HidesRunners view) (step : StepDef F)
      (channel : String) (ctx : Context) (input : GoMap F)
      → Quiet view (attempt_step w factory step channel ctx input)
  unfolding attempt_step
  attempt_step-Quiet view h step channel ctx input =
      elim (Result-cases (Runner.new w.float factory step channel)) [
        | inl (r, e) ↦ rw (e, attempt_step) (run-Quiet w view h r ctx input)
        | inr (m, e) ↦ rw (e, attempt_step) (search quiet_rules)
      ]

  -- The log that a step's outcome is written as.
  abbrev pub log_of : Execution → StepDef F → GoMap F → StepOutcome F → StepLog
  log_of execution step input o = record {
    execution_id = execution.id;
    step_id = step.id;
    step_type = step.type;
    status = o.status;
    input = w.encode_map input;
    output = w.encode_map o.output;
    error = o.err_msg;
    duration_ms = o.duration_ms;
  }

  module _ (execution : Execution) (wf : Workflow) (ctx : Context) (step : StepDef F)
      (input : GoMap F) (t : Trace) where
    pub logs-do_step :
        collect log_view (do_step w factory execution wf ctx step input t).1
        ≡ collect log_view t
          ++ log_of execution step input (do_step w factory execution wf ctx step input t).0 ∷ []
    unfolding do_step ◌>>=◌
    logs-do_step = simp (
      collect-append,
      append-nil,
      (attempt_step-Quiet log_view log_view-HidesRunners step (channel_of wf.id)
          (with_timeout ctx step_timeout) input).at,
    )

    pub statuses-do_step :
        collect status_view (do_step w factory execution wf ctx step input t).1
        ≡ collect status_view t
    unfolding do_step ◌>>=◌
    statuses-do_step = simp (
      collect-append,
      append-nil,
      (attempt_step-Quiet status_view status_view-HidesRunners step (channel_of wf.id)
          (with_timeout ctx step_timeout) input).at,
    )

    -- What one step comes to, by the result of its attempt.
    pub do_step-outcome :
        let o = (do_step w factory execution wf ctx step input t).0 in
        let r =
          (attempt_step w factory step
            (channel_of wf.id)
            (with_timeout ctx step_timeout)
            input
            (t ++ now ∷ [])).0 in
        ((out : GoMap F) × (r ≡ ok out)
          × (o.status ≡ "success")
          × (o.err_msg ≡ "")
          × (o.output ≡ out))
        ⊎ ((e : String) × (r ≡ err e) × (o.status ≡ "failed") × (o.err_msg ≡ e))
    unfolding do_step ◌>>=◌
    do_step-outcome =
        elim (Result-cases
          (attempt_step w factory step (channel_of wf.id) (with_timeout ctx step_timeout) input
            (t ++ now ∷ [])).0) [
              | inl (out, e) ↦
                  inl (out, e, rw (e, outcome_of), rw (e, outcome_of), rw (e, outcome_of))
              | inr (m, e) ↦ inr (m, e, rw (e, outcome_of), rw (e, outcome_of))
            ]

    abbrev pub after_step : Trace
    after_step = (do_step w factory execution wf ctx step input t).1

    abbrev pub step_outcome : StepOutcome F
    step_outcome = (do_step w factory execution wf ctx step input t).0

    pub run_loop-failed :
        (steps : List (StepDef F))
        → step_outcome.status ≡ "failed"
        → run_loop w factory execution wf ctx (step ∷ steps) input t ≡ (
          ("failed", step_outcome.err_msg),
          (finish_execution w execution wf.id "failed" after_step).1,
        )
    unfolding run_loop ◌>>=◌
    run_loop-failed steps e = rw e

    pub run_loop-success :
        (steps : List (StepDef F))
        → step_outcome.status ≡ "success"
        → run_loop w factory execution wf ctx (step ∷ steps) input t
          ≡ run_loop w factory execution wf ctx steps step_outcome.output after_step
    unfolding run_loop ◌>>=◌
    run_loop-success steps e = rw e

  pub finish_execution-logs :
      (execution : Execution) (id : ℕ) (status : String)
      → Quiet log_view (finish_execution w execution id status)
  unfolding finish_execution
  finish_execution-logs execution id status = search quiet_rules
