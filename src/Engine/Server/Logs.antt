-- ===== src/Engine/Server/Logs.antt =====
-- The step logs of a run: what is executed, on what input, and where the run stops.
use workflow_automation_go_z.Common.{
  String, List, [], ◌∷◌, ◌++◌, ◌≡◌, refl, sym, ap, ◌∙◌, ◌⊎◌, inl, inr, collect, append-nil,
  append_assoc, ◌>>=◌, Result, ok, err,
}
use workflow_automation_go_z.Value.{GoMap}
use workflow_automation_go_z.Engine.Outside.{
  Workflow, Execution, StepLog, Context, with_timeout, StepDef, Trace, World, now,
}
use workflow_automation_go_z.Engine.Runner.{RunnerFactory}
use workflow_automation_go_z.Engine.Server.{attempt_step, run_loop, channel_of, step_timeout}
use workflow_automation_go_z.Engine.Server.Views.{log_view}
use workflow_automation_go_z.Engine.Server.Step.{
  log_of, logs-do_step, do_step-outcome, after_step, step_outcome, run_loop-failed,
  run_loop-success, finish_execution-logs,
}

module _ {F : Type 0} (w : World F) (factory : RunnerFactory) where
  module _ (execution : Execution) (wf : Workflow) (ctx : Context) where
    -- At some moment the step was attempted on `input`, with this result.
    abbrev pub Ran : StepDef F → GoMap F → Result (GoMap F) → Type 0
    Ran step input r =
        (t : Trace) × ((attempt_step w factory step (channel_of wf.id)
            (with_timeout ctx step_timeout) input t).0
          ≡ r)

    -- The log names the execution, the step and the input.
    pub record IsLogOf (step : StepDef F) (input : GoMap F) (l : StepLog) : Type 0 where
      pub of_execution : l.execution_id ≡ execution.id
      pub of_step : l.step_id ≡ step.id
      pub of_type : l.step_type ≡ step.type
      pub of_input : l.input ≡ w.encode_map input

    -- The logs `ls` and the result are those of running the steps in order from `input`: each output
    -- is the next input, and the first failure ends the run with its message.
    abbrev pub Executed : List (StepDef F) → GoMap F → List StepLog → String × String → Type 0
    Executed [] input [] r = r ≡ ("success", "")
    Executed [] input (l ∷ ls) r = ⊥
    Executed (s ∷ ss) input [] r = ⊥
    Executed (s ∷ ss) input (l ∷ ls) r =
        IsLogOf s input l
        × (((e : String) × Ran s input (err e)
              × (l.status ≡ "failed")
              × (l.error ≡ e)
              × (ls ≡ [])
              × (r ≡ ("failed", e)))
            ⊎ ((out : GoMap F) × Ran s input (ok out)
                × (l.status ≡ "success")
                × (l.error ≡ "")
                × (l.output ≡ w.encode_map out)
                × Executed ss out ls r))

    -- The rest of a run after a step that succeeded with the output `out`.
    run_loop-next :
        (s : StepDef F) (ss : List (StepDef F)) (input : GoMap F) (t : Trace) (out : GoMap F)
        → (step_outcome w factory execution wf ctx s input t).status ≡ "success"
        → (step_outcome w factory execution wf ctx s input t).output ≡ out
        → run_loop w factory execution wf ctx (s ∷ ss) input t
          ≡ run_loop w factory execution wf ctx ss out
              (after_step w factory execution wf ctx s input t)
    run_loop-next s ss input t out good same =
        run_loop-success w factory execution wf ctx s input t ss good
        ∙ ap
            (λ (o : GoMap F).
              run_loop w factory execution wf ctx ss o
                (after_step w factory execution wf ctx s input t))
            same

    log_at-IsLogOf :
        (s : StepDef F) (input : GoMap F) (t : Trace)
        → IsLogOf s input
            (log_of w factory execution s input (step_outcome w factory execution wf ctx s input t))
    log_at-IsLogOf s input t = record {
      of_execution = refl;
      of_step = refl;
      of_type = refl;
      of_input = refl;
    }

    pub run_loop-Executed :
        (steps : List (StepDef F)) (input : GoMap F) (t : Trace)
        → (ls : List StepLog) × (collect log_view
              (run_loop w factory execution wf ctx steps input t).1
            ≡ collect log_view t ++ ls)
          × Executed steps input ls (run_loop w factory execution wf ctx steps input t).0
    run_loop-Executed [] input t = (
      [],
      unfold run_loop ◌>>=◌ in
          (finish_execution-logs w factory execution wf.id "success").at t ∙ sym (append-nil _),
      unfold run_loop ◌>>=◌ in refl,
    )
    run_loop-Executed (s ∷ ss) input t =
        let log =
          log_of w factory execution s input (step_outcome w factory execution wf ctx s input t) in
        elim (do_step-outcome w factory execution wf ctx s input t) [
          | inl (out, ran, good, quiet, same) ↦
              let (ls, eq, ex) =
                run_loop-Executed ss out (after_step w factory execution wf ctx s input t) in
              (
                log ∷ ls,
                ap (λ r. collect log_view r.1) (run_loop-next s ss input t out good same)
                    ∙ eq
                    ∙ ap (λ l. l ++ ls) (logs-do_step w factory execution wf ctx s input t)
                    ∙ append_assoc (collect log_view t) (log ∷ []) ls,
                (
                  log_at-IsLogOf s input t,
                  inr (
                    out,
                    (t ++ now ∷ [], ran),
                    good,
                    quiet,
                    ap w.encode_map same,
                    rw (run_loop-next s ss input t out good same) ex,
                  ),
                ),
              )
          | inr (e, ran, bad, msg) ↦
              let stop = run_loop-failed w factory execution wf ctx s input t ss bad in
              (
                log ∷ [],
                ap (λ r. collect log_view r.1) stop
                    ∙ (finish_execution-logs w factory execution wf.id "failed").at _
                    ∙ logs-do_step w factory execution wf ctx s input t,
                (
                  log_at-IsLogOf s input t,
                  inl (
                    e,
                    (t ++ now ∷ [], ran),
                    bad,
                    msg,
                    refl,
                    ap (λ r. r.0) stop ∙ ap (λ (m : String). ("failed", m)) msg,
                  ),
                ),
              )
        ]
