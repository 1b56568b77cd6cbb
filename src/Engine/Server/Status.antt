-- ===== src/Engine/Server/Status.antt =====
-- The statuses that a run writes for its execution.
use workflow_automation_go_z.Common.{
  ℕ, String, List, [], ◌∷◌, ◌++◌, ◌≡◌, refl, ap, ◌∙◌, ◌⊎◌, inl, inr, collect, collect-append,
  append-nil, ◌>>=◌,
}
use workflow_automation_go_z.Value.{GoMap}
use workflow_automation_go_z.Engine.Outside.{Workflow, Execution, Context, StepDef, Trace, World}
use workflow_automation_go_z.Engine.Runner.{RunnerFactory}
use workflow_automation_go_z.Engine.Server.{run_loop, finish_execution}
use workflow_automation_go_z.Engine.Server.Views.{status_view}
use workflow_automation_go_z.Engine.Server.Step.{
  do_step-outcome, statuses-do_step, run_loop-failed, run_loop-success, after_step, step_outcome,
}

module _ {F : Type 0} (w : World F) (factory : RunnerFactory) where
  pub finish_execution-statuses :
      (execution : Execution) (id : ℕ) (status : String) (t : Trace)
      → collect status_view (finish_execution w execution id status t).1
        ≡ collect status_view t ++ (execution.id, status) ∷ []
  unfolding finish_execution ◌>>=◌
  finish_execution-statuses execution id status t = simp (collect-append, append-nil)

  module _ (execution : Execution) (wf : Workflow) (ctx : Context) where
    -- The loop writes one status, and it is the one that it returns.
    pub run_loop-statuses :
        (steps : List (StepDef F)) (input : GoMap F) (t : Trace)
        → let r = run_loop w factory execution wf ctx steps input t in
          (collect status_view r.1 ≡ collect status_view t ++ (execution.id, r.0.0) ∷ [])
          × ((r.0.0 ≡ "success") ⊎ (r.0.0 ≡ "failed"))
    run_loop-statuses [] input t =
        unfold run_loop ◌>>=◌ in (finish_execution-statuses execution wf.id "success" t, inl refl)
    run_loop-statuses (s ∷ ss) input t =
        let before = statuses-do_step w factory execution wf ctx s input t in
        elim (do_step-outcome w factory execution wf ctx s input t) [
          | inl (out, ran, good, quiet, same) ↦
              rw (run_loop-success w factory execution wf ctx s input t ss good, ← before)
                (run_loop-statuses ss (step_outcome w factory execution wf ctx s input t).output
                  (after_step w factory execution wf ctx s input t))
          | inr (e, ran, bad, msg) ↦
              rw (run_loop-failed w factory execution wf ctx s input t ss bad) (
                finish_execution-statuses execution wf.id "failed"
                      (after_step w factory execution wf ctx s input t)
                    ∙ ap (λ l. l ++ (execution.id, "failed") ∷ []) before,
                inr refl,
              )
        ]
