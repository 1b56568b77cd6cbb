-- ===== src/Engine/Server/Remote.antt =====
-- The remote call RunExecution: its result, the step logs and the statuses that it writes.
use workflow_automation_go_z.Common.{
  String, List, [], ◌∷◌, ◌++◌, ◌≡◌, refl, ◌∙◌, ◌⊎◌, some, collect, collect-append, append-nil,
  append_assoc, ◌>>=◌, ◌<>◌, decimal_int, ok, err, Result-cases, inl, inr,
}
use workflow_automation_go_z.Value.{end}
use workflow_automation_go_z.Engine.Outside.{
  Workflow, Execution, StepLog, request, Trace, World, first_workflow, first_execution,
  update_status,
}
use workflow_automation_go_z.Engine.Runner.{RunnerFactory}
use workflow_automation_go_z.Engine.Server.{
  RunExecutionReq, RunExecutionResp, run_loop, run_steps, run_execution, steps_of,
}
use workflow_automation_go_z.Engine.Server.Views.{log_view, status_view}
use workflow_automation_go_z.Engine.Server.Logs.{Executed, run_loop-Executed}
use workflow_automation_go_z.Engine.Server.Status.{run_loop-statuses}

module _ {F : Type 0} (w : World F) (factory : RunnerFactory) (req : RunExecutionReq)
    (t : Trace) where
  -- The trace once both records are loaded, and once the execution is marked as running.
  abbrev pub loaded_trace : Trace
  loaded_trace = (t ++ first_workflow req.workflow_id ∷ []) ++ first_execution req.execution_id ∷ []

  abbrev pub running_trace : Execution → Trace
  running_trace execution = loaded_trace ++ update_status execution.id "running" ∷ []

  module _ (wf : Workflow) (execution : Execution)
      (found : w.load_workflow t req.workflow_id ≡ ok wf)
      (loaded : w.load_execution (t ++ first_workflow req.workflow_id ∷ []) req.execution_id
        ≡ ok execution) where
    -- With both records there, the call is the loop over the workflow's steps.
    pub run_execution-loop :
        let r =
          run_loop w factory execution wf request
            (steps_of w factory wf)
            (some end)
            (running_trace execution) in
        run_execution w factory req t ≡ (ok (record { status = r.0.0; error = r.0.1 }), r.1)
    unfolding run_execution run_steps ◌>>=◌
    run_execution-loop = rw (found, loaded)

    -- Where both records load, the call returns a response, and the step logs that it creates are
    -- those of running the workflow's steps in order from the empty map: each log names its
    -- execution, step and input, each output is the next input, and the first failing step ends the
    -- run with status "failed" and its message; otherwise every step is logged as a success and the
    -- response is "success" with no message. Steps that do not decode are run as no steps.
    pub run_execution-Executed :
        (ls : List StepLog) × (resp : RunExecutionResp) × ((run_execution w factory req t).0
          ≡ ok resp)
        × (collect log_view (run_execution w factory req t).1 ≡ collect log_view t ++ ls)
        × Executed w factory execution wf request
            (steps_of w factory wf)
            (some end)
            ls
            (resp.status, resp.error)
    run_execution-Executed =
        let (ls, eq, ex) =
          run_loop-Executed w factory execution wf request (steps_of w factory wf) (some end)
            (running_trace execution) in
        rw run_execution-loop (ls, _, refl, eq ∙ simp (collect-append, append-nil), ex)

    -- Where both records load, exactly two statuses are written, both for the loaded execution:
    -- "running", and then the status of the response, which is "success" or "failed".
    pub run_execution-statuses :
        (resp : RunExecutionResp) × ((run_execution w factory req t).0 ≡ ok resp)
        × (collect status_view (run_execution w factory req t).1
            ≡ collect status_view t ++ (execution.id, "running") ∷ (execution.id, resp.status) ∷ [])
        × ((resp.status ≡ "success") ⊎ (resp.status ≡ "failed"))
    run_execution-statuses =
        let (eq, cases) =
          run_loop-statuses w factory execution wf request (steps_of w factory wf) (some end)
            (running_trace execution) in
        rw run_execution-loop (_, refl, eq ∙ simp (collect-append, append-nil, append_assoc), cases)

  -- The call ends in one of three ways. The workflow does not load, and the call returns that error
  -- after this one read. Or the workflow loads and the execution does not, and the call returns that
  -- error after the two reads; in both cases nothing is written. Or both load, and the call returns a
  -- response.
  pub run_execution-cases :
      ((e : String) × (w.load_workflow t req.workflow_id ≡ err e)
        × (run_execution w factory req t ≡ (
          err ("load workflow " <> decimal_int req.workflow_id <> ": " <> e),
          t ++ first_workflow req.workflow_id ∷ [],
        )))
      ⊎ (((wf : Workflow) × (e : String) × (w.load_workflow t req.workflow_id ≡ ok wf)
            × (w.load_execution (t ++ first_workflow req.workflow_id ∷ []) req.execution_id ≡ err e)
            × (run_execution w factory req t ≡ (
              err ("load execution " <> decimal_int req.execution_id <> ": " <> e),
              loaded_trace,
            )))
          ⊎ ((wf : Workflow) × (execution : Execution) × (w.load_workflow t req.workflow_id ≡ ok wf)
              × (w.load_execution (t ++ first_workflow req.workflow_id ∷ []) req.execution_id
                  ≡ ok execution)
              × (resp : RunExecutionResp) × ((run_execution w factory req t).0 ≡ ok resp)))
  run_execution-cases = elim (Result-cases (w.load_workflow t req.workflow_id)) [
    | inr (e, missing) ↦ inl (e, missing, unfold run_execution ◌>>=◌ in rw missing)
    | inl (wf, found) ↦
        elim (Result-cases
          (w.load_execution (t ++ first_workflow req.workflow_id ∷ []) req.execution_id)) [
            | inr (e, missing) ↦
                inr (inl (wf, e, found, missing, unfold run_execution ◌>>=◌ in rw (found, missing)))
            | inl (execution, loaded) ↦
                let (resp, eq, written, either) =
                  run_execution-statuses wf execution found loaded in
                inr (inr (wf, execution, found, loaded, resp, eq))
          ]
  ]
