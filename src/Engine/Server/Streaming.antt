-- ===== src/Engine/Server/Streaming.antt =====
-- StreamExecution against RunExecution: the same calls, and events that mirror the step logs.
use workflow_automation_go_z.Common.{
  none, some, List, [], ◌∷◌, ◌++◌, map, ◌≡◌, refl, sym, ap, ◌∙◌, inl, inr, append-nil, append_assoc,
  ◌>>=◌, collect, collect-append, Result-cases, ok,
}
use workflow_automation_go_z.Value.{GoMap, end}
use workflow_automation_go_z.Engine.Outside.{
  Workflow, Execution, StepLog, Context, request, StepDef, Trace, World, first_workflow,
}
use workflow_automation_go_z.Engine.Runner.{RunnerFactory}
use workflow_automation_go_z.Engine.Server.{
  ExecutionEvent, RunExecutionReq, RunExecutionResp, Client, finished_event, run_loop, stream_loop,
  run_execution, run_steps, stream_execution, finish_execution, steps_of,
}
use workflow_automation_go_z.Engine.Server.Views.{log_view}
use workflow_automation_go_z.Engine.Server.Step.{
  log_of, logs-do_step, do_step-outcome, after_step, step_outcome, run_loop-failed,
  run_loop-success, finish_execution-logs,
}
use workflow_automation_go_z.Engine.Server.Remote.{running_trace, run_execution-loop}

-- The event that announces a step log.
abbrev pub event_of : StepLog → ExecutionEvent
event_of l = record {
  event_type = "step_done";
  step_id = l.step_id;
  status = l.status;
  duration_ms = l.duration_ms;
  error = l.error;
}

module _ {F : Type 0} (w : World F) (factory : RunnerFactory) (client : Client) where
  module _ (execution : Execution) (wf : Workflow) (ctx : Context) where
    stream_loop-failed :
        (step : StepDef F) (steps : List (StepDef F)) (input : GoMap F) (sent : List ExecutionEvent)
        (t : Trace)
        → let o = step_outcome w factory execution wf ctx step input t in
          o.status ≡ "failed"
          → stream_loop w factory client execution wf ctx (step ∷ steps) input sent t ≡ (
            (
              none,
              (sent ++ event_of (log_of w factory execution step input o) ∷ [])
                  ++ finished_event "failed" o.err_msg ∷ [],
            ),
            (finish_execution w execution wf.id "failed"
                (after_step w factory execution wf ctx step input t)).1,
          )
    unfolding stream_loop ◌>>=◌
    stream_loop-failed step steps input sent t e = rw e

    stream_loop-success :
        (step : StepDef F) (steps : List (StepDef F)) (input : GoMap F) (sent : List ExecutionEvent)
        (t : Trace)
        → let o = step_outcome w factory execution wf ctx step input t in
          o.status ≡ "success"
          → stream_loop w factory client execution wf ctx (step ∷ steps) input sent t
            ≡ stream_loop w factory client execution wf ctx steps o.output
                (sent ++ event_of (log_of w factory execution step input o) ∷ [])
                (after_step w factory execution wf ctx step input t)
    unfolding stream_loop ◌>>=◌
    stream_loop-success step steps input sent t e = rw e

    -- The streaming loop makes the calls of the plain loop.
    pub trace-stream_loop :
        (steps : List (StepDef F)) (input : GoMap F) (sent : List ExecutionEvent) (t : Trace)
        → (stream_loop w factory client execution wf ctx steps input sent t).1
          ≡ (run_loop w factory execution wf ctx steps input t).1
    trace-stream_loop [] input sent t = unfold stream_loop run_loop ◌>>=◌ in refl
    trace-stream_loop (s ∷ ss) input sent t =
        elim (do_step-outcome w factory execution wf ctx s input t) [
          | inl (out, ran, good, quiet, same) ↦
              rw
                (
                  run_loop-success w factory execution wf ctx s input t ss good,
                  stream_loop-success s ss input sent t good,
                )
                (trace-stream_loop ss _ _ _)
          | inr (e, ran, bad, msg) ↦ rw (
            run_loop-failed w factory execution wf ctx s input t ss bad,
            stream_loop-failed s ss input sent t bad,
          )
        ]

    -- The events are those of the logs that the loop creates, and then the one that ends the run.
    pub events-stream_loop :
        (steps : List (StepDef F)) (input : GoMap F) (sent : List ExecutionEvent) (t : Trace)
        → let r = run_loop w factory execution wf ctx steps input t in
          (ls : List StepLog) × (collect log_view r.1 ≡ collect log_view t ++ ls)
          × ((stream_loop w factory client execution wf ctx steps input sent t).0.1
              ≡ sent ++ map event_of ls ++ finished_event r.0.0 r.0.1 ∷ [])
    events-stream_loop [] input sent t = (
      [],
      unfold run_loop ◌>>=◌ in
          (finish_execution-logs w factory execution wf.id "success").at t ∙ sym (append-nil _),
      unfold run_loop stream_loop ◌>>=◌ in
          ap (λ l. l ++ finished_event "success" "" ∷ []) (sym (append-nil sent)),
    )
    events-stream_loop (s ∷ ss) input sent t =
        let log =
          log_of w factory execution s input (step_outcome w factory execution wf ctx s input t) in
        let logged = logs-do_step w factory execution wf ctx s input t in
        let out' = (step_outcome w factory execution wf ctx s input t).output in
        let t' = after_step w factory execution wf ctx s input t in
        let r = (run_loop w factory execution wf ctx ss out' t').0 in
        elim (do_step-outcome w factory execution wf ctx s input t) [
          | inl (out, ran, good, quiet, same) ↦
              let (ls, eq, mirror) = events-stream_loop ss out' (sent ++ event_of log ∷ []) t' in
              rw
                (
                  run_loop-success w factory execution wf ctx s input t ss good,
                  stream_loop-success s ss input sent t good,
                )
                (
                  log ∷ ls,
                  eq ∙ ap (λ l. l ++ ls) logged ∙ append_assoc (collect log_view t) (log ∷ []) ls,
                  mirror
                      ∙ ap (λ (l : List ExecutionEvent). l ++ finished_event r.0 r.1 ∷ [])
                          (append_assoc sent (event_of log ∷ []) (map event_of ls)),
                )
          | inr (e, ran, bad, msg) ↦
              rw
                (
                  run_loop-failed w factory execution wf ctx s input t ss bad,
                  stream_loop-failed s ss input sent t bad,
                )
                (
                  log ∷ [],
                  (finish_execution-logs w factory execution wf.id "failed").at _ ∙ logged,
                  refl,
                )
        ]

  -- Both calls, at the same request and from the same trace, make the same calls of the database, of
  -- Redis and of the steps, whatever the other end of the stream answers.
  pub trace-stream_execution :
      (req : RunExecutionReq) (t : Trace)
      → (stream_execution w factory client req t).1 ≡ (run_execution w factory req t).1
  unfolding stream_execution run_execution run_steps ◌>>=◌
  trace-stream_execution req t = elim (Result-cases (w.load_workflow t req.workflow_id)) [
    | inl (wf, found) ↦
        elim (Result-cases
          (w.load_execution (t ++ first_workflow req.workflow_id ∷ []) req.execution_id)) [
            | inl (execution, loaded) ↦
                rw (found, loaded)
                  (trace-stream_loop execution wf request (steps_of w factory wf) (some end) []
                    (running_trace w factory req t execution))
            | inr (e, missing) ↦ rw (found, missing)
          ]
    | inr (e, missing) ↦ rw missing
  ]

  -- Where both records load, the events handed to the stream are one for each step log that
  -- RunExecution creates, in order and with its step, status, duration and error, and then one
  -- "finished" event with the status and the error of RunExecution's response.
  pub events-stream_execution :
      (req : RunExecutionReq) (t : Trace) (wf : Workflow) (execution : Execution)
      → w.load_workflow t req.workflow_id ≡ ok wf
      → w.load_execution (t ++ first_workflow req.workflow_id ∷ []) req.execution_id ≡ ok execution
      → (ls : List StepLog) × (resp : RunExecutionResp) × ((run_execution w factory req t).0
          ≡ ok resp)
        × (collect log_view (run_execution w factory req t).1 ≡ collect log_view t ++ ls)
        × ((stream_execution w factory client req t).0.1
            ≡ map event_of ls ++ finished_event resp.status resp.error ∷ [])
  unfolding stream_execution ◌>>=◌
  events-stream_execution req t wf execution found loaded =
      let (ls, eq, mirror) =
        events-stream_loop execution wf request (steps_of w factory wf) (some end) []
          (running_trace w factory req t execution) in
      rw (run_execution-loop w factory req t wf execution found loaded, found, loaded)
        (ls, _, refl, eq ∙ simp (collect-append, append-nil), mirror)
