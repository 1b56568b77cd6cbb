-- ===== src/System/Watch.antt =====
-- A client that watches a whole run: what the engine publishes, and what the client gets of it.
use workflow_automation_go_z.Common.{
  ℕ, tell, String, true, List, [], ◌∷◌, ◌++◌, map, ◌≡◌, refl, ap, ◌∙◌, inl, inr, collect,
  collect-append, append-nil, append_assoc, ◌>>=◌, eq_iff,
}
use workflow_automation_go_z.Value.{GoMap, end}
use workflow_automation_go_z.Engine.Outside.{
  Workflow, Execution, Context, StepDef, Trace, World, publish,
}
use workflow_automation_go_z.Engine.Runner.{RunnerFactory}
use workflow_automation_go_z.Engine.Server.{
  do_step, run_loop, finish_execution, channel_of, publish_redis_event, write_step_log,
}
use workflow_automation_go_z.Engine.Server.Step.{
  do_step-outcome, after_step, step_outcome, run_loop-failed, run_loop-success,
}
use workflow_automation_go_z.Gateway.Stream.{Arrival, message, frame, forward, is_finished}
use workflow_automation_go_z.Gateway.Stream.Finished.{
  event_payload, unfinished, is_finished-step_done, is_finished-finished, forward-unfinished,
}
use workflow_automation_go_z.Gateway.Outside as Gateway
use workflow_automation_go_z.Gateway.Stream
use workflow_automation_go_z.System.Announces.{
  heard, Announces, Announces-publish, announce_rules, unfinished-append,
}
use workflow_automation_go_z.System.Runners.{attempt_step-Announces}

-- The event that ends a run of this execution.
abbrev pub last_payload : ℕ → String → String
last_payload id status = event_payload "finished" id "" status 0

module _ {F : Type 0} (w : World F) (factory : RunnerFactory) where
  module _ (execution : Execution) (wf : Workflow) (ctx : Context) where
    step_done-Announces :
        (c channel step status : String) (ms : ℕ)
        → Announces c
            (tell (publish channel (event_payload "step_done" execution.id step status ms)))
    step_done-Announces c channel step status ms =
        Announces-publish c channel (event_payload "step_done" execution.id step status ms)
          (is_finished-step_done execution.id step status ms)

    do_step-Announces :
        (c : String) (step : StepDef F) (input : GoMap F)
        → Announces c (do_step w factory execution wf ctx step input)
    unfolding do_step write_step_log publish_redis_event
    do_step-Announces c step input =
        search (announce_rules, attempt_step-Announces w c factory step, step_done-Announces) depth
          12

    heard-finish :
        (status : String) (t : Trace)
        → collect (heard (channel_of wf.id)) (finish_execution w execution wf.id status t).1
          ≡ collect (heard (channel_of wf.id)) t ++ last_payload execution.id status ∷ []
    unfolding finish_execution publish_redis_event ◌>>=◌
    heard-finish status t = simp (
      collect-append,
      append-nil,
      append_assoc,
      (eq_iff (channel_of wf.id) (channel_of wf.id)).1 refl,
    )

    heard-run_loop :
        (steps : List (StepDef F)) (input : GoMap F) (t : Trace)
        → (ps : List String) × (unfinished ps ≡ true)
          × (collect
                (heard (channel_of wf.id))
                (run_loop w factory execution wf ctx steps input t).1
              ≡ collect (heard (channel_of wf.id)) t
                ++ (ps
                    ++ last_payload execution.id
                        (run_loop w factory execution wf ctx steps input t).0.0
                      ∷ []))
    heard-run_loop [] input t = ([], refl, unfold run_loop ◌>>=◌ in heard-finish "success" t)
    heard-run_loop (s ∷ ss) input t =
        let c = channel_of wf.id in
        let t' = after_step w factory execution wf ctx s input t in
        let (ps, eq, fine) = (do_step-Announces c s input).at t in
        elim (do_step-outcome w factory execution wf ctx s input t) [
          | inl (out, ran, good, quiet, same) ↦
              let (qs, fine', eq') =
                heard-run_loop ss (step_outcome w factory execution wf ctx s input t).output t' in
              let end =
                last_payload execution.id
                  (run_loop w factory execution wf ctx ss
                    (step_outcome w factory execution wf ctx s input t).output t').0.0 in
              rw (run_loop-success w factory execution wf ctx s input t ss good) (
                ps ++ qs,
                unfinished-append ps qs fine fine',
                eq' ∙ ap (λ l. l ++ (qs ++ end ∷ [])) eq ∙ simp append_assoc,
              )
          | inr (e, ran, bad, msg) ↦
              rw (run_loop-failed w factory execution wf ctx s input t ss bad) (
                ps,
                fine,
                heard-finish "failed" t'
                    ∙ ap (λ l. l ++ last_payload execution.id "failed" ∷ []) eq
                    ∙ append_assoc (collect (heard c) t) ps
                        (last_payload execution.id "failed" ∷ []),
              )
        ]

    -- While a run is watched, the engine publishes on the workflow's channel some events that end no
    -- stream and then one, with the status of the run, that does. A client that is given these and
    -- then whatever comes later gets each of them in order, and nothing more.
    pub watch-run_loop :
        (steps : List (StepDef F)) (input : GoMap F) (t : Trace) (rest : List Arrival)
        → let r = run_loop w factory execution wf ctx steps input t in
          (ps : List String) × (collect (heard (channel_of wf.id)) r.1
            ≡ collect (heard (channel_of wf.id)) t ++ (ps ++ last_payload execution.id r.0.0 ∷ []))
          × (forward (map message ps ++ message (last_payload execution.id r.0.0) ∷ rest)
              ≡ map frame (ps ++ last_payload execution.id r.0.0 ∷ []))
    watch-run_loop steps input t rest =
        let (ps, fine, eq) = heard-run_loop steps input t in
        let last =
          last_payload execution.id (run_loop w factory execution wf ctx steps input t).0.0 in
        (ps, eq, forward-unfinished ps last rest fine (is_finished-finished execution.id "" _ 0))
