-- ===== src/System/Lifecycle/Scheduled.antt =====
-- A check of the scheduler keeps what the announcement of a new execution keeps: each pending execution
-- that it inserts has its message published to the run queue, or given up.
use mathlib.Core.Path.{subst}
use workflow_automation_go_z.Common.{
  ℕ, ◌^◌, String, Bool, true, false, not, ◌&&◌, ◌||◌, Option, none, List, [], ◌∷◌, ◌++◌, ◌<◌, ◌≡◌,
  refl, sym, ap, ◌∙◌, inl, inr, arith, Bool-cases, Option-cases, ◌>>=◌,
}
use workflow_automation_go_z.Queue.{ExecutionMessage}
use workflow_automation_go_z.Amqp as Amqp
use workflow_automation_go_z.Scheduler
use workflow_automation_go_z.Scheduler.{
  Workflow, Call, World, now, amqp, create_execution, find_workflows, new_execution, announce,
  trigger, trigger_due, fires, truncate, check_and_trigger,
}
use workflow_automation_go_z.Scheduler.Triggers.{
  inserted, new_id, check-failed, check-loop, trigger_due-skip, trigger_due-fire,
}
use workflow_automation_go_z.System.State.{
  System, Broker, insert, publish, replay, after-snoc, has_id,
}
use workflow_automation_go_z.System.Lifecycle.{
  apply_amqp, apply_scheduler, after_scheduler, serve_scheduler, checked,
}
use workflow_automation_go_z.System.Lifecycle.Inv.{Readable, Announcing}

module _ (decode : String → Option ExecutionMessage) (readable : Readable decode) (broker : Broker)
    (P : System → Type 0) (keeps : Announcing decode broker P) (s : System)
    (fault : List Call → Call → Bool) (rest : World) where
  abbrev w : World
  w = serve_scheduler broker fault rest s

  abbrev after : List Call → System
  after t = after_scheduler broker fault s t

  module _ (wf : Workflow) (t : List Call) where
    abbrev create : Call
    create = create_execution (new_execution wf (w.clock t))

    abbrev creates : Bool
    creates = not (fault (t ++ now ∷ []) create) && has_id (after (t ++ now ∷ []))

    after-now : after (t ++ now ∷ []) ≡ after t
    after-now = after-snoc (apply_scheduler broker fault) t now s ∙ unfold apply_scheduler in refl

    trigger-answer : trigger w wf t ≡ announce w wf (new_id w wf t) (inserted w wf t)
    unfolding trigger ◌>>=◌
    trigger-answer = refl

    not_created : creates ≡ false → after (trigger w wf t).1 ≡ after t
    unfolding announce apply_scheduler ◌>>=◌
    not_created e =
        ap (λ r. after r.1) (trigger-answer ∙ rw e refl)
        ∙ after-snoc (apply_scheduler broker fault) (t ++ now ∷ []) create s
        ∙ rw e after-now

    abbrev published_call : ℕ → Call
    published_call id = amqp (
        Amqp.publish Scheduler.exchange Scheduler.routing_key_run (record {
          content_type = "application/json";
          persistent = true;
          body = Scheduler.encode_message (record {
            execution_id = id;
            workflow_id = wf.id;
            trigger_payload = Scheduler.schedule_payload;
          });
          headers = none;
        }))

    created :
        creates ≡ true
        → (failed : Bool) × (after (trigger w wf t).1
            ≡ publish broker failed
                (Scheduler.encode_message (record {
                  execution_id = (after t).next_id;
                  workflow_id = wf.id;
                  trigger_payload = Scheduler.schedule_payload;
                }))
                (insert "pending" (after t)))
    unfolding announce apply_scheduler apply_amqp ◌>>=◌
    created e =
        let later =
          after-snoc (apply_scheduler broker fault) (inserted w wf t)
            (published_call (after t).next_id) s in
        let before : after (inserted w wf t) ≡ insert "pending" (after t) =
          after-snoc (apply_scheduler broker fault) (t ++ now ∷ []) create s
          ∙ rw e (ap (insert "pending") after-now) in
        let asked : trigger w wf t
            ≡ (tt, inserted w wf t ++ published_call (after t).next_id ∷ []) =
          trigger-answer ∙ rw e (rw after-now refl) in
        (
          fault (inserted w wf t) (published_call (after t).next_id) || false,
          ap (λ r. after r.1) asked ∙ later ∙ rw before refl,
        )

    trigger-keeps : P (after t) → P (after (trigger w wf t).1)
    trigger-keeps holds = elim (Bool-cases creates) [
      | inl e ↦
          let (failed, eq) = created e in
          let room : (after (t ++ now ∷ [])).next_id < 2 ^ 63 = ground arith in
          rw eq (
            keeps.announced (after t) holds (rw (sym after-now) room) failed _
              (readable.of_scheduler _))
      | inr e ↦ rw (not_created e) holds
    ]

  trigger_due-keeps :
      (at : ℕ) (wfs : List Workflow) (t : List Call)
      → P (after t)
      → P (after (trigger_due w at wfs t).1)
  trigger_due-keeps at [] t holds = unfold trigger_due ◌>>=◌ in holds
  trigger_due-keeps at (wf ∷ wfs) t holds = elim (Bool-cases (fires w at wf)) [
    | inl e ↦
        rw (trigger_due-fire w at wf wfs t e)
          (trigger_due-keeps at wfs (trigger w wf t).1 (trigger-keeps wf t holds))
    | inr e ↦ rw (trigger_due-skip w at wf wfs t e) (trigger_due-keeps at wfs t holds)
  ]

  after-find : after (find_workflows "schedule" true ∷ []) ≡ s
  unfolding replay apply_scheduler
  after-find = refl

  pub checked-keeps : P s → P (checked broker fault rest s)
  unfolding checked
  checked-keeps holds = elim (Option-cases (rest.scheduled [])) [
    | inl e ↦ subst P (sym (ap after (check-failed w [] e) ∙ after-find)) holds
    | inr (wfs, e) ↦
        let t = find_workflows "schedule" true ∷ now ∷ [] in
        let before : after t ≡ s = unfold replay apply_scheduler in refl in
        subst P (sym (ap (λ r. after r.1) (check-loop w [] wfs e)))
          (trigger_due-keeps _ wfs t (subst P (sym before) holds))
  ]
