-- ===== src/System/Lifecycle/Born.antt =====
-- A request to trigger a workflow keeps what the announcement of a new execution keeps: the pending
-- execution that it inserts, if any, has its message published, or given up.
use workflow_automation_go_z.Common.{
  String, Bool, true, false, not, ◌&&◌, Option, [], ◌∷◌, ◌++◌, ◌≡◌, refl, ap, ◌∙◌, inl, inr, arith,
  Bool-cases, ◌⊎◌,
}
use workflow_automation_go_z.Queue.{ExecutionMessage}
use workflow_automation_go_z.Gateway.Outside as Gateway
use workflow_automation_go_z.Gateway.Outside.{row, Found-cases}
use workflow_automation_go_z.Gateway.Executions.{
  TriggerReq, new_execution, new_message, inserted, checked, trigger-unloaded, trigger-not_inserted,
  trigger-enqueued, trigger-not_enqueued,
}
use workflow_automation_go_z.System.State.{System, Broker, insert, publish, replay, has_id}
use workflow_automation_go_z.System.Lifecycle.{
  apply_gateway, after_gateway, serve_gateway, triggered,
}
use workflow_automation_go_z.Queue
use workflow_automation_go_z.System.Lifecycle.Inv.{Readable, Announcing}

module _ (decode : String → Option ExecutionMessage) (readable : Readable decode) (broker : Broker)
    (P : System → Type 0) (keeps : Announcing decode broker P) (s : System) (holds : P s) where
  module _ (fault : Gateway.Trace → Gateway.Call → Bool) (rest : Gateway.World)
      (req : TriggerReq) where
    abbrev w : Gateway.World
    w = serve_gateway broker fault rest s

    abbrev create : Gateway.Call
    create = Gateway.create_execution (new_execution req (w.clock (checked w req [])))

    abbrev creates : Bool
    creates = not (fault (checked w req [] ++ Gateway.now ∷ []) create) && has_id s

    module _ (wf : Gateway.Workflow) (there : rest.load_workflow [] req.workflow_id ≡ row wf) where
      not_created : creates ≡ false → triggered broker fault rest req s ≡ s
      unfolding triggered replay apply_gateway
      not_created e =
          ap (λ r. after_gateway broker fault s r.1)
            (trigger-not_inserted w req [] wf there "insert" (rw e refl))
          ∙ rw e refl

      abbrev enqueues : Gateway.Call
      enqueues = Gateway.enqueue (new_message req s.next_id)

      created :
          creates ≡ true
          → triggered broker fault rest req s
            ≡ publish broker
                (fault (inserted w req []) enqueues)
                (Queue.encode_message (new_message req s.next_id))
                (insert "pending" s)
      unfolding triggered replay apply_gateway
      created e = elim (Bool-cases (fault (inserted w req []) enqueues)) [
        | inl f ↦
            ap (λ r. after_gateway broker fault s r.1)
              (trigger-not_enqueued w req [] wf there s.next_id "publish" (rw e refl) (rw f refl))
            ∙ rw e refl
        | inr f ↦
            ap (λ r. after_gateway broker fault s r.1)
              (trigger-enqueued w req [] wf there s.next_id (rw e refl) (rw f refl))
            ∙ rw e refl
      ]

    unloaded :
        (rest.load_workflow [] req.workflow_id ≡ Gateway.record_not_found)
          ⊎ ((e : String) × (rest.load_workflow [] req.workflow_id ≡ Gateway.db_error e))
        → triggered broker fault rest req s ≡ s
    unfolding triggered replay apply_gateway
    unloaded e = ap (after_gateway broker fault s) (trigger-unloaded w req [] e)

    pub triggered-keeps : P (triggered broker fault rest req s)
    triggered-keeps = elim (Found-cases (rest.load_workflow [] req.workflow_id)) [
      | inl (wf, there) ↦ elim (Bool-cases creates) [
        | inl e ↦ rw (created wf there e) (
            keeps.announced s holds (ground arith) _ _
              (readable.of_gateway (new_message req s.next_id)))
        | inr e ↦ rw (not_created wf there e) holds
      ]
      | inr e ↦ rw (unloaded e) holds
    ]
