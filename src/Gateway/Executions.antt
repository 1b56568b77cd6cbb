-- ===== src/Gateway/Executions.antt =====
-- api-gateway/internal/logic/executionlogic.go: a workflow is triggered by inserting a pending
-- execution and enqueueing a message for the workers; executions are listed and read.
use workflow_automation_go_z.Common.{
  ℕ, suc, String, none, some, List, [], ◌∷◌, ◌++◌, map, ℤ, str_eq, if◌then◌else◌, ◌<>◌, to_int64,
  to_uint, Result, ok, err, pure, ask, ◌>>=◌, ◌≡◌, refl, ◌⊎◌, inl, inr,
}
use workflow_automation_go_z.Queue.{ExecutionMessage}
use workflow_automation_go_z.Gateway.Outside.{
  Workflow, StepLog, Execution, StepLogItem, ExecutionItem, row, record_not_found, db_error, Trace,
  M, World, first_workflow, create_execution, enqueue, now, preload_execution, find_executions,
}

pub record TriggerReq : Type 0 where
  pub workflow_id : ℤ
  pub payload : String

pub record TriggerResp : Type 0 where
  pub message : String
  pub execution_id : ℤ

pub record ListExecutionsResp : Type 0 where
  pub items : List ExecutionItem
  pub total : ℕ

abbrev count_items : List ExecutionItem → ℕ
count_items [] = 0
count_items (_ ∷ items) = suc (count_items items)

-- An absent payload is the empty object.
abbrev pub payload_of : TriggerReq → String
payload_of req = if str_eq req.payload "" then "{}" else req.payload

abbrev pub new_execution : TriggerReq → ℕ → Execution
new_execution req at = record {
  id = 0;
  workflow_id = to_uint req.workflow_id;
  status = "pending";
  started_at = at;
  finished_at = none;
  trigger_payload = payload_of req;
  step_logs = [];
}

abbrev pub new_message : TriggerReq → ℕ → ExecutionMessage
new_message req id = record {
  execution_id = id;
  workflow_id = to_uint req.workflow_id;
  trigger_payload = payload_of req;
}

unfoldable pub to_step_log_item : StepLog → StepLogItem
to_step_log_item s = record {
  id = to_int64 s.id;
  step_id = s.step_id;
  step_type = s.step_type;
  status = s.status;
  input = s.input;
  output = s.output;
  error = s.error;
  duration_ms = s.duration_ms;
}

module _ (w : World) where
  -- `TriggerWorkflow` from the insert on.
  unfoldable pub insert_and_enqueue : TriggerReq → M (Result TriggerResp)
  insert_and_enqueue req = do
    at ← ask now w.clock
    created ←
        ask (create_execution (new_execution req at))
          (λ t. w.insert_execution t (new_execution req at))
    elim created [
      | err e ↦ pure (err e)
      | ok id ↦ do
        failed ← ask (enqueue (new_message req id)) (λ t. w.enqueue_error t (new_message req id))
        pure (elim failed [
          | some e ↦ err ("enqueue execution: " <> e)
          | none ↦ ok (record { message = "execution queued"; execution_id = to_int64 id })
        ])
    ]

  unfoldable pub trigger_workflow : TriggerReq → M (Result TriggerResp)
  unfolding insert_and_enqueue
  trigger_workflow req = do
    found ← ask (first_workflow req.workflow_id) (λ t. w.load_workflow t req.workflow_id)
    elim found [
      | record_not_found ↦ pure (err "workflow not found")
      | db_error e ↦ pure (err e)
      | row wf ↦ insert_and_enqueue req
    ]

  unfoldable pub list_item : Execution → ExecutionItem
  list_item ex = record {
    id = to_int64 ex.id;
    status = ex.status;
    started_at = w.format_time ex.started_at;
    step_logs = [];
  }

  unfoldable pub list_executions : ℤ → M (Result ListExecutionsResp)
  unfolding list_item
  list_executions workflow_id = do
    found ← ask (find_executions workflow_id) (λ t. w.list_executions t workflow_id)
    pure (elim found [
      | err e ↦ err e
      | ok exs ↦ ok (record { items = map list_item exs; total = count_items (map list_item exs) })
    ])

  unfoldable pub get_execution : ℤ → M (Result ExecutionItem)
  unfolding to_step_log_item
  get_execution id = do
    found ← ask (preload_execution id) (λ t. w.load_execution t id)
    pure (elim found [
      | record_not_found ↦ err "execution not found"
      | db_error e ↦ err e
      | row ex ↦ ok (record {
        id = to_int64 ex.id;
        status = ex.status;
        started_at = w.format_time ex.started_at;
        step_logs = map to_step_log_item ex.step_logs;
      })
    ])

  module _ (req : TriggerReq) (t : Trace) where
    -- The trace once the workflow is loaded, and once the execution is inserted.
    abbrev pub checked : Trace
    checked = t ++ first_workflow req.workflow_id ∷ []

    abbrev pub inserted : Trace
    inserted = (checked ++ now ∷ []) ++ create_execution (new_execution req (w.clock checked)) ∷ []

    pub trigger-unloaded :
        (w.load_workflow t req.workflow_id ≡ record_not_found)
          ⊎ ((e : String) × (w.load_workflow t req.workflow_id ≡ db_error e))
        → (trigger_workflow req t).1 ≡ checked
    unfolding trigger_workflow ◌>>=◌
    trigger-unloaded (inl e) = rw e refl
    trigger-unloaded (inr (m, e)) = rw e refl

    module _ (wf : Workflow) (found : w.load_workflow t req.workflow_id ≡ row wf) where
      pub trigger-not_inserted :
          (e : String)
          → w.insert_execution (checked ++ now ∷ []) (new_execution req (w.clock checked)) ≡ err e
          → trigger_workflow req t ≡ (err e, inserted)
      unfolding trigger_workflow ◌>>=◌
      trigger-not_inserted e bad = rw (found, bad)

      pub trigger-enqueued :
          (id : ℕ)
          → w.insert_execution (checked ++ now ∷ []) (new_execution req (w.clock checked)) ≡ ok id
          → w.enqueue_error inserted (new_message req id) ≡ none
          → trigger_workflow req t ≡ (
            ok (record { message = "execution queued"; execution_id = to_int64 id }),
            inserted ++ enqueue (new_message req id) ∷ [],
          )
      unfolding trigger_workflow ◌>>=◌
      trigger-enqueued id good fine = rw (found, good, fine)

      pub trigger-not_enqueued :
          (id : ℕ) (e : String)
          → w.insert_execution (checked ++ now ∷ []) (new_execution req (w.clock checked)) ≡ ok id
          → w.enqueue_error inserted (new_message req id) ≡ some e
          → trigger_workflow req t
            ≡ (err ("enqueue execution: " <> e), inserted ++ enqueue (new_message req id) ∷ [])
      unfolding trigger_workflow ◌>>=◌
      trigger-not_enqueued id e good bad = rw (found, good, bad)
