-- ===== src/Gateway/Workflows.antt =====
-- api-gateway/internal/logic/workflowlogic.go: create, list, get, update and delete a workflow, with
-- the ownership checks and the cache of single workflows in Redis.
pub mod Access
pub mod Writes
use workflow_automation_go_z.Common.{
  ℕ, ◌*◌, String, Bool, true, Option, none, some, List, [], ◌∷◌, ◌++◌, map, ℤ, str_eq, not,
  if◌then◌else◌, ◌<>◌, decimal_int, to_int64, Result, ok, err, pure, ask, tell, ◌>>=◌, ◌>>◌,
}
use workflow_automation_go_z.Gateway.Auth.{AuthContext, has_role, user_id_from_ctx}
use workflow_automation_go_z.Gateway.Outside.{
  Workflow, WorkflowItem, Found, row, record_not_found, db_error, Update, Filter, all_rows,
  owned_by, Call, M, World, redis_get, redis_set_ex, redis_del, first_workflow, select_user_id,
  find_workflows, create_workflow, update_workflow, delete_workflow,
}
use workflow_automation_go_z.Gateway.Outside

pub record CreateWorkflowReq : Type 0 where
  pub name : String
  pub trigger_type : String
  pub trigger_config : String
  pub steps : String

pub record UpdateWorkflowReq : Type 0 where
  pub id : ℤ
  pub name : String
  pub trigger_type : String
  pub trigger_config : String
  pub steps : String
  pub is_active : Bool

pub record ListWorkflowsResp : Type 0 where
  pub items : List WorkflowItem
  pub total : ℕ

unfoldable pub to_workflow_item : Workflow → WorkflowItem
to_workflow_item wf = record {
  id = to_int64 wf.id;
  name = wf.name;
  trigger_type = wf.trigger_type;
  trigger_config = wf.trigger_config;
  steps = wf.steps;
  is_active = wf.is_active;
}

-- `none` where the caller may go on.
unfoldable pub owner_check : AuthContext → String → Option String
owner_check ctx owner_id =
    if str_eq owner_id ""
    then none
    else if not (str_eq (user_id_from_ctx ctx) owner_id)
    then some "forbidden"
    else none

unfoldable pub check_ownership_model : AuthContext → Workflow → Option String
unfolding owner_check
check_ownership_model ctx wf = if has_role ctx "admin" then none else owner_check ctx wf.user_id

-- `fmt.Sprintf("workflow:%d", id)`
abbrev pub cache_key : ℤ → String
cache_key id = "workflow:" <> decimal_int id

-- `5 * time.Minute`
abbrev pub cache_ttl : ℕ
cache_ttl = 5 * 60 * 1000000000

-- The row that Create inserts, before it has an id.
abbrev pub new_workflow : AuthContext → CreateWorkflowReq → Workflow
new_workflow ctx req = record {
  id = 0;
  user_id = user_id_from_ctx ctx;
  name = req.name;
  trigger_type = req.trigger_type;
  trigger_config = req.trigger_config;
  steps = req.steps;
  is_active = true;
}

-- A column that the request leaves empty is not in the map.
abbrev pub if_given : String → (String → Update) → List Update
if_given s u = if str_eq s "" then [] else u s ∷ []

unfoldable pub updates_of : UpdateWorkflowReq → List Update
updates_of req =
    Outside.is_active req.is_active
    ∷ (if_given req.name Outside.name
        ++ (if_given req.trigger_type Outside.trigger_type
            ++ (if_given req.trigger_config Outside.trigger_config
                ++ if_given req.steps Outside.steps)))

abbrev pub count_items : List WorkflowItem → ℕ
count_items [] = 0
count_items (_ ∷ items) = ℕ.suc (count_items items)

abbrev pub store_item : ℤ → Option String → M (Unit {0})
store_item id none = pure tt
store_item id (some text) = tell (redis_set_ex (cache_key id) text cache_ttl)

module _ (w : World) where
  -- The item under a key, if the read succeeds and the text decodes.
  abbrev pub cached_item : Option String → Option WorkflowItem
  cached_item none = none
  cached_item (some text) = w.decode_item text

module _ (w : World) (ctx : AuthContext) where
  unfoldable pub check_ownership : ℤ → M (Option String)
  unfolding owner_check
  check_ownership id = if has_role ctx "admin" then pure none else do
    owner ← ask (select_user_id id) (λ t. w.load_user_id t id)
    pure (elim owner [
      | row user_id ↦ owner_check ctx user_id
      | record_not_found ↦ some "workflow not found"
      | db_error _ ↦ some "workflow not found"
    ])

  unfoldable pub create : CreateWorkflowReq → M (Result ℤ)
  create req = do
    let wf = new_workflow ctx req
    created ← ask (create_workflow wf) (λ t. w.insert_workflow t wf)
    pure (elim created [ err e ↦ err e | ok id ↦ ok (to_int64 id) ])

  unfoldable pub list_filter : Filter
  list_filter = if has_role ctx "admin" then all_rows else owned_by (user_id_from_ctx ctx)

  unfoldable pub list : M (Result ListWorkflowsResp)
  unfolding list_filter to_workflow_item
  list = do
    found ← ask (find_workflows list_filter) (λ t. w.list_workflows t list_filter)
    pure (elim found [
      | err e ↦ err e
      | ok wfs ↦ ok (record {
        items = map to_workflow_item wfs;
        total = count_items (map to_workflow_item wfs);
      })
    ])

  -- The workflow of an id, or the error that Get, Update and Delete answer with.
  unfoldable pub load : ℤ → M (Result Workflow)
  load id = do
    found ← ask (first_workflow id) (λ t. w.load_workflow t id)
    pure (elim found [
      | row wf ↦ ok wf
      | record_not_found ↦ err "workflow not found"
      | db_error e ↦ err e
    ])

  -- The same with the check of the owner behind it.
  unfoldable pub load_owned : ℤ → M (Result Workflow)
  unfolding load check_ownership_model
  load_owned id = do
    found ← load id
    pure (elim found [
      | err e ↦ err e
      | ok wf ↦ elim (check_ownership_model ctx wf) [ some e ↦ err e | none ↦ ok wf ]
    ])

  abbrev pub answer_loaded : ℤ → Result Workflow → M (Result WorkflowItem)
  answer_loaded id (err e) = pure (err e)
  answer_loaded id (ok wf) = do
    store_item id (w.encode_item (to_workflow_item wf))
    pure (ok (to_workflow_item wf))

  -- `GetWorkflow` behind a cache miss.
  unfoldable pub get_from_db : ℤ → M (Result WorkflowItem)
  unfolding load_owned to_workflow_item
  get_from_db id = do found ← load_owned id; answer_loaded id found

  unfoldable pub answer_cached : WorkflowItem → M (Result WorkflowItem)
  unfolding check_ownership
  answer_cached item = do
    denied ← check_ownership item.id
    pure (elim denied [ some e ↦ err e | none ↦ ok item ])

  unfoldable pub get : ℤ → M (Result WorkflowItem)
  unfolding get_from_db answer_cached
  get id = do
    text ← ask (redis_get (cache_key id)) (λ t. w.cached t (cache_key id))
    elim (cached_item w text) [ none ↦ get_from_db id | some item ↦ answer_cached item ]

  -- The write and the end of Update, with the row's own id.
  unfoldable pub write_update : UpdateWorkflowReq → Result Workflow → M (Result Bool)
  unfolding updates_of
  write_update req (err e) = pure (err e)
  write_update req (ok wf) = do
    failed ←
        ask (update_workflow wf.id (updates_of req)) (λ t. w.update_error t wf.id (updates_of req))
    elim failed [
      | some e ↦ pure (err e)
      | none ↦ do tell (redis_del (cache_key req.id)); pure (ok true)
    ]

  unfoldable pub update : UpdateWorkflowReq → M (Result Bool)
  unfolding load_owned write_update
  update req = do found ← load_owned req.id; write_update req found

  unfoldable pub write_delete : ℤ → Result Workflow → M (Result Bool)
  write_delete id (err e) = pure (err e)
  write_delete id (ok wf) = do
    failed ← ask (delete_workflow wf.id) (λ t. w.delete_error t wf.id)
    elim failed [
      | some e ↦ pure (err e)
      | none ↦ do tell (redis_del (cache_key id)); pure (ok true)
    ]

  unfoldable pub delete : ℤ → M (Result Bool)
  unfolding load_owned write_delete
  delete id = do found ← load_owned id; write_delete id found
