-- ===== src/Gateway/Outside.antt =====
-- The records of api-gateway/model/models.go and api-gateway/internal/types/types.go, and what the
-- gateway's logic calls: the database through gorm, Redis and the message queue. Their answers are
-- the parameter `World`, as functions of the calls made so far where they can change with time.
-- The columns that gorm keeps by itself (created_at, updated_at, deleted_at) are not modelled.
use workflow_automation_go_z.Common.{
  ℕ, String, Bool, Option, List, ℤ, Action, Result, ◌≡◌, refl, ◌⊎◌, inl, inr,
}
use workflow_automation_go_z.Queue.{ExecutionMessage}

pub record Workflow : Type 0 where
  pub id : ℕ
  pub user_id : String
  pub name : String
  pub trigger_type : String
  pub trigger_config : String
  pub steps : String
  pub is_active : Bool

pub record StepLog : Type 0 where
  pub id : ℕ
  pub execution_id : ℕ
  pub step_id : String
  pub step_type : String
  pub status : String
  pub input : String
  pub output : String
  pub error : String
  pub duration_ms : ℕ

pub record Execution : Type 0 where
  pub id : ℕ
  pub workflow_id : ℕ
  pub status : String
  pub started_at : ℕ
  pub finished_at : Option ℕ
  pub trigger_payload : String
  pub step_logs : List StepLog

pub record WorkflowItem : Type 0 where
  pub id : ℤ
  pub name : String
  pub trigger_type : String
  pub trigger_config : String
  pub steps : String
  pub is_active : Bool

pub record StepLogItem : Type 0 where
  pub id : ℤ
  pub step_id : String
  pub step_type : String
  pub status : String
  pub input : String
  pub output : String
  pub error : String
  pub duration_ms : ℕ

pub record ExecutionItem : Type 0 where
  pub id : ℤ
  pub status : String
  pub started_at : String
  pub step_logs : List StepLogItem

pub record LoginResp : Type 0 where
  pub access_token : String
  pub refresh_token : String
  pub expires_in : ℤ
  pub token_type : String

-- What Keycloak answers with.
pub record HttpResponse : Type 0 where
  pub status_code : ℕ
  pub body : String

-- What `First` comes to.
pub data Found (A : Type 0) : Type 0 where
  row : A → Found A
  record_not_found : Found A
  db_error : String → Found A

pub Found-cases :
    {A : Type 0} (r : Found A)
    → ((a : A) × (r ≡ row a)) ⊎ ((r ≡ record_not_found) ⊎ ((e : String) × (r ≡ db_error e)))
Found-cases (row a) = inl (a, refl)
Found-cases record_not_found = inr (inl refl)
Found-cases (db_error e) = inr (inr (e, refl))

-- An entry of the map given to `Updates`, by its column.
pub data Update : Type 0 where
  is_active : Bool → Update
  name : String → Update
  trigger_type : String → Update
  trigger_config : String → Update
  steps : String → Update

-- Which rows a list asks for: all, or those of a user and those without one.
pub data Filter : Type 0 where
  all_rows : Filter
  owned_by : String → Filter

pub data Call : Type 0 where
  redis_get : String → Call
  -- key, value and nanoseconds to live
  redis_set_ex : String → String → ℕ → Call
  redis_del : String → Call
  first_workflow : ℤ → Call
  -- `Select("user_id").First`
  select_user_id : ℤ → Call
  find_workflows : Filter → Call
  create_workflow : Workflow → Call
  update_workflow : ℕ → List Update → Call
  delete_workflow : ℕ → Call
  first_execution : ℤ → Call
  -- `Preload("StepLogs").First`
  preload_execution : ℤ → Call
  find_executions : ℤ → Call
  create_execution : Execution → Call
  enqueue : ExecutionMessage → Call
  -- a subscription to a Redis channel, and its end
  subscribe : String → Call
  unsubscribe : Call
  now : Call
  -- `http.PostForm` to a URL, with the fields of the form
  post_form : String → List (String × String) → Call

abbrev pub Trace : Type 0
Trace = List Call

abbrev pub M : Type 0 → Type 0
M A = Action Call A

pub record World : Type 0 where
  -- the text under a key, if the read succeeds
  pub cached : Trace → String → Option String
  -- `json.Unmarshal` into an item and `json.Marshal` of one
  pub decode_item : String → Option WorkflowItem
  pub encode_item : WorkflowItem → Option String
  pub load_workflow : Trace → ℤ → Found Workflow
  pub load_user_id : Trace → ℤ → Found String
  pub list_workflows : Trace → Filter → Result (List Workflow)
  -- the id of the new row
  pub insert_workflow : Trace → Workflow → Result ℕ
  -- the error of a write
  pub update_error : Trace → ℕ → List Update → Option String
  pub delete_error : Trace → ℕ → Option String
  pub load_execution : Trace → ℤ → Found Execution
  pub list_executions : Trace → ℤ → Result (List Execution)
  pub insert_execution : Trace → Execution → Result ℕ
  pub enqueue_error : Trace → ExecutionMessage → Option String
  pub clock : Trace → ℕ
  -- `Format("2006-01-02T15:04:05Z07:00")`
  pub format_time : ℕ → String
  pub keycloak_url : String
  pub respond : Trace → Call → Result HttpResponse
  -- `json.Decode` into a `LoginResp`
  pub decode_login : String → Result LoginResp
