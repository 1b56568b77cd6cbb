-- ===== src/Engine/Outside.antt =====
-- The records of execution-engine/internal/model/models.go, and what the engine calls: the database
-- through gorm, Redis, HTTP, the clock, the template engine, the JSON decoder and the two model
-- services. None of these is code of the repository, so their answers are the parameter `World`.
-- Answers that can change with time are functions of the calls made so far.
-- Tracing spans are left out: no result of the engine depends on them.
use workflow_automation_go_z.Common.{ℕ, String, Bool, Option, List, ℤ, Action, Result}
use workflow_automation_go_z.Value.{Value, GoMap}

pub record Workflow : Type 0 where
  pub id : ℕ
  pub name : String
  pub user_id : ℕ
  pub trigger_type : String
  pub trigger_config : String
  pub steps : String
  pub is_active : Bool

pub record Execution : Type 0 where
  pub id : ℕ
  pub workflow_id : ℕ
  pub status : String
  pub started_at : ℕ
  pub finished_at : Option ℕ
  pub trigger_payload : String

pub record StepLog : Type 0 where
  pub execution_id : ℕ
  pub step_id : String
  pub step_type : String
  pub status : String
  pub input : String
  pub output : String
  pub error : String
  pub duration_ms : ℕ

-- `context.Context`: the one that a request brings, or one derived with a timeout in nanoseconds.
pub data Context : Type 0 where
  request : Context
  background : Context
  with_timeout : Context → ℕ → Context

-- The JSON object of a step: `StepDef` of runner.go.
pub record StepDef (F : Type 0) : Type 0 where
  pub id : String
  pub type : String
  pub config : GoMap F

pub record HttpRequest : Type 0 where
  pub method : String
  pub url : String
  pub body : String
  pub content_type : Option String

pub record HttpResponse : Type 0 where
  pub status_code : ℕ
  pub body : String

-- What is sent to a model service: the key, the model's name, the token limit and the prompt.
pub record ModelRequest : Type 0 where
  pub api_key : String
  pub model : String
  pub max_tokens : ℤ
  pub prompt : String

-- An event of the Anthropic stream, read as a content block delta.
pub record Delta : Type 0 where
  pub type : String
  pub text : String

-- A stream of a model service: its items up to its end, and the error it ended with.
pub record ModelStream (A : Type 0) : Type 0 where
  pub items : List A
  pub error : Option String

pub data Call : Type 0 where
  first_workflow : ℤ → Call
  first_execution : ℤ → Call
  -- `Update("status", s)` of an execution
  update_status : ℕ → String → Call
  -- `Updates` of the status and of `finished_at`
  update_finished : ℕ → String → ℕ → Call
  create_step_log : StepLog → Call
  -- `rdb.Publish(channel, payload)`
  publish : String → String → Call
  now : Call
  context_done : Context → Call
  wait : ℤ → Context → Call
  do_request : HttpRequest → Call
  print : String → Call
  anthropic_stream : ModelRequest → Call
  openai_stream : ModelRequest → Call

abbrev pub Trace : Type 0
Trace = List Call

abbrev pub M : Type 0 → Type 0
M A = Action Call A

-- The operations of float64 that the engine uses.
pub record Float64 (F : Type 0) : Type 0 where
  pub one : F
  pub second : F
  pub mul : F → F → F
  pub lt : F → F → Bool
  pub to_int64 : F → ℤ
  -- the number that `strconv.ParseFloat` returns, beside an error or not
  pub parse : String → F

pub record World (F : Type 0) : Type 0 where
  pub float : Float64 F
  pub load_workflow : Trace → ℤ → Result Workflow
  pub load_execution : Trace → ℤ → Result Execution
  -- nanoseconds of the clock
  pub clock : Trace → ℕ
  -- `ctx.Err()` where `ctx.Done()` is ready
  pub context_error : Trace → Context → Option String
  -- `none` where the timer fires first
  pub timer : Trace → ℤ → Context → Option String
  -- `http.NewRequestWithContext` and `http.DefaultClient.Do` with the body read
  pub request_error : HttpRequest → Option String
  pub respond : Trace → HttpRequest → Result HttpResponse
  -- `template.Parse` and `Execute`
  pub template_error : String → Option String
  pub execute_template : String → GoMap F → Result String
  -- `json.Unmarshal` into `[]StepDef` and into `any`, `json.Marshal` of a map
  pub decode_steps : String → Result (List (StepDef F))
  pub decode_any : String → Option (Value F)
  pub encode_map : GoMap F → String
  -- `fmt.Sprintf("%v", v)` and `%q`
  pub sprint : Value F → String
  pub sprint_quoted : String → String
  pub stream_anthropic : Trace → ModelRequest → ModelStream Delta
  -- the contents of `chunk.Choices`
  pub stream_openai : Trace → ModelRequest → ModelStream (List String)
