-- ===== src/Gateway/Handlers.antt =====
-- api-gateway/internal/handler: the handler of each route, and routes.go, which registers them with
-- and without the check of a token. The routing by method and path, the parsing of requests and the
-- writing of responses are the server's (go-zero) and parameters.
pub mod Guarded
pub mod Parsing
use workflow_automation_go_z.Common.{
  String, Bool, true, false, List, [], ◌∷◌, ◌++◌, map, ℤ, Result, ok, err, pure, ◌>>=◌,
}
use workflow_automation_go_z.Gateway.Auth.{AuthContext}
use workflow_automation_go_z.Gateway.Middleware.{JwtMiddleware, Verdict, unauthorized, next, handle}
use workflow_automation_go_z.Gateway.Outside.{WorkflowItem, ExecutionItem, LoginResp, M, World}
use workflow_automation_go_z.Gateway.Workflows.{
  CreateWorkflowReq, UpdateWorkflowReq, ListWorkflowsResp, create, list, get, update, delete,
}
use workflow_automation_go_z.Gateway.Executions.{
  TriggerReq, TriggerResp, ListExecutionsResp, trigger_workflow, list_executions, get_execution,
}
use workflow_automation_go_z.Gateway.Stream.{Arrival, Answer, stream_handler}
use workflow_automation_go_z.Gateway.Login.{LoginReq, HealthResp, health, login}

-- The requests that hold the id of a path, and the responses of a single field. The logic takes and
-- gives the field.
pub record GetWorkflowReq : Type 0 where
  pub id : ℤ

pub record DeleteWorkflowReq : Type 0 where
  pub id : ℤ

pub record ListExecutionsReq : Type 0 where
  pub workflow_id : ℤ

pub record GetExecutionReq : Type 0 where
  pub id : ℤ

pub record StreamExecutionReq : Type 0 where
  pub id : ℤ

pub record CreateWorkflowResp : Type 0 where
  pub id : ℤ

pub record UpdateWorkflowResp : Type 0 where
  pub done : Bool

pub record DeleteWorkflowResp : Type 0 where
  pub done : Bool

pub data Endpoint : Type 0 where
  health_endpoint : Endpoint
  login_endpoint : Endpoint
  trigger_workflow_endpoint : Endpoint
  execution_stream_endpoint : Endpoint
  list_workflows_endpoint : Endpoint
  create_workflow_endpoint : Endpoint
  get_workflow_endpoint : Endpoint
  update_workflow_endpoint : Endpoint
  delete_workflow_endpoint : Endpoint
  list_executions_endpoint : Endpoint
  get_execution_endpoint : Endpoint

-- What a handler answers with where it succeeds.
abbrev pub Body : Endpoint → Type 0
Body health_endpoint = HealthResp
Body login_endpoint = LoginResp
Body trigger_workflow_endpoint = TriggerResp
Body execution_stream_endpoint = Answer
Body list_workflows_endpoint = ListWorkflowsResp
Body create_workflow_endpoint = CreateWorkflowResp
Body get_workflow_endpoint = WorkflowItem
Body update_workflow_endpoint = UpdateWorkflowResp
Body delete_workflow_endpoint = DeleteWorkflowResp
Body list_executions_endpoint = ListExecutionsResp
Body get_execution_endpoint = ExecutionItem

-- Requests of type `R`: the header `Authorization`, `httpx.Parse` into each type of request, and,
-- for the stream, whether the response can be flushed and what arrives while it is open.
pub record Http (R : Type 0) : Type 0 where
  pub authorization : R → String
  pub parse_login : R → Result LoginReq
  pub parse_trigger : R → Result TriggerReq
  pub parse_stream : R → Result StreamExecutionReq
  pub parse_create : R → Result CreateWorkflowReq
  pub parse_get : R → Result GetWorkflowReq
  pub parse_update : R → Result UpdateWorkflowReq
  pub parse_delete : R → Result DeleteWorkflowReq
  pub parse_list_executions : R → Result ListExecutionsReq
  pub parse_get_execution : R → Result GetExecutionReq
  pub flushes : R → Bool
  pub arrivals : R → List Arrival

-- Status 401 and a message, `httpx.ErrorCtx`, or the response.
pub data Reply (A : Type 0) : Type 0 where
  not_authorized : String → Reply A
  failed : String → Reply A
  answered : A → Reply A

module _ {A : Type 0} where
  abbrev pub reply : Result A → Reply A
  reply (err e) = failed e
  reply (ok resp) = answered resp

  unfoldable pub after_logic : M (Result A) → M (Reply A)
  after_logic logic = do r ← logic; pure (reply r)

  -- The response around a single field.
  unfoldable pub respond_with : {B : Type 0} → (B → A) → M (Result B) → M (Result A)
  respond_with f logic = do r ← logic; pure (elim r [ err e ↦ err e | ok b ↦ ok (f b) ])

  unfoldable pub parsed : {Q : Type 0} → Result Q → (Q → M (Reply A)) → M (Reply A)
  parsed (err e) go = pure (failed e)
  parsed (ok req) go = go req

module _ {R : Type 0} (http : Http R) (w : World) where
  unfoldable pub health_handler : R → M (Reply HealthResp)
  unfolding after_logic
  health_handler r = after_logic (pure (ok health))

  unfoldable pub login_handler : R → M (Reply LoginResp)
  unfolding parsed after_logic
  login_handler r = parsed (http.parse_login r) (λ req. after_logic (login w req))

  unfoldable pub trigger_workflow_handler : R → M (Reply TriggerResp)
  unfolding parsed after_logic
  trigger_workflow_handler r =
      parsed (http.parse_trigger r) (λ req. after_logic (trigger_workflow w req))

  unfoldable pub execution_stream_handler : R → M (Reply Answer)
  unfolding parsed
  execution_stream_handler r =
      parsed (http.parse_stream r) (λ req. do
        a ← stream_handler w (http.flushes r) (http.arrivals r) req.id
        pure (answered a))

  unfoldable pub list_workflows_handler : AuthContext → R → M (Reply ListWorkflowsResp)
  unfolding after_logic
  list_workflows_handler ctx r = after_logic (list w ctx)

  unfoldable pub create_workflow_handler : AuthContext → R → M (Reply CreateWorkflowResp)
  unfolding parsed after_logic respond_with
  create_workflow_handler ctx r =
      parsed (http.parse_create r)
        (λ req. after_logic (respond_with (λ id. record { id = id }) (create w ctx req)))

  unfoldable pub get_workflow_handler : AuthContext → R → M (Reply WorkflowItem)
  unfolding parsed after_logic
  get_workflow_handler ctx r = parsed (http.parse_get r) (λ req. after_logic (get w ctx req.id))

  unfoldable pub update_workflow_handler : AuthContext → R → M (Reply UpdateWorkflowResp)
  unfolding parsed after_logic respond_with
  update_workflow_handler ctx r =
      parsed (http.parse_update r)
        (λ req. after_logic (respond_with (λ done. record { done = done }) (update w ctx req)))

  unfoldable pub delete_workflow_handler : AuthContext → R → M (Reply DeleteWorkflowResp)
  unfolding parsed after_logic respond_with
  delete_workflow_handler ctx r =
      parsed (http.parse_delete r)
        (λ req. after_logic (respond_with (λ done. record { done = done }) (delete w ctx req.id)))

  unfoldable pub list_executions_handler : R → M (Reply ListExecutionsResp)
  unfolding parsed after_logic
  list_executions_handler r =
      parsed (http.parse_list_executions r) (λ req. after_logic (list_executions w req.workflow_id))

  unfoldable pub get_execution_handler : R → M (Reply ExecutionItem)
  unfolding parsed after_logic
  get_execution_handler r =
      parsed (http.parse_get_execution r) (λ req. after_logic (get_execution w req.id))

  unfoldable pub run_handler : (e : Endpoint) → AuthContext → R → M (Reply (Body e))
  unfolding health_handler login_handler trigger_workflow_handler execution_stream_handler
      list_workflows_handler create_workflow_handler get_workflow_handler update_workflow_handler
      delete_workflow_handler list_executions_handler get_execution_handler
  run_handler health_endpoint ctx r = health_handler r
  run_handler login_endpoint ctx r = login_handler r
  run_handler trigger_workflow_endpoint ctx r = trigger_workflow_handler r
  run_handler execution_stream_endpoint ctx r = execution_stream_handler r
  run_handler list_workflows_endpoint ctx r = list_workflows_handler ctx r
  run_handler create_workflow_endpoint ctx r = create_workflow_handler ctx r
  run_handler get_workflow_endpoint ctx r = get_workflow_handler ctx r
  run_handler update_workflow_endpoint ctx r = update_workflow_handler ctx r
  run_handler delete_workflow_endpoint ctx r = delete_workflow_handler ctx r
  run_handler list_executions_endpoint ctx r = list_executions_handler r
  run_handler get_execution_endpoint ctx r = get_execution_handler r

pub record Route : Type 0 where
  pub method : String
  pub path : String
  pub handler : Endpoint
  -- whether `jwtMW.Handle` stands before the handler
  pub with_jwt : Bool

abbrev pub route : Bool → String → String → Endpoint → Route
route jwt method path handler = record {
  method = method;
  path = path;
  handler = handler;
  with_jwt = jwt;
}

unfoldable pub public_routes : List Route
public_routes =
    route false "GET" "/health" health_endpoint
    ∷ route false "POST" "/auth/login" login_endpoint
    ∷ route false "POST" "/webhooks/:workflowId" trigger_workflow_endpoint
    ∷ route false "GET" "/executions/:id/stream" execution_stream_endpoint
    ∷ []

unfoldable pub protected_routes : List Route
protected_routes =
    route true "GET" "/workflows" list_workflows_endpoint
    ∷ route true "POST" "/workflows" create_workflow_endpoint
    ∷ route true "GET" "/workflows/:id" get_workflow_endpoint
    ∷ route true "PUT" "/workflows/:id" update_workflow_endpoint
    ∷ route true "DELETE" "/workflows/:id" delete_workflow_endpoint
    ∷ route true "GET" "/workflows/:workflowId/executions" list_executions_endpoint
    ∷ route true "GET" "/executions/:id" get_execution_endpoint
    ∷ []

unfoldable pub register_handlers : List Route
unfolding public_routes protected_routes
register_handlers = public_routes ++ protected_routes

module _ {F R : Type 0} (m : JwtMiddleware F) (http : Http R) (w : World) (ctx : AuthContext) where
  abbrev pub admitted : (e : Endpoint) → R → Verdict → M (Reply (Body e))
  admitted e r (unauthorized message) = pure (not_authorized message)
  admitted e r (next caller) = run_handler http w e caller r

  -- A request that the server brings to a route, with the context that it brings.
  unfoldable pub serve_route : (route : Route) → R → M (Reply (Body route.handler))
  unfolding run_handler handle
  serve_route route r = elim route.with_jwt [
    | true ↦ admitted route.handler r (handle m (http.authorization r) ctx)
    | false ↦ run_handler http w route.handler ctx r
  ]
