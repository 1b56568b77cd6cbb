-- ===== src/Gateway/Handlers/Parsing.antt =====
-- What the handlers do with requests that do not parse.
use workflow_automation_go_z.Common.{String, Option, none, some, ◌≡◌, arith, Result, ok, err, ◌>>=◌}
use workflow_automation_go_z.Gateway.Auth.{AuthContext}
use workflow_automation_go_z.Gateway.Outside.{Trace, M, World}
use workflow_automation_go_z.Gateway.Handlers.{
  Endpoint, health_endpoint, login_endpoint, trigger_workflow_endpoint, execution_stream_endpoint,
  list_workflows_endpoint, create_workflow_endpoint, get_workflow_endpoint,
  update_workflow_endpoint, delete_workflow_endpoint, list_executions_endpoint,
  get_execution_endpoint, Http, failed, run_handler, parsed, Reply,
}

abbrev error_of : {A : Type 0} → Result A → Option String
error_of (ok _) = none
error_of (err e) = some e

-- The error of the parsing that a handler does.
abbrev pub parse_error : {R : Type 0} → Http R → Endpoint → R → Option String
parse_error http health_endpoint r = none
parse_error http login_endpoint r = error_of (http.parse_login r)
parse_error http trigger_workflow_endpoint r = error_of (http.parse_trigger r)
parse_error http execution_stream_endpoint r = error_of (http.parse_stream r)
parse_error http list_workflows_endpoint r = none
parse_error http create_workflow_endpoint r = error_of (http.parse_create r)
parse_error http get_workflow_endpoint r = error_of (http.parse_get r)
parse_error http update_workflow_endpoint r = error_of (http.parse_update r)
parse_error http delete_workflow_endpoint r = error_of (http.parse_delete r)
parse_error http list_executions_endpoint r = error_of (http.parse_list_executions r)
parse_error http get_execution_endpoint r = error_of (http.parse_get_execution r)

module _ {R : Type 0} (http : Http R) (w : World) (ctx : AuthContext) (r : R) (t : Trace) where
  parsed-failed :
      {Q A : Type 0} (q : Result Q) (go : Q → M (Reply A)) (e : String)
      → error_of q ≡ some e
      → parsed q go t ≡ (failed e, t)
  unfolding parsed ◌>>=◌
  parsed-failed (err e') go e same = ground arith
  parsed-failed (ok q) go e same = cc

  -- A handler whose request does not parse makes no call, and answers with the error of the parsing.
  pub run_handler-unparsed :
      (endpoint : Endpoint) (e : String)
      → parse_error http endpoint r ≡ some e
      → run_handler http w endpoint ctx r t ≡ (failed e, t)
  unfolding run_handler
  run_handler-unparsed health_endpoint e h = cc
  run_handler-unparsed list_workflows_endpoint e h = cc
  run_handler-unparsed login_endpoint e h = parsed-failed (http.parse_login r) _ e h
  run_handler-unparsed trigger_workflow_endpoint e h = parsed-failed (http.parse_trigger r) _ e h
  run_handler-unparsed execution_stream_endpoint e h = parsed-failed (http.parse_stream r) _ e h
  run_handler-unparsed create_workflow_endpoint e h = parsed-failed (http.parse_create r) _ e h
  run_handler-unparsed get_workflow_endpoint e h = parsed-failed (http.parse_get r) _ e h
  run_handler-unparsed update_workflow_endpoint e h = parsed-failed (http.parse_update r) _ e h
  run_handler-unparsed delete_workflow_endpoint e h = parsed-failed (http.parse_delete r) _ e h
  run_handler-unparsed list_executions_endpoint e h =
      parsed-failed (http.parse_list_executions r) _ e h
  run_handler-unparsed get_execution_endpoint e h = parsed-failed (http.parse_get_execution r) _ e h
