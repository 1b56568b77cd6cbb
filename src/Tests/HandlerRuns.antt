-- ===== src/Tests/HandlerRuns.antt =====
-- Requests to the routes of a gateway whose database holds one workflow, of the user "ann".
use mathlib.Core.List.{Memᴰ}
use workflow_automation_go_z.Common.{
  ℕ, String, true, some, [], ◌∷◌, ◌++◌, pos, ◌≡◌, ◌≢◌, refl, ◌⊎◌, ok, err, ◌<>◌, ◌>>=◌,
}
use workflow_automation_go_z.Value.{GoMap}
use workflow_automation_go_z.Gateway.Outside.{LoginResp, post_form, Workflow, HttpResponse, row}
use workflow_automation_go_z.Gateway.Middleware.{
  Token, map_claims, bearer_token, caller, handle, strip_prefix,
}
use workflow_automation_go_z.Gateway.Auth.{has_role, user_id_from_ctx}
use workflow_automation_go_z.Gateway.Login.{LoginReq, login, login-cases, asked}
use workflow_automation_go_z.Gateway.Workflows.{
  UpdateWorkflowReq, update, load_owned, load, check_ownership_model, owner_check, write_update,
}
use workflow_automation_go_z.Gateway.Workflows.Access.{Permitted}
use workflow_automation_go_z.Gateway.Handlers.{
  Http, Route, route, delete_workflow_endpoint, not_authorized, answered, register_handlers,
  public_routes, protected_routes, serve_route, run_handler, parsed, after_logic, respond_with,
}
use workflow_automation_go_z.Gateway.Handlers.Guarded.{
  serve_route-unauthorized, update_route, update_route-authorized,
}
use workflow_automation_go_z.Tests.GatewayRuns.{one_workflow, rename, keycloak, anonymous}

-- A request is its header `Authorization`, and parses as a request for the workflow 7.
abbrev plain : Http String
plain = record {
  authorization = λ r. r;
  parse_login = λ r. err "no body";
  parse_trigger = λ r. err "no body";
  parse_stream = λ r. ok (record { id = pos 7 });
  parse_create = λ r. err "no body";
  parse_get = λ r. ok (record { id = pos 7 });
  parse_update = λ r. ok rename;
  parse_delete = λ r. ok (record { id = pos 7 });
  parse_list_executions = λ r. ok (record { workflow_id = pos 7 });
  parse_get_execution = λ r. ok (record { id = pos 7 });
  flushes = λ r. true;
  arrivals = λ r. [];
}

abbrev delete_route : Route
delete_route = route true "DELETE" "/workflows/:id" delete_workflow_endpoint

delete_route-registered : Memᴰ delete_route register_handlers
unfolding register_handlers public_routes protected_routes
delete_route-registered = Memᴰ.tail (
    Memᴰ.tail
      (Memᴰ.tail (Memᴰ.tail (Memᴰ.tail (Memᴰ.tail (Memᴰ.tail (Memᴰ.tail (Memᴰ.head refl))))))))

serve_route-unauthorized_example :
    serve_route keycloak plain one_workflow anonymous delete_route "Basic abc" []
    ≡ (not_authorized "missing token", [])
serve_route-unauthorized_example =
    serve_route-unauthorized keycloak plain one_workflow anonymous delete_route "Basic abc" []
      "missing token" delete_route-registered refl (unfold handle bearer_token strip_prefix in refl)

abbrev ann_asks : LoginReq
ann_asks = record { username = "ann"; password = "secret" }

login-cases_example :
    let w = one_workflow in
    let c = asked w ann_asks [] in
    ((login w ann_asks []).1
      ≡ []
        ++ post_form (w.keycloak_url <> "/realms/workflow-app/protocol/openid-connect/token") (
            ("grant_type", "password")
            ∷ ("client_id", "workflow-client")
            ∷ ("username", ann_asks.username)
            ∷ ("password", ann_asks.password)
            ∷ [])
          ∷ [])
    × (((e : String) × (w.respond [] c ≡ err e)
          × ((login w ann_asks []).0 ≡ err ("keycloak unreachable: " <> e)))
        ⊎ ((resp : HttpResponse) × (w.respond [] c ≡ ok resp)
            × (((resp.status_code ≡ 200)
                  × (((token : LoginResp) × (w.decode_login resp.body ≡ ok token)
                        × ((login w ann_asks []).0 ≡ ok token))
                      ⊎ ((e : String) × (w.decode_login resp.body ≡ err e)
                          × ((login w ann_asks []).0 ≡ err e))))
                ⊎ ((resp.status_code ≢ 200)
                    × ((login w ann_asks []).0 ≡ err "invalid credentials")))))
login-cases_example = login-cases one_workflow ann_asks []

ann_updates :
    (serve_route keycloak plain one_workflow anonymous
      (update_route keycloak plain one_workflow anonymous "Bearer abc" [])
      "Bearer abc"
      []).0
    ≡ answered (record { done = true })
unfolding serve_route run_handler parsed after_logic respond_with handle update load_owned load
    check_ownership_model owner_check user_id_from_ctx caller write_update has_role ◌>>=◌
ann_updates = refl

update_route-authorized_example :
    (token : Token ℕ) × (claims : GoMap ℕ) × (req : UpdateWorkflowReq) × (wf : Workflow)
    × (keycloak.parse (bearer_token "Bearer abc") ≡ some token)
    × (token.valid ≡ true)
    × (token.claims ≡ map_claims claims)
    × (ok rename ≡ ok req)
    × (one_workflow.load_workflow [] req.id ≡ row wf)
    × Permitted (caller claims anonymous) wf.user_id
update_route-authorized_example =
    update_route-authorized keycloak plain one_workflow anonymous "Bearer abc" []
      (record { done = true }) ann_updates
