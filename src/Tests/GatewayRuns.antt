-- ===== src/Tests/GatewayRuns.antt =====
-- Requests to a gateway whose database holds one workflow, of the user "ann".
use workflow_automation_go_z.Common.{
  map, false, ℕ, String, true, none, some, [], ◌∷◌, ◌++◌, pos, ◌≡◌, refl, ◌⊎◌, ok, err, ◌>>=◌,
  arith, eq_iff,
}
use workflow_automation_go_z.Value.{string, field, end, GoMap}
use workflow_automation_go_z.Gateway.Auth.{AuthContext, has_role, user_id_from_ctx}
use workflow_automation_go_z.Gateway.Middleware.{
  map_claims, Token, JwtMiddleware, bearer_token, handle, caller, handle-next,
}
use workflow_automation_go_z.Engine.Outside.{request}
use workflow_automation_go_z.Engine.Server.{run_steps, encode_redis_event}
use workflow_automation_go_z.Gateway.Executor.{run_workflow}
use workflow_automation_go_z.Gateway.Executor.Same.{
  engine_execution, engine_workflow, run_workflow-same,
}
use workflow_automation_go_z.Gateway.Stream.{message, frame, forward, is_finished}
use workflow_automation_go_z.Gateway.Stream.Finished.{
  forward-unfinished, event_payload, token_payload, is_finished-events,
}
use workflow_automation_go_z.Tests.EngineRuns.{small_world, keys}
use workflow_automation_go_z.Gateway.Outside.{
  Execution, Workflow, row, record_not_found, World, redis_get, redis_del,
}
use workflow_automation_go_z.Gateway.Workflows.{
  UpdateWorkflowReq, to_workflow_item, cache_key, cached_item, updates_of, get, update, delete,
}
use workflow_automation_go_z.Gateway.Workflows.Access.{Permitted, get-Permitted}
use workflow_automation_go_z.Gateway.Workflows.Writes.{
  update_loaded, updated, update-cases, delete_loaded, deleted, delete-cases, apply_updates,
  keep_if_empty, apply_updates-updates_of,
}
use workflow_automation_go_z.Gateway.Executions.{TriggerReq}

abbrev claims : GoMap ℕ
claims = some (field "sub" (string "ann") end)

abbrev pub keycloak : JwtMiddleware ℕ
keycloak = record {
  has_keyfunc = true;
  parse = λ s. some (record { valid = true; claims = map_claims claims });
}

abbrev pub anonymous : AuthContext
anonymous = record { user_id = none; roles = none }

handle-next_example :
    (token : Token ℕ) × (cs : GoMap ℕ) × (keycloak.has_keyfunc ≡ true)
    × (keycloak.parse (bearer_token "Bearer abc") ≡ some token)
    × (token.valid ≡ true)
    × (token.claims ≡ map_claims cs)
    × (caller claims anonymous ≡ caller cs anonymous)
handle-next_example =
    handle-next keycloak "Bearer abc" anonymous (caller claims anonymous) (unfold handle in refl)

abbrev pub ann : AuthContext
ann = record { user_id = some "ann"; roles = some [] }

abbrev pub bob : AuthContext
bob = record { user_id = some "bob"; roles = some [] }

abbrev pub report : Workflow
report = record {
  id = 7;
  user_id = "ann";
  name = "report";
  trigger_type = "manual";
  trigger_config = "{}";
  steps = "[]";
  is_active = true;
}

-- Every id is the workflow's, the cache is empty, and every write succeeds.
abbrev pub one_workflow : World
one_workflow = record {
  cached = λ t k. none;
  decode_item = λ s. none;
  encode_item = λ i. some "{...}";
  load_workflow = λ t id. row report;
  load_user_id = λ t id. row "ann";
  list_workflows = λ t f. ok (report ∷ []);
  insert_workflow = λ t wf. ok 8;
  update_error = λ t id us. none;
  delete_error = λ t id. none;
  load_execution = λ t id. record_not_found;
  list_executions = λ t id. ok [];
  insert_execution = λ t e. ok 3;
  enqueue_error = λ t m. none;
  clock = λ t. 0;
  format_time = λ n. "";
  keycloak_url = "http://keycloak";
  respond = λ t c. ok (record { status_code = 200; body = "{...}" });
  decode_login = λ text. ok (record {
    access_token = "abc";
    refresh_token = "";
    expires_in = pos 300;
    token_type = "Bearer";
  });
}

abbrev pub rename : UpdateWorkflowReq
rename = record {
  id = pos 7;
  name = "weekly report";
  trigger_type = "";
  trigger_config = "";
  steps = "";
  is_active = true;
}

get-Permitted_example :
    let t' = [] ++ redis_get (cache_key (pos 7)) ∷ [] in
    ((cached_item one_workflow none ≡ none)
      × ((wf : Workflow) × (one_workflow.load_workflow t' (pos 7) ≡ row wf)
          × Permitted ann wf.user_id
          × (to_workflow_item report ≡ to_workflow_item wf)))
    ⊎ ((cached_item one_workflow none ≡ some (to_workflow_item report))
        × ((has_role ann "admin" ≡ true)
            ⊎ ((owner_id : String) × (one_workflow.load_user_id t' (to_workflow_item report).id
                  ≡ row owner_id)
                × Permitted ann owner_id)))
unfolding has_role user_id_from_ctx
get-Permitted_example =
    get-Permitted one_workflow ann (pos 7) [] (to_workflow_item report) (unfold get ◌>>=◌ in refl)

update-cases_example :
    ((wf : Workflow) × (row report ≡ row wf)
      × Permitted ann wf.user_id
      × (((one_workflow.update_error
                (update_loaded one_workflow ann rename [])
                wf.id
                (updates_of rename)
              ≡ none)
            × (update one_workflow ann rename [] ≡ (
              ok true,
              updated one_workflow ann rename [] wf ++ redis_del (cache_key (pos 7)) ∷ [],
            )))
          ⊎ ((e : String) × (one_workflow.update_error
                  (update_loaded one_workflow ann rename [])
                  wf.id
                  (updates_of rename)
                ≡ some e)
              × (update one_workflow ann rename []
                  ≡ (err e, updated one_workflow ann rename [] wf)))))
    ⊎ ((e : String) × (update one_workflow ann rename []
          ≡ (err e, update_loaded one_workflow ann rename [])))
update-cases_example = update-cases one_workflow ann rename []

bob_denied : ¬ Permitted bob "ann"
unfolding has_role user_id_from_ctx
bob_denied p = ground (arith, eq_iff "ann" "", eq_iff "bob" "ann")

delete-cases_example :
    ((wf : Workflow) × (row report ≡ row wf)
      × Permitted ann wf.user_id
      × (((one_workflow.delete_error (delete_loaded one_workflow ann (pos 7) []) wf.id ≡ none)
            × (delete one_workflow ann (pos 7) [] ≡ (
              ok true,
              deleted one_workflow ann (pos 7) [] wf ++ redis_del (cache_key (pos 7)) ∷ [],
            )))
          ⊎ ((e : String) × (one_workflow.delete_error
                  (delete_loaded one_workflow ann (pos 7) [])
                  wf.id
                ≡ some e)
              × (delete one_workflow ann (pos 7) []
                  ≡ (err e, deleted one_workflow ann (pos 7) [] wf)))))
    ⊎ ((e : String) × (delete one_workflow ann (pos 7) []
          ≡ (err e, delete_loaded one_workflow ann (pos 7) [])))
delete-cases_example = delete-cases one_workflow ann (pos 7) []

apply_updates-updates_of_example : apply_updates report (updates_of rename) ≡ record report {
  name = keep_if_empty "weekly report" "report";
  trigger_type = keep_if_empty "" "manual";
  trigger_config = keep_if_empty "" "{}";
  steps = keep_if_empty "" "[]";
  is_active = true;
}
apply_updates-updates_of_example = apply_updates-updates_of rename report

abbrev trigger_report : TriggerReq
trigger_report = record { workflow_id = pos 7; payload = "" }

abbrev triggered : Execution
triggered = record {
  id = 3;
  workflow_id = 7;
  status = "pending";
  started_at = 0;
  finished_at = none;
  trigger_payload = "{}";
  step_logs = [];
}

run_workflow-same_example :
    (run_workflow small_world request triggered report []).1
    ≡ (run_steps small_world keys request
        (engine_execution triggered)
        (engine_workflow 1 report)
        []).1
run_workflow-same_example = run_workflow-same small_world keys 1 report triggered request [] refl

is_finished-events_example :
    (is_finished (event_payload "finished" 3 "summary" "success" 0) ≡ true)
    × (is_finished (event_payload "step_done" 3 "summary" "success" 0) ≡ false)
    × (is_finished (token_payload "summary" "\"type\":\"finished\"" false) ≡ false)
is_finished-events_example =
    is_finished-events 3 0 "summary" "success" "\"type\":\"finished\"" false

abbrev last_payload : String
last_payload = event_payload "finished" 3 "" "success" 0

forward-unfinished_example :
    forward (
      map message (event_payload "step_done" 3 "greet" "success" 0 ∷ [])
      ++ message last_payload ∷ message "more" ∷ [])
    ≡ map frame ((event_payload "step_done" 3 "greet" "success" 0 ∷ []) ++ last_payload ∷ [])
unfolding is_finished encode_redis_event
forward-unfinished_example =
    forward-unfinished (event_payload "step_done" 3 "greet" "success" 0 ∷ []) last_payload
      (message "more" ∷ []) refl refl
