-- ===== src/Tests/SystemRuns.antt =====
-- A client that watches a run of the engine, a delivery that is handled with the engine behind it, and
-- the start of the engine.
use workflow_automation_go_z.Common.{
  err, ◌<>◌, String, false, [], ◌∷◌, pos, none, ◌≡◌, ◌⊎◌, refl, ok, str_eq, if◌then◌else◌,
}
use workflow_automation_go_z.Engine.Main.{Config, Call, read_file, fatal, factory_of, main}
use workflow_automation_go_z.Engine.Main
use workflow_automation_go_z.Engine.Main.Served.{Refused, Served, main-cases}
use workflow_automation_go_z.Gateway.Outside.{Execution, World, row}
use workflow_automation_go_z.Queue.{max_retries}
use workflow_automation_go_z.Worker.{death_count, at_least}
use workflow_automation_go_z.Tests.WorkerRuns.{fresh}
use workflow_automation_go_z.Tests.GatewayRuns.{one_workflow}

-- The execution that `run_queued` is about, as the gateway's handler reads it.
abbrev watched : Execution
watched = record {
  id = 3;
  workflow_id = 7;
  status = "pending";
  started_at = 0;
  finished_at = none;
  trigger_payload = "{}";
  step_logs = [];
}

abbrev one_execution : World
one_execution = record one_workflow { load_execution = λ t id. row watched }

fresh-retries : at_least (death_count fresh.headers) max_retries ≡ false
unfolding death_count
fresh-retries = refl

-- A file without keys, an environment with one, and nothing that fails.
abbrev plain_config : Config
plain_config = record {
  port = pos 9090;
  dsn = "host=postgres";
  redis_addr = "redis:6379";
  jaeger_endpoint = "";
  anthropic_api_key = "";
  openai_api_key = "";
}

abbrev plain_start : Main.World
plain_start = record {
  read = λ t name. ok "...";
  decode_config = λ text. ok plain_config;
  env = λ t name. if str_eq name "OPENAI_API_KEY" then "o" else "";
  call_error = λ t c. none;
}

main-cases_example :
    let f : String = "etc/engine.yaml" in
    let r = (main plain_start f []).1 in
    ((e : String) × (((plain_start.read [] f ≡ err e)
          × (r ≡ read_file f ∷ fatal ("read config: " <> e) ∷ []))
        ⊎ ((text : String) × (plain_start.read [] f ≡ ok text)
            × (plain_start.decode_config text ≡ err e)
            × (r ≡ read_file f ∷ fatal ("parse config: " <> e) ∷ []))))
    ⊎ ((text : String) × (cfg : Config) × (plain_start.read [] f ≡ ok text)
        × (plain_start.decode_config text ≡ ok cfg)
        × (Refused plain_start r ⊎ Served plain_start cfg r))
main-cases_example = main-cases plain_start "etc/engine.yaml"
