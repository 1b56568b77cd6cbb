-- ===== src/Tests/StartRuns.antt =====
-- A start of the gateway in which nothing fails.
use workflow_automation_go_z.Common.{err, String, none, [], ◌∷◌, pos, ok, ◌≡◌, ◌⊎◌}
use workflow_automation_go_z.Gateway.Main as Gateway
use workflow_automation_go_z.Gateway.Main.{Config, load_config, fatal}
use workflow_automation_go_z.Gateway.Main.Served.{Ended, Running, main-serves}

abbrev config : Config
config = record {
  host = "0.0.0.0";
  port = pos 8888;
  dsn = "host=postgres";
  redis_addr = "redis:6379";
  jwks_url = "http://keycloak/certs";
  keycloak_url = "http://keycloak";
  rabbitmq_url = "amqp://rabbitmq:5672/";
  worker_count = pos 3;
  engine_addr = "execution-engine:9090";
}

abbrev all_up : Gateway.World
all_up = record {
  load = λ name. ok config;
  call_error = λ t c. none;
  broker = λ t u c. none;
  worker_broker = λ t u c. none;
}

main-serves_example :
    let f : String = "etc/gateway-api.yaml" in
    let r = (Gateway.main all_up f []).1 in
    ((e : String) × (all_up.load f ≡ err e) × (r ≡ load_config f ∷ fatal e ∷ []))
    ⊎ ((c : Config) × (all_up.load f ≡ ok c) × (Ended all_up c r ⊎ Running all_up c r))
main-serves_example = main-serves all_up "etc/gateway-api.yaml"
