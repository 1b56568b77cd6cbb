-- ===== src/Gateway/Main.antt =====
-- api-gateway/gateway.go, internal/svc/servicecontext.go and internal/config/config.go: the start of the
-- gateway, up to the end of the server, whose failure to listen is left out.
pub mod Served
use workflow_automation_go_z.Common.{
  String, Option, none, some, List, [], ◌∷◌, ◌++◌, map, ℤ, ◌<>◌, decimal_int, Action, Result, ok,
  err, pure, ask, tell, embed, ◌>>=◌, ◌>>◌,
}
use workflow_automation_go_z.Amqp as Amqp
use workflow_automation_go_z.Queue
use workflow_automation_go_z.Worker.Start as Workers
use workflow_automation_go_z.Gateway.Handlers.{Route, public_routes, protected_routes}

-- `Config`, with the host and the port of its `rest.RestConf`, and the fields of its other parts.
pub record Config : Type 0 where
  pub host : String
  pub port : ℤ
  pub dsn : String
  pub redis_addr : String
  pub jwks_url : String
  pub keycloak_url : String
  pub rabbitmq_url : String
  pub worker_count : ℤ
  pub engine_addr : String

pub data Call : Type 0 where
  -- `conf.MustLoad` and `rest.MustNewServer`
  load_config : String → Call
  new_server : Config → Call
  -- `gorm.Open` and `AutoMigrate` of the three tables
  open_db : String → Call
  auto_migrate : Call
  -- `goredis.NewClient` and `grpc.NewClient`
  new_redis : String → Call
  new_engine : String → Call
  -- the calls of the publisher's `New`, and those of the workers' `Start`
  publisher : Amqp.Call → Call
  workers : Workers.Call → Call
  add_routes : List Route → Call
  -- `keyfunc.NewDefault`
  fetch_keys : String → Call
  print : String → Call
  -- `Start` of the server, which returns at its end, and what `main` does then
  serve : String → ℤ → Call
  cancel_workers : Call
  stop_server : Call
  -- `log.Fatalf`, which ends the process
  fatal : String → Call

-- The answers of the operating system and of the libraries.
pub record World : Type 0 where
  pub load : String → Result Config
  -- the error of a call
  pub call_error : List Call → Call → Option String
  pub broker : List Call → Amqp.Broker
  pub worker_broker : List Call → List Workers.Call → Workers.Call → Option String

abbrev pub pool : Config → Workers.Worker
pool c = record { amqp_url = c.rabbitmq_url; count = c.worker_count }

abbrev pub warning : String → String
warning e = "WARNING: worker pool failed to start: " <> e <> "\n"

abbrev pub greeting : Config → String
greeting c = "Starting server at " <> c.host <> ":" <> decimal_int c.port <> "...\n"

abbrev pub warn : Option String → Action Call (Unit {0})
warn none = pure tt
warn (some e) = tell (print (warning e))

module _ (w : World) where
  -- `if err != nil { log.Fatalf(prefix, err) }` in front of `rest`; the library function that makes the
  -- server ends the process in the same way.
  unfoldable pub must : Call → String → Action Call (Unit {0}) → Action Call (Unit {0})
  must c prefix rest = do
    failed ← ask c (λ t. w.call_error t c)
    elim failed [ some e ↦ tell (fatal (prefix <> e)) | none ↦ rest ]

  -- `NewServiceContext` from the error of the publisher on.
  unfoldable pub connect_engine :
      Config → Action Call (Unit {0}) → Option String → Action Call (Unit {0})
  unfolding must
  connect_engine c rest (some e) = tell (fatal ("failed to connect to RabbitMQ: " <> e))
  connect_engine c rest none =
      must (new_engine c.engine_addr) "failed to connect to execution-engine: " rest

  -- `NewServiceContext` in front of what `main` does with it.
  unfoldable pub new_service_context : Config → Action Call (Unit {0}) → Action Call (Unit {0})
  unfolding must connect_engine
  new_service_context c rest = must (open_db c.dsn) "failed to connect to database: " (
      must auto_migrate "failed to auto migrate: " do
        tell (new_redis c.redis_addr)
        no_queue ← embed publisher (λ t. Queue.new (w.broker t) c.rabbitmq_url)
        connect_engine c rest no_queue)

  -- `RegisterHandlers`, which fetches the keys for the routes that it protects.
  unfoldable pub add_handlers : Config → Action Call (Unit {0})
  add_handlers c = do
    tell (add_routes public_routes)
    tell (fetch_keys c.jwks_url)
    tell (add_routes protected_routes)

  -- `main` from the workers on.
  unfoldable pub start_workers : Config → Action Call (Unit {0})
  start_workers c = do
    failed ← embed workers (λ t. Workers.start (w.worker_broker t) (pool c))
    warn failed

  unfoldable pub serve_until_stopped : Config → Action Call (Unit {0})
  unfolding decimal_int
  serve_until_stopped c = do
    tell (print (greeting c))
    tell (serve c.host c.port)
    tell cancel_workers
    tell stop_server

  unfoldable pub main : String → Action Call (Unit {0})
  unfolding new_service_context add_handlers start_workers serve_until_stopped must
  main config_file = do
    tell (load_config config_file)
    elim (w.load config_file) [
      | err e ↦ tell (fatal e)
      | ok c ↦
          must (new_server c) ""
            (new_service_context c do add_handlers c; start_workers c; serve_until_stopped c)
    ]
