-- ===== src/Engine/Main.antt =====
-- execution-engine/main.go and internal/config/config.go: the start of the execution engine, up to the
-- call that serves.
pub mod Served
use workflow_automation_go_z.Common.{
  ℕ, String, Bool, true, Option, none, some, List, [], ◌∷◌, ◌++◌, ℤ, str_eq, if◌then◌else◌, ◌<>◌,
  decimal_int, Action, Result, ok, err, pure, ask, tell, ◌>>=◌, ◌>>◌, ◌≡◌, refl, sym, ap, ◌∙◌, ◌⊎◌,
  inl, inr, Option-cases, Result-cases, Bool-cases, false, collect, collect-append,
  collect-snoc_quiet, append-nil,
}
use workflow_automation_go_z.Engine.Runner.{RunnerFactory}

pub record Config : Type 0 where
  pub port : ℤ
  pub dsn : String
  pub redis_addr : String
  pub jaeger_endpoint : String
  pub anthropic_api_key : String
  pub openai_api_key : String

pub data Call : Type 0 where
  read_file : String → Call
  -- `otlptracegrpc.New` to an endpoint, `otel.SetTracerProvider` with it, and its `Shutdown`
  new_exporter : String → Call
  set_tracer_provider : Call
  shutdown_tracer : Call
  -- `gorm.Open`
  open_db : String → Call
  -- `goredis.NewClient`
  new_client : String → Call
  listen : String → Call
  getenv : String → Call
  -- `Serve` of the server with this factory
  serve : RunnerFactory → Call
  -- `log.Fatalf`, which ends the process
  fatal : String → Call

-- The answers of the operating system, of YAML and of the drivers.
pub record World : Type 0 where
  pub read : List Call → String → Result String
  pub decode_config : String → Result Config
  pub env : List Call → String → String
  -- the error of a call
  pub call_error : List Call → Call → Option String

-- A key from the environment is taken before the one of the file.
abbrev pub prefer : String → String → String
prefer v key = if str_eq v "" then key else v

module _ (w : World) where
  -- `if err != nil { log.Fatalf(prefix, err) }` in front of `rest`
  unfoldable pub must : Call → String → Action Call (Unit {0}) → Action Call (Unit {0})
  must c prefix rest = do
    failed ← ask c (λ t. w.call_error t c)
    elim failed [ some e ↦ tell (fatal (prefix <> ": " <> e)) | none ↦ rest ]

  -- The error, or `none`.
  unfoldable pub init_tracer : String → Action Call (Option String)
  init_tracer endpoint = if str_eq endpoint "" then pure none else do
    failed ← ask (new_exporter endpoint) (λ t. w.call_error t (new_exporter endpoint))
    elim failed [
      | some e ↦ pure (some ("create OTLP exporter: " <> e))
      | none ↦ do tell set_tracer_provider; pure none
    ]

  -- What `initTracer` returns, called at the end of `main`.
  abbrev pub shutdown : String → Action Call (Unit {0})
  shutdown endpoint = if str_eq endpoint "" then pure tt else tell shutdown_tracer

  abbrev pub factory_of : Config → String → String → RunnerFactory
  factory_of cfg anthropic openai = record {
    anthropic_api_key = prefer anthropic cfg.anthropic_api_key;
    openai_api_key = prefer openai cfg.openai_api_key;
    rdb = true;
  }

  unfoldable pub start_server : Config → Action Call (Unit {0})
  unfolding must
  start_server cfg = do
    anthropic ← ask (getenv "ANTHROPIC_API_KEY") (λ t. w.env t "ANTHROPIC_API_KEY")
    openai ← ask (getenv "OPENAI_API_KEY") (λ t. w.env t "OPENAI_API_KEY")
    must (serve (factory_of cfg anthropic openai)) "serve" (shutdown cfg.jaeger_endpoint)

  -- `main` once the tracer is there.
  unfoldable pub connect : Config → Action Call (Unit {0})
  unfolding start_server must decimal_int
  connect cfg = must (open_db cfg.dsn) "connect db" do
    tell (new_client cfg.redis_addr)
    must (listen (":" <> decimal_int cfg.port)) "listen" (start_server cfg)

  abbrev pub trace_and_connect : Config → Action Call (Unit {0})
  trace_and_connect cfg = do
    untraced ← init_tracer cfg.jaeger_endpoint
    elim untraced [ some e ↦ tell (fatal ("init tracer: " <> e)) | none ↦ connect cfg ]

  unfoldable pub main : String → Action Call (Unit {0})
  unfolding init_tracer connect
  main config_file = do
    file ← ask (read_file config_file) (λ t. w.read t config_file)
    elim file [
      | err e ↦ tell (fatal ("read config: " <> e))
      | ok text ↦ elim (w.decode_config text) [
        | err e ↦ tell (fatal ("parse config: " <> e))
        | ok cfg ↦ trace_and_connect cfg
      ]
    ]
