-- ===== src/Scheduler/Main.antt =====
-- scheduler-service/main.go: the start of the scheduler, and its end once its context is done.
pub mod Ended
use workflow_automation_go_z.Common.{
  ℕ, String, Option, none, some, List, [], ◌∷◌, ◌++◌, map, ◌<>◌, Action, Result, ok, err, pure, ask,
  tell, embed, ◌>>=◌, ◌>>◌,
}
use workflow_automation_go_z.Amqp as Amqp
use workflow_automation_go_z.Scheduler
use workflow_automation_go_z.Scheduler.{ready, close}

pub record Config : Type 0 where
  pub dsn : String
  pub rabbitmq_url : String

pub data Call : Type 0 where
  read_file : String → Call
  -- `gorm.Open`
  open_db : String → Call
  -- the calls of `New` and `Close`, and those of `Run`
  connection : Amqp.Call → Call
  scheduler : Scheduler.Call → Call
  -- `signal.NotifyContext` and its `stop`
  notify : Call
  stop : Call
  print : String → Call
  -- `log.Fatalf`, which ends the process
  fatal : String → Call

pub record World : Type 0 where
  pub read : String → Result String
  pub decode_config : String → Result Config
  pub open_error : String → Option String
  pub broker : List Call → Amqp.Broker
  -- what a scheduler meets that runs after these calls
  pub running : List Call → Scheduler.World

-- With the number of ticks before the context is done.
module _ (w : World) (ticks : ℕ) where
  -- `main` once the scheduler is there, with what it has deferred.
  unfoldable pub run_and_close : Action Call (Unit {0})
  run_and_close = do
    tell notify
    embed scheduler (λ t. Scheduler.run (w.running t) ticks)
    tell (print "scheduler stopped")
    tell stop
    embed connection (λ t. close ready)

  unfoldable pub init_scheduler : Option String → Action Call (Unit {0})
  unfolding run_and_close
  init_scheduler (some e) = tell (fatal ("init scheduler: " <> e))
  init_scheduler none = run_and_close

  unfoldable pub connect : Config → Action Call (Unit {0})
  unfolding init_scheduler
  connect cfg = do
    failed ← ask (open_db cfg.dsn) (λ t. w.open_error cfg.dsn)
    elim failed [
      | some e ↦ tell (fatal ("connect db: " <> e))
      | none ↦ do
        refused ← embed connection (λ t. Scheduler.new (w.broker t) cfg.rabbitmq_url)
        init_scheduler refused
    ]

  unfoldable pub main : String → Action Call (Unit {0})
  unfolding connect
  main config_file = do
    file ← ask (read_file config_file) (λ t. w.read config_file)
    elim file [
      | err e ↦ tell (fatal ("read config: " <> e))
      | ok text ↦ elim (w.decode_config text) [
        | err e ↦ tell (fatal ("parse config: " <> e))
        | ok cfg ↦ connect cfg
      ]
    ]
