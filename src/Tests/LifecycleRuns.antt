-- ===== src/Tests/LifecycleRuns.antt =====
-- The program with one execution that the gateway has inserted and announced.
use workflow_automation_go_z.Common.{
  ◌>>=◌, to_uint, ℕ, Bool, false, ◌≤◌, ◌==◌, none, [], ◌∷◌, ◌++◌, pos, ok, ◌≡◌, ◌≢◌, refl, ◌⊎◌, Any,
}
use workflow_automation_go_z.Queue.{encode_message}
use workflow_automation_go_z.Gateway.Executions.{TriggerReq, trigger_workflow}
use workflow_automation_go_z.Engine.Outside as Engine
use workflow_automation_go_z.Worker.{Delivery, death_count}
use workflow_automation_go_z.System.State.{System, Broker, start}
use workflow_automation_go_z.System.Lifecycle.{
  triggered, trigger, Reachable, first, then_step, handled,
}
use workflow_automation_go_z.System.Lifecycle.Inv.{Names, Waits, Over}
use workflow_automation_go_z.System.Lifecycle.Settling.{Settled}
use workflow_automation_go_z.System.Lifecycle.Reach.{Reachable-Waits, Reachable-Settled}
use workflow_automation_go_z.System.Lifecycle.Drain.{left, Emptied, Reachable-drains}
use workflow_automation_go_z.System.Lifecycle.Copies.{AtMostOneRun}
use workflow_automation_go_z.System.Lifecycle.Once
use workflow_automation_go_z.System.Lifecycle.Once.{ReachedSafely, Reached-AtMostOneRun}
use workflow_automation_go_z.Tests.Reader.{read_id, read_id-Readable}
use workflow_automation_go_z.Tests.EngineRuns.{small_world, keys, greeting, queued}
use workflow_automation_go_z.Tests.GatewayRuns.{one_workflow}
use workflow_automation_go_z.Tests.WorkerRuns.{counting, down}

fresh_count : death_count none ≡ pos 0
unfolding death_count
fresh_count = refl

abbrev broker : Broker
broker = record {
  arrive = λ body. record { headers = none; body = body };
  arrive_body = λ body. refl;
  arrive_count = λ body. fresh_count;
  redelivery = counting;
}

abbrev run_report : TriggerReq
run_report = record { workflow_id = pos 7; payload = "" }

-- Nothing fails in the gateway.
abbrev waiting : System
waiting = triggered broker (λ t c. false) one_workflow run_report start

reached : Reachable broker ℕ keys read_id waiting
reached = then_step first (trigger (λ t c. false) one_workflow run_report)

waiting-there : waiting.rows 1 ≡ "pending" ∷ []
unfolding triggered trigger_workflow ◌>>=◌
waiting-there = refl

waiting-born : waiting.rows 1 ≢ []
waiting-born e = cc (waiting-there)

Reachable-Waits_example : Over (waiting.rows 1) ⊎ Waits read_id waiting.queue waiting.given_up 1
Reachable-Waits_example =
    Reachable-Waits ℕ broker keys read_id read_id-Readable reached 1 waiting-born

abbrev engine : Engine.World ℕ
engine = record small_world {
  load_workflow = λ t id. ok greeting;
  load_execution = λ t id. ok queued;
}

-- The delivery of the message.
abbrev announced : Delivery
announced = broker.arrive "{\"executionId\":1,\"workflowId\":7,\"triggerPayload\":\"{}\"}"

waiting-queue : waiting.queue ≡ [] ++ announced ∷ []
unfolding triggered trigger_workflow ◌>>=◌ encode_message to_uint
waiting-queue = refl

-- The database takes the first status of a run and refuses the second.
abbrev only_first : ℕ → Bool
only_first n = n == 0

Reachable-Settled_example :
    Settled ℕ broker keys read_id down only_first waiting [] announced []
      (handled broker ℕ keys read_id down engine announced waiting only_first [] [])
Reachable-Settled_example =
    Reachable-Settled ℕ broker keys read_id read_id-Readable reached down engine only_first []
      announced [] waiting-queue

-- Every handling loses the engine's answer and the second status.
Reachable-drains_example :
    (n : ℕ) × (t : System) × (n ≤ left waiting.queue)
    × Emptied ℕ broker keys read_id (λ s. down) (λ s. engine) (λ s. only_first) n waiting t
    × (t.queue ≡ [])
    × ((n : ℕ) → waiting.rows n ≢ [] → Over (t.rows n) ⊎ Any (Names read_id n) t.given_up)
Reachable-drains_example =
    Reachable-drains ℕ broker keys read_id (λ s. down) (λ s. engine) (λ s. only_first)
      read_id-Readable reached

reached_safely : ReachedSafely ℕ broker keys read_id waiting
reached_safely = Once.then_step Once.first (trigger (λ t c. false) one_workflow run_report) tt

Reached-AtMostOneRun_example : AtMostOneRun (waiting.rows 1)
Reached-AtMostOneRun_example =
    Reached-AtMostOneRun ℕ broker keys read_id read_id-Readable reached_safely 1 waiting-born
