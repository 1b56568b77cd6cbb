-- ===== src/System/Delivery.antt =====
-- A worker of the gateway with the execution engine that it calls, over a connection that may fail
-- before the engine runs or after it.
use workflow_automation_go_z.Common.{◌||◌, Bool, true, false, List, [], ◌∷◌, Result, ok, err}
use workflow_automation_go_z.Engine.Outside as Engine
use workflow_automation_go_z.Engine.Runner.{RunnerFactory}
use workflow_automation_go_z.Engine.Server
use workflow_automation_go_z.Worker.{RunExecutionReq, Call, run_execution, World}

-- The message of the remote call as the server reads it.
abbrev pub received : RunExecutionReq → Server.RunExecutionReq
received r = record {
  execution_id = r.execution_id;
  workflow_id = r.workflow_id;
  trigger_payload = r.trigger_payload;
}

abbrev pub is_error : {A : Type 0} → Result A → Bool
is_error (ok _) = false
is_error (err _) = true

module _ {F : Type 0} (w : Engine.World F) (factory : RunnerFactory) where
  -- The calls that the engine has made once a worker has made the calls `t`.
  unfoldable pub engine_trace : Engine.Trace → List Call → Engine.Trace
  engine_trace u [] = u
  engine_trace u (run_execution r ∷ t) =
      engine_trace (Server.run_execution w factory (received r) u).1 t
  engine_trace u (_ ∷ t) = engine_trace u t

  -- The world of the worker: its own, with this engine behind the client. The call fails where the
  -- engine returns an error, and also where it runs and `own` loses its answer on the way. (A call
  -- that does not reach the engine comes to the same as one whose first read fails.)
  abbrev pub with_engine : World → World
  with_engine own = record own {
    engine_fails = λ t r.
        is_error (Server.run_execution w factory (received r) (engine_trace [] t)).0
        || own.engine_fails t r;
  }
