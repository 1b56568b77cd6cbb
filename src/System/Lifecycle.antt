-- ===== src/System/Lifecycle.antt =====
-- The life of executions in the whole program: the gateway's TriggerWorkflow and the scheduler's check
-- insert pending rows and publish a message for each, and the workers of the gateway settle the
-- deliveries of these messages with the engine behind them. The database and the broker are not code
-- of the repository: what is taken of them is that an insert gets the next free id, that a status, if it
-- is written, goes to the row with its id, and that a delivery that is handed back comes again. Any
-- read, insert, status write, publication or settlement may fail, and so may the call of the engine,
-- before it runs or after. A request of the gateway, a check of the scheduler and the handling
-- of a delivery are each one step: no process stops in the middle of one, a run is over before
-- its call fails, and the time that a delivery waits in the retry queue is left out.
pub mod Inv
pub mod Rows
pub mod Runs
pub mod Born
pub mod Scheduled
pub mod Handled
pub mod Settling
pub mod Reach
pub mod Drain
pub mod Copies
pub mod Once
use workflow_automation_go_z.Common.{
  ℕ, suc, ◌^◌, String, Bool, true, false, not, ◌&&◌, ◌||◌, Option, none, some, List, [], ◌∷◌, ◌++◌,
  ℤ, pos, negsuc, ◌==◌, ltb, str_eq, if◌then◌else◌, Result, ok, err, collect, ◌≡◌,
}
use workflow_automation_go_z.Amqp as Amqp
use workflow_automation_go_z.Queue
use workflow_automation_go_z.Queue.{ExecutionMessage, max_retries}
use workflow_automation_go_z.Gateway.Outside as Gateway
use workflow_automation_go_z.Gateway.Executions.{TriggerReq, trigger_workflow}
use workflow_automation_go_z.Scheduler
use workflow_automation_go_z.Engine.Outside as Engine
use workflow_automation_go_z.Engine.Runner.{RunnerFactory}
use workflow_automation_go_z.Engine.Server.Views.{status_view}
use workflow_automation_go_z.Worker
use workflow_automation_go_z.Worker.{
  Delivery, Loaded, found, record_not_found, db_error, death_count, at_least, handle,
}
use workflow_automation_go_z.Worker.Retry.{Redelivery, ends_in_ack}
use workflow_automation_go_z.System.Delivery.{with_engine, engine_trace}
use workflow_automation_go_z.System.State.{
  System, Broker, born, insert, write_all, kept, all_kept, replay, has_id, publish, start,
}

-- The row that the engine reads has the id that it asks for, and is there if the row of the state is.
abbrev pub found_row : System → ℤ → Engine.Execution → Result Engine.Execution
found_row s (pos n) e = if born (s.rows n) then ok (record e { id = n }) else err "record not found"
found_row s (negsuc n) e = err "record not found"

abbrev pub row_state : System → ℕ → Loaded → Loaded
row_state s n db_error = db_error
row_state s n _ = if born (s.rows n) then found else record_not_found

module _ (broker : Broker) where
  -- A request of the gateway, some of whose calls fail.
  module _ (fault : Gateway.Trace → Gateway.Call → Bool) where
    unfoldable pub apply_gateway : Gateway.Trace → Gateway.Call → System → System
    unfolding insert publish
    apply_gateway t (Gateway.create_execution e) s =
        if not (fault t (Gateway.create_execution e)) && has_id s then insert e.status s else s
    apply_gateway t (Gateway.enqueue m) s =
        publish broker (fault t (Gateway.enqueue m)) (Queue.encode_message m) s
    apply_gateway t _ s = s

    abbrev pub after_gateway : System → Gateway.Trace → System
    after_gateway s t = replay apply_gateway [] t s

    -- The world that the request meets.
    abbrev pub serve_gateway : Gateway.World → System → Gateway.World
    serve_gateway rest s = record rest {
      insert_execution = λ t e.
          if not (fault t (Gateway.create_execution e)) && has_id (after_gateway s t)
          then ok (after_gateway s t).next_id
          else err "insert";
      enqueue_error = λ t m. if fault t (Gateway.enqueue m) then some "publish" else none;
    }

    unfoldable pub triggered : Gateway.World → TriggerReq → System → System
    unfolding replay apply_gateway
    triggered rest req s = after_gateway s (trigger_workflow (serve_gateway rest s) req []).1

  -- A check of the scheduler, some of whose calls fail.
  module _ (fault : List Scheduler.Call → Scheduler.Call → Bool) where
    -- What a call on the channel does: a message with the key of the run queue is routed to it.
    unfoldable pub apply_amqp : Bool → Amqp.Call → System → System
    unfolding publish
    apply_amqp failed (Amqp.publish x k p) s =
        publish broker (failed || not (str_eq x Queue.exchange && str_eq k Queue.routing_key_run))
          p.body s
    apply_amqp failed _ s = s

    unfoldable pub apply_scheduler : List Scheduler.Call → Scheduler.Call → System → System
    unfolding insert apply_amqp
    apply_scheduler t (Scheduler.create_execution e) s =
        if not (fault t (Scheduler.create_execution e)) && has_id s then insert e.status s else s
    apply_scheduler t (Scheduler.amqp c) s = apply_amqp (fault t (Scheduler.amqp c)) c s
    apply_scheduler t _ s = s

    abbrev pub after_scheduler : System → List Scheduler.Call → System
    after_scheduler s t = replay apply_scheduler [] t s

    abbrev pub serve_scheduler : Scheduler.World → System → Scheduler.World
    serve_scheduler rest s = record rest {
      create = λ t e.
          if not (fault t (Scheduler.create_execution e)) && has_id (after_scheduler s t)
          then some (after_scheduler s t).next_id
          else none;
    }

    unfoldable pub checked : Scheduler.World → System → System
    unfolding replay apply_scheduler
    checked rest s = after_scheduler s (Scheduler.check_and_trigger (serve_scheduler rest s) []).1

  -- The handling of a delivery; a read that fails in `own` or in `w` fails, and an answer of the engine
  -- that `own` loses is lost.
  module _ (F : Type 0) (factory : RunnerFactory) (decode : String → Option ExecutionMessage) where
    abbrev pub serve_engine : Engine.World F → System → Engine.World F
    serve_engine w s = record w {
      load_execution =
          λ t id. elim (w.load_execution t id) [ err e ↦ err e | ok e ↦ found_row s id e ];
    }

    abbrev pub serve_worker : Worker.World → Engine.World F → System → Worker.World
    serve_worker own w s = with_engine (serve_engine w s) factory (record own {
      decode_message = decode;
      load_execution = λ t n. row_state s n (own.load_execution t n);
    })

    module _ (own : Worker.World) (w : Engine.World F) (d : Delivery) (s : System) where
      -- The calls of the worker, and the statuses that the engine asks to write for them.
      abbrev pub worker_calls : List Worker.Call
      worker_calls = (handle (serve_worker own w s) d []).1

      abbrev pub statuses : List (ℕ × String)
      statuses = collect status_view (engine_trace (serve_engine w s) factory [] worker_calls)

      -- The queue from which the delivery was taken, between `xs` and `ys`, once it is settled.
      unfoldable pub settled_queue : List Delivery → List Delivery → List Delivery
      settled_queue xs ys =
          if ends_in_ack worker_calls
          then xs ++ ys
          else xs ++ (ys ++ broker.redelivery.again d ∷ [])

      -- The database takes the status writes that `keep` says by their places.
      module _ (keep : ℕ → Bool) where
        -- A message that has died as often as the worker allows is dropped; and one that is
        -- acknowledged although a status of its run was refused does not come again.
        unfoldable pub dropped : List String
        dropped =
            if at_least (death_count d.headers) max_retries
              || (ends_in_ack worker_calls && not (all_kept keep statuses))
            then d.body ∷ s.given_up
            else s.given_up

        -- The statuses are written before the delivery is settled.
        unfoldable pub handled : List Delivery → List Delivery → System
        unfolding settled_queue dropped write_all
        handled xs ys = record (write_all (kept keep statuses) s) {
          queue = settled_queue xs ys;
          given_up = dropped;
        }

        -- The same where the settlement is lost: the broker keeps the delivery.
        unfoldable pub unsettled : System
        unfolding write_all
        unsettled = write_all (kept keep statuses) s

    pub data Step (s : System) : System → Type 0 where
      trigger :
          (fault : Gateway.Trace → Gateway.Call → Bool) (rest : Gateway.World) (req : TriggerReq)
          → Step s (triggered fault rest req s)
      check :
          (fault : List Scheduler.Call → Scheduler.Call → Bool) (rest : Scheduler.World)
          → Step s (checked fault rest s)
      settle :
          (own : Worker.World) (w : Engine.World F) (keep : ℕ → Bool) (xs : List Delivery)
          (d : Delivery) (ys : List Delivery)
          → s.queue ≡ xs ++ d ∷ ys
          → Step s (handled own w d s keep xs ys)
      lose :
          (own : Worker.World) (w : Engine.World F) (keep : ℕ → Bool) (xs : List Delivery)
          (d : Delivery) (ys : List Delivery)
          → s.queue ≡ xs ++ d ∷ ys
          → Step s (unsettled own w d s keep)

    pub data Reachable : System → Type 0 where
      first : Reachable start
      then_step : {s t : System} → Reachable s → Step s t → Reachable t
