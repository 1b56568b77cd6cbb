-- ===== src/Worker.antt =====
-- api-gateway/internal/worker/executionworker.go: a delivery of the run queue is dispatched to the
-- execution engine and settled by one Ack or Nack. Logging and spans are left out.
pub mod Settle
pub mod Retry
pub mod Consumer
pub mod Start
use workflow_automation_go_z.Common.{
  ℕ, String, Bool, to_int64, true, false, Option, none, some, List, [], ◌∷◌, ℤ, pos, negsuc, leb,
  ltb, if◌then◌else◌, Action, pure, ask, tell, ◌>>=◌, ◌>>◌,
}
use workflow_automation_go_z.Amqp.{
  Argument, int64, array, table, cons, nil, Arguments, Table, lookup,
}
use workflow_automation_go_z.Queue.{ExecutionMessage, max_retries}

pub record Delivery : Type 0 where
  pub headers : Table
  pub body : String

-- `pb.RunExecutionReq`, with its int64 fields.
pub record RunExecutionReq : Type 0 where
  pub execution_id : ℤ
  pub workflow_id : ℤ
  pub trigger_payload : String

-- What `db.First` comes to.
pub data Loaded : Type 0 where
  found : Loaded
  record_not_found : Loaded
  db_error : Loaded

-- What a consumer gets next: a delivery of the queue, the end of its deliveries, or the end of its
-- context.
pub data Arrival : Type 0 where
  delivery : Delivery → Arrival
  closed : Arrival
  cancelled : Arrival

pub data Call : Type 0 where
  -- `Ack(false)` and `Nack(false, false)` of a delivery
  ack : Delivery → Call
  nack : Delivery → Call
  first_execution : ℕ → Call
  run_execution : RunExecutionReq → Call
  close_channel : Call

-- The answers of the JSON decoder, of the database and of the engine, where `true` is an error.
pub record World : Type 0 where
  pub decode_message : String → Option ExecutionMessage
  pub load_execution : List Call → ℕ → Loaded
  pub engine_fails : List Call → RunExecutionReq → Bool

abbrev count_of : Option Argument → ℤ
count_of (some (int64 n)) = n
count_of _ = pos 0

abbrev count_in : Argument → ℤ
count_in (table es) = count_of (lookup (some es) "count")
count_in _ = pos 0

-- The `count` of the first entry of the `x-death` header, or 0.
unfoldable pub death_count : Table → ℤ
unfolding lookup
death_count headers = elim (lookup headers "x-death") [
  | some (array (cons death _)) ↦ count_in death
  | _ ↦ pos 0
]

-- `n >= m`
abbrev pub at_least : ℤ → ℕ → Bool
at_least (pos n) m = leb m n
at_least (negsuc n) m = false

unfoldable pub request_of : ExecutionMessage → RunExecutionReq
unfolding to_int64
request_of msg = record {
  execution_id = to_int64 msg.execution_id;
  workflow_id = to_int64 msg.workflow_id;
  trigger_payload = msg.trigger_payload;
}

module _ (w : World) where
  -- `handle` from the call of the engine on.
  unfoldable pub dispatch : Delivery → ExecutionMessage → Action Call (Unit {0})
  dispatch d msg = do
    failed ← ask (run_execution (request_of msg)) (λ t. w.engine_fails t (request_of msg))
    if failed then tell (nack d) else tell (ack d)

  unfoldable pub load_and_dispatch : Delivery → ExecutionMessage → Action Call (Unit {0})
  unfolding dispatch
  load_and_dispatch d msg = do
    loaded ← ask (first_execution msg.execution_id) (λ t. w.load_execution t msg.execution_id)
    elim loaded [
      | found ↦ dispatch d msg
      | record_not_found ↦ tell (ack d)
      | db_error ↦ tell (nack d)
    ]

  unfoldable pub handle : Delivery → Action Call (Unit {0})
  unfolding load_and_dispatch
  handle d =
      if at_least (death_count d.headers) max_retries
      then tell (ack d)
      else elim (w.decode_message d.body) [
        | none ↦ tell (ack d)
        | some msg ↦ load_and_dispatch d msg
      ]

  -- The loop of `consume`, over what arrives.
  unfoldable pub consume_loop : List Arrival → Action Call (Unit {0})
  unfolding handle
  consume_loop [] = pure tt
  consume_loop (cancelled ∷ rest) = tell close_channel
  consume_loop (closed ∷ rest) = pure tt
  consume_loop (delivery d ∷ rest) = do handle d; consume_loop rest

  -- `refused` says that `ch.Consume` returns an error.
  unfoldable pub consume : Bool → List Arrival → Action Call (Unit {0})
  unfolding consume_loop
  consume refused arrivals = if refused then pure tt else consume_loop arrivals
