-- ===== src/Tests/WorkerRuns.antt =====
-- Deliveries of one message: to an engine that answers, to one that always fails, and the broker.
use workflow_automation_go_z.Common.{
  ℕ, suc, ◌≤◌, ◌-◌, Bool, true, false, String, Option, none, some, List, [], ◌∷◌, ◌++◌, ℤ, pos,
  negsuc, ◌≡◌, refl, ◌↔◌, ◌⊎◌, collect, arith, length, replicate, str_eq, if◌then◌else◌,
}
use workflow_automation_go_z.Amqp.{
  string, int32, int64, array, table, cons, nil, entry, end, Table, Broker,
}
use workflow_automation_go_z.Queue
use workflow_automation_go_z.Queue.{
  ExecutionMessage, exchange, queue_run, queue_retry, routing_key_run, header_get, header_set,
}
use workflow_automation_go_z.Queue.Headers.{header_get-set}
use workflow_automation_go_z.Queue.Topology.{
  declare_topology-routes, route, time_to_live, dead_letters,
}
use workflow_automation_go_z.Worker.Start
use workflow_automation_go_z.Worker.Start.{
  Worker, dial, close_connection, rounds, start, consumer_view, closing_view, from, start-cases,
}
use workflow_automation_go_z.Worker.Consumer.{taken, Consumed, consume-settles}
use workflow_automation_go_z.Worker.{
  delivery, closed, close_channel, consume, Delivery, RunExecutionReq, found, Call, World,
  death_count, request_of, handle,
}
use workflow_automation_go_z.Worker.Settle.{
  handle-settles, settle, settle_view, dispatch_view, Requeued,
}
use workflow_automation_go_z.Worker.Retry.{Redelivery, deliver, deliver_bounded, deliver-failing}

abbrev pub run_three : ExecutionMessage
run_three = record { execution_id = 3; workflow_id = 7; trigger_payload = "{}" }

-- Every body is the message, the execution is there, and the engine fails.
abbrev pub down : World
down = record {
  decode_message = λ s. some run_three;
  load_execution = λ t id. found;
  engine_fails = λ t r. true;
}

abbrev pub dead : ℤ → Table
dead n = some (entry "x-death" (array (cons (table (entry "count" (int64 n) end)) nil)) end)

abbrev pub fresh : Delivery
fresh = record { headers = none; body = "{...}" }

-- A broker that keeps nothing but the count of deaths in the headers.
abbrev pub next_count : ℤ → ℤ
next_count (pos n) = pos (suc n)
next_count (negsuc n) = pos 1

pub counted :
    (d : Delivery) (n : ℕ)
    → death_count d.headers ≡ pos n
    → death_count (dead (next_count (death_count d.headers))) ≡ pos (suc n)
counted d n e = rw e (unfold death_count in refl)

abbrev pub counting : Redelivery
counting = record {
  again = λ d. record { headers = dead (next_count (death_count d.headers)); body = d.body };
  counts = counted;
  keeps_body = λ d. refl;
}

pub fresh_alive : death_count fresh.headers ≡ pos 0
unfolding death_count
fresh_alive = refl

handle-settles_example :
    (acked : Bool) × (u : List Call) × ((handle down fresh []).1 ≡ u ++ settle fresh acked ∷ [])
    × (collect settle_view u ≡ collect settle_view [])
    × ((acked ≡ false) ↔ Requeued down fresh [])
handle-settles_example = handle-settles down fresh []

deliver_bounded_example :
    ((deliver down counting 4 fresh []).0 ≡ true)
    × (rs : List RunExecutionReq) × (collect dispatch_view (deliver down counting 4 fresh []).1
        ≡ collect dispatch_view [] ++ rs)
    × (length rs ≤ 3 - 0)
deliver_bounded_example =
    deliver_bounded down counting 4 0 fresh [] fresh_alive (omega arith) (omega arith)

deliver-failing_example :
    ((deliver down counting 4 fresh []).0 ≡ true)
    × (collect dispatch_view (deliver down counting 4 fresh []).1
        ≡ collect dispatch_view [] ++ replicate (3 - 0) (request_of run_three))
deliver-failing_example =
    deliver-failing down counting run_three "{...}" refl (λ t. refl) (λ t. refl) 4 0 fresh [] refl
      fresh_alive (omega arith) (omega arith)

abbrev willing : Broker
willing = λ t c. none

declare_topology-routes_example :
    let r = Queue.declare_topology willing [] in
    (r.0 ≡ none)
    × (route r.1 exchange routing_key_run ≡ queue_run ∷ [])
    × (time_to_live r.1 queue_run ≡ none)
    × (dead_letters r.1 r.1 queue_run ≡ queue_retry ∷ [])
    × (time_to_live r.1 queue_retry ≡ some (int32 (pos 10000)))
    × (dead_letters r.1 r.1 queue_retry ≡ queue_run ∷ [])
declare_topology-routes_example = declare_topology-routes willing (λ t c. refl)

header_get-set_example :
    header_get
      (some (header_set (entry "traceparent" (string "00") end) "tracestate" "a=b"))
      "traceparent"
    ≡ (if str_eq "tracestate" "traceparent"
        then "a=b"
        else header_get (some (entry "traceparent" (string "00") end)) "traceparent")
header_get-set_example =
    header_get-set "tracestate" "traceparent" "a=b" (entry "traceparent" (string "00") end)

consume-settles_example :
    let arrivals = delivery fresh ∷ delivery fresh ∷ closed ∷ [] in
    (v : List Call) × Consumed down (taken arrivals) [] v
    × (((consume down false arrivals []).1 ≡ v)
        ⊎ ((consume down false arrivals []).1 ≡ v ++ close_channel ∷ []))
consume-settles_example = consume-settles down (delivery fresh ∷ delivery fresh ∷ closed ∷ []) []

abbrev three_workers : Worker
three_workers = record { amqp_url = "amqp://rabbitmq"; count = pos 3 }

-- Nothing is refused.
abbrev open_door : List Start.Call → Start.Call → Option String
open_door t c = none
