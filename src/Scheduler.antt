-- ===== src/Scheduler.antt =====
-- scheduler-service/cron/scheduler.go: once a minute the scheduler reads the active workflows with a
-- schedule, and for each one whose cron expression fires it creates a pending execution and publishes
-- a message for the workers. Times are nanoseconds since Go's zero time; logging is left out.
pub mod Due
pub mod Triggers
pub mod Main
use workflow_automation_go_z.Common.{
  ℕ, ◌+◌, ◌-◌, ◌*◌, ◌%◌, String, Bool, true, false, Option, none, some, List, [], ◌∷◌, ℤ, pos, ltb,
  str_eq, if◌then◌else◌, Action, pure, ask, tell, ◌>>=◌, ◌>>◌, ◌<>◌,
}
use workflow_automation_go_z.Json.{string_member, number_member}
use workflow_automation_go_z.Amqp
use workflow_automation_go_z.Amqp.{
  string, int32, end, entry, Broker, dial, open_channel, close_channel, close_connection,
  exchange_declare, queue_declare, queue_bind, publish,
}

abbrev pub exchange : String
exchange = "workflows"

abbrev pub dlx : String
dlx = "workflows.dlx"

abbrev pub queue_run : String
queue_run = "execution.run"

abbrev pub queue_retry : String
queue_retry = "execution.retry"

abbrev pub routing_key_run : String
routing_key_run = "execution.run"

abbrev pub retry_ttl_ms : ℤ
retry_ttl_ms = pos 10000

-- `time.Second` and `time.Minute`
abbrev pub second : ℕ
second = 1000000000

abbrev pub minute : ℕ
minute = 60 * 1000000000

pub record ExecutionMessage : Type 0 where
  pub execution_id : ℕ
  pub workflow_id : ℕ
  pub trigger_payload : String

unfoldable pub encode_message : ExecutionMessage → String
unfolding string_member number_member
encode_message m =
    "{"
    <> number_member "executionId" m.execution_id
    <> ","
    <> number_member "workflowId" m.workflow_id
    <> ","
    <> string_member "triggerPayload" m.trigger_payload
    <> "}"

-- A row of the table of workflows that is active, has the trigger type "schedule" and is not deleted.
pub record Workflow : Type 0 where
  pub id : ℕ
  pub trigger_config : String

-- The row that is inserted.
pub record Execution : Type 0 where
  pub workflow_id : ℕ
  pub status : String
  pub started_at : ℕ
  pub trigger_payload : String

pub data Call : Type 0 where
  -- `trigger_type = ? AND is_active = ? AND deleted_at IS NULL`
  find_workflows : String → Bool → Call
  now : Call
  create_execution : Execution → Call
  amqp : Amqp.Call → Call

pub record World : Type 0 where
  -- `none` is an error of the database
  pub scheduled : List Call → Option (List Workflow)
  pub clock : List Call → ℕ
  -- the new row's id
  pub create : List Call → Execution → Option ℕ
  -- `json.Unmarshal` of a trigger's configuration, to its field `cron`
  pub decode_config : String → Option String
  -- `cron.ParseStandard`, to the method `Next`, which is the zero time where no time is left
  pub parse_standard : String → Option (ℕ → ℕ)

abbrev pub schedule_payload : String
schedule_payload = "{\"source\":\"schedule\"}"

-- The row that `trigger` inserts.
abbrev pub new_execution : Workflow → ℕ → Execution
new_execution wf started_at = record {
  workflow_id = wf.id;
  status = "pending";
  started_at = started_at;
  trigger_payload = schedule_payload;
}

-- `next.Before(now.Add(time.Second))` for the next time after the minute before `now`.
unfoldable pub is_due : (ℕ → ℕ) → ℕ → Bool
is_due next at = ltb (next (at - minute)) (at + second)

-- `t.Truncate(time.Minute)`
unfoldable pub truncate : ℕ → ℕ
truncate t = t - t % minute

module _ (w : World) where
  -- The message of an execution that has been created, or nothing where it has not.
  unfoldable pub announce : Workflow → Option ℕ → Action Call (Unit {0})
  unfolding encode_message
  announce wf none = pure tt
  announce wf (some id) = tell (
      amqp (
        publish exchange routing_key_run (record {
          content_type = "application/json";
          persistent = true;
          body = encode_message (record {
            execution_id = id;
            workflow_id = wf.id;
            trigger_payload = schedule_payload;
          });
          headers = none;
        })))

  unfoldable pub trigger : Workflow → Action Call (Unit {0})
  unfolding announce
  trigger wf = do
    started_at ← ask now w.clock
    created ←
        ask (create_execution (new_execution wf started_at))
          (λ t. w.create t (new_execution wf started_at))
    announce wf created

  -- The method `Next` of a workflow's cron expression, if its configuration has one that parses.
  unfoldable pub schedule_of : Workflow → Option (ℕ → ℕ)
  schedule_of wf = elim (w.decode_config wf.trigger_config) [
    | none ↦ none
    | some cron ↦ if str_eq cron "" then none else w.parse_standard cron
  ]

  -- Whether the loop triggers this workflow at the minute `at`.
  unfoldable pub fires : ℕ → Workflow → Bool
  unfolding schedule_of is_due
  fires at wf = elim (schedule_of wf) [ none ↦ false | some next ↦ is_due next at ]

  unfoldable pub trigger_due : ℕ → List Workflow → Action Call (Unit {0})
  unfolding fires trigger
  trigger_due at [] = pure tt
  trigger_due at (wf ∷ wfs) = do if fires at wf then trigger wf else pure tt; trigger_due at wfs

  unfoldable pub check_and_trigger : Action Call (Unit {0})
  unfolding trigger_due truncate
  check_and_trigger = do
    rows ← ask (find_workflows "schedule" true) w.scheduled
    elim rows [ none ↦ pure tt | some wfs ↦ do at ← ask now w.clock; trigger_due (truncate at) wfs ]

  -- `Run`: a check at the start, and one for each tick until the context is done.
  unfoldable pub run_ticks : ℕ → Action Call (Unit {0})
  run_ticks ℕ.zero = pure tt
  run_ticks (ℕ.suc ticks) = do check_and_trigger; run_ticks ticks

  unfoldable pub run : ℕ → Action Call (Unit {0})
  unfolding run_ticks
  run ticks = do check_and_trigger; run_ticks ticks

-- Which of the two pointers of a scheduler are not nil.
pub record Scheduler : Type 0 where
  pub has_ch : Bool
  pub has_conn : Bool

-- Both are set by `New`.
abbrev pub ready : Scheduler
ready = record { has_ch = true; has_conn = true }

abbrev pub close : Scheduler → Action Amqp.Call (Unit {0})
close s = do
  if s.has_ch then tell close_channel else pure tt
  if s.has_conn then tell close_connection else pure tt

module _ (broker : Broker) where
  unfoldable pub attempt :
      Amqp.Call → String → Action Amqp.Call (Option String) → Action Amqp.Call (Option String)
  attempt c prefix rest = do
    failed ← ask c (λ t. broker t c)
    elim failed [ some e ↦ pure (some (prefix <> ": " <> e)) | none ↦ rest ]

  unfoldable pub declare_topology : Action Amqp.Call (Option String)
  unfolding attempt
  declare_topology = attempt (exchange_declare exchange "topic" true) "exchange \"workflows\"" (
      attempt (exchange_declare dlx "direct" true) "exchange \"workflows.dlx\"" (
        attempt
          (queue_declare queue_run true (
            some (
              entry "x-dead-letter-exchange" (string dlx)
                (entry "x-dead-letter-routing-key" (string routing_key_run) end))))
          "queue \"execution.run\""
          (attempt (queue_bind queue_run routing_key_run exchange) "bind \"execution.run\"" (
            attempt
              (queue_declare queue_retry true (
                some (
                  entry "x-message-ttl" (int32 retry_ttl_ms) (
                    entry "x-dead-letter-exchange" (string exchange)
                      (entry "x-dead-letter-routing-key" (string routing_key_run) end)))))
              "queue \"execution.retry\""
              (attempt (queue_bind queue_retry routing_key_run dlx) "bind \"execution.retry\""
                (pure none))))))

  -- `New`: the error, or `none` where the scheduler is ready.
  unfoldable pub new : String → Action Amqp.Call (Option String)
  unfolding declare_topology
  new url = do
    failed ← ask (dial url) (λ t. broker t (dial url))
    elim failed [
      | some e ↦ pure (some ("amqp dial: " <> e))
      | none ↦ do
        no_channel ← ask open_channel (λ t. broker t open_channel)
        elim no_channel [
          | some e ↦ do tell close_connection; pure (some ("amqp channel: " <> e))
          | none ↦ do
            undeclared ← declare_topology
            elim undeclared [ some e ↦ do close ready; pure (some e) | none ↦ pure none ]
        ]
    ]
