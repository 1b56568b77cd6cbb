-- ===== src/Queue.antt =====
-- api-gateway/internal/queue/publisher.go: the topology of exchanges and queues, the publisher of
-- execution messages, and the header carrier that hands trace headers through the broker.
pub mod Headers
pub mod Topology
use workflow_automation_go_z.Common.{
  ℕ, String, Bool, true, if◌then◌else◌, Option, none, some, List, [], ◌∷◌, ℤ, pos, Action, pure,
  ask, tell, ◌>>=◌, ◌>>◌, ◌<>◌,
}
use workflow_automation_go_z.Json.{string_member, number_member}
use workflow_automation_go_z.Amqp.{
  Argument, string, int32, Entries, end, entry, Table, lookup, store, Publishing, Call, dial,
  open_channel, close_channel, close_connection, exchange_declare, queue_declare, queue_bind,
  publish, Broker,
}

-- AMQPHeaderCarrier
unfoldable pub header_get : Table → String → String
unfolding lookup
header_get c key = elim (lookup c key) [ some (string s) ↦ s | _ ↦ "" ]

-- `Set` writes into a table that is not nil.
unfoldable pub header_set : Entries → String → String → Entries
unfolding store
header_set c key val = store key (string val) c

unfoldable pub header_keys : Entries → List String
header_keys end = []
header_keys (entry k _ es) = k ∷ header_keys es

abbrev pub exchange : String
exchange = "workflows"

abbrev pub dlx : String
dlx = "workflows.dlx"

abbrev pub queue_run : String
queue_run = "execution.run"

abbrev pub queue_retry : String
queue_retry = "execution.retry"

abbrev pub routing_key_run : String
routing_key_run = "execution.run"

abbrev pub retry_ttl_ms : ℤ
retry_ttl_ms = pos 10000

abbrev pub max_retries : ℕ
max_retries = 3

pub record ExecutionMessage : Type 0 where
  pub execution_id : ℕ
  pub workflow_id : ℕ
  pub trigger_payload : String

-- `json.Marshal` of the message.
unfoldable pub encode_message : ExecutionMessage → String
unfolding string_member number_member
encode_message m =
    "{"
    <> number_member "executionId" m.execution_id
    <> ","
    <> number_member "workflowId" m.workflow_id
    <> ","
    <> string_member "triggerPayload" m.trigger_payload
    <> "}"

-- Which of the two pointers of a publisher are not nil.
pub record Publisher : Type 0 where
  pub has_ch : Bool
  pub has_conn : Bool

-- Both are set by `New`.
abbrev pub ready : Publisher
ready = record { has_ch = true; has_conn = true }

abbrev pub close : Publisher → Action Call (Unit {0})
close p = do
  if p.has_ch then tell close_channel else pure tt
  if p.has_conn then tell close_connection else pure tt

module _ (broker : Broker) where
  -- `if err := call; err != nil { return fmt.Errorf(prefix, err) }` in front of `rest`
  unfoldable pub attempt : Call → String → Action Call (Option String) → Action Call (Option String)
  attempt c prefix rest = do
    failed ← ask c (λ t. broker t c)
    elim failed [ some e ↦ pure (some (prefix <> ": " <> e)) | none ↦ rest ]

  -- `none` where everything is declared.
  unfoldable pub declare_topology : Action Call (Option String)
  unfolding attempt
  declare_topology = attempt (exchange_declare exchange "topic" true) "exchange \"workflows\"" (
      attempt (exchange_declare dlx "direct" true) "exchange \"workflows.dlx\"" (
        attempt
          (queue_declare queue_run true (
            some (
              entry "x-dead-letter-exchange" (string dlx)
                (entry "x-dead-letter-routing-key" (string routing_key_run) end))))
          "queue \"execution.run\""
          (attempt (queue_bind queue_run routing_key_run exchange) "bind \"execution.run\"" (
            attempt
              (queue_declare queue_retry true (
                some (
                  entry "x-message-ttl" (int32 retry_ttl_ms) (
                    entry "x-dead-letter-exchange" (string exchange)
                      (entry "x-dead-letter-routing-key" (string routing_key_run) end)))))
              "queue \"execution.retry\""
              (attempt (queue_bind queue_retry routing_key_run dlx) "bind \"execution.retry\""
                (pure none))))))

  -- `New`: the error, or `none` where the publisher is ready. A connection whose setup fails is
  -- closed.
  unfoldable pub new : String → Action Call (Option String)
  unfolding declare_topology
  new url = do
    failed ← ask (dial url) (λ t. broker t (dial url))
    elim failed [
      | some e ↦ pure (some ("amqp dial: " <> e))
      | none ↦ do
        no_channel ← ask open_channel (λ t. broker t open_channel)
        elim no_channel [
          | some e ↦ do tell close_connection; pure (some ("amqp channel: " <> e))
          | none ↦ do
            undeclared ← declare_topology
            elim undeclared [
              | some e ↦ do close ready; pure (some ("declare topology: " <> e))
              | none ↦ pure none
            ]
        ]
    ]

  -- `Publish`; `inject` is what the propagator writes into the empty header table.
  unfoldable pub publish_message :
      (Entries → Entries) → ExecutionMessage → Action Call (Option String)
  unfolding encode_message
  publish_message inject msg = do
    let c : Call = publish exchange routing_key_run (record {
      content_type = "application/json";
      persistent = true;
      body = encode_message msg;
      headers = some (inject end);
    })
    ask c (λ t. broker t c)
