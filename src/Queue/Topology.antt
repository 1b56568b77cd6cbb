-- ===== src/Queue/Topology.antt =====
-- The topology: the publisher and the scheduler declare the same one, and a message that a worker
-- hands back comes to the run queue again through the retry queue.
use workflow_automation_go_z.Common.{
  pos, String, Bool, true, false, ◌||◌, Option, none, some, List, [], ◌∷◌, ◌≡◌, refl, ◌>>=◌, str_eq,
  if◌then◌else◌, ◌&&◌,
}
use workflow_automation_go_z.Amqp.{
  Argument, string, int32, entry, end, Call, exchange_declare, queue_declare, queue_bind, Broker,
  lookup,
}
use workflow_automation_go_z.Queue
use workflow_automation_go_z.Queue.{exchange, dlx, queue_run, queue_retry, routing_key_run}
use workflow_automation_go_z.Scheduler

-- Against any broker, the publisher and the scheduler make the same declarations in the same order,
-- with the same error where one of them fails.
pub declare_topology-same :
    (broker : Broker) → Queue.declare_topology broker ≡ Scheduler.declare_topology broker
unfolding Queue.declare_topology Scheduler.declare_topology
declare_topology-same broker = refl

-- Whether a topic or a direct exchange is declared with this name, and whether a queue is.
abbrev pub has_exchange : List Call → String → Bool
has_exchange [] x = false
has_exchange (exchange_declare y kind durable ∷ t) x =
    let rest = has_exchange t x in
    (str_eq x y && (str_eq kind "topic" || str_eq kind "direct")) || rest
has_exchange (_ ∷ t) x = has_exchange t x

abbrev pub has_queue : List Call → String → Bool
has_queue [] q = false
has_queue (queue_declare p durable args ∷ t) q = let rest = has_queue t q in str_eq p q || rest
has_queue (_ ∷ t) q = has_queue t q

-- The queues among `all` that are bound to an exchange under a key. (The keys have no wildcards.)
abbrev pub bound : List Call → List Call → String → String → List String
bound all [] x k = []
bound all (queue_bind q j y ∷ t) x k =
    let rest = bound all t x k in
    if str_eq x y && (str_eq j k && has_queue all q) then q ∷ rest else rest
bound all (_ ∷ t) x k = bound all t x k

-- Where an exchange routes a message with a key, after these declarations.
abbrev pub route : List Call → String → String → List String
route all x k = if has_exchange all x then bound all all x k else []

abbrev text_of : Option Argument → String
text_of (some (string s)) = s
text_of _ = ""

-- The time in milliseconds after which a message of a queue expires, if there is one.
abbrev pub time_to_live : List Call → String → Option Argument
time_to_live [] q = none
time_to_live (queue_declare p durable args ∷ t) q =
    let rest = time_to_live t q in if str_eq p q then lookup args "x-message-ttl" else rest
time_to_live (_ ∷ t) q = time_to_live t q

-- Where a queue's dead letters go, those that are rejected and those that expire: the queues of its dead-letter exchange and key.
abbrev pub dead_letters : List Call → List Call → String → List String
dead_letters all [] q = []
dead_letters all (queue_declare p d args ∷ t) q =
    let rest = dead_letters all t q in
    if str_eq p q
    then route all (text_of (lookup args "x-dead-letter-exchange"))
        (text_of (lookup args "x-dead-letter-routing-key"))
    else rest
dead_letters all (_ ∷ t) q = dead_letters all t q

-- A declaration without errors.
abbrev pub AcceptsAll : Broker → Type 0
AcceptsAll broker = (t : List Call) (c : Call) → broker t c ≡ none

module _ (broker : Broker) (fine : AcceptsAll broker) where
  -- The six declarations that are made where none fails.
  abbrev pub declared : List Call
  declared =
      exchange_declare exchange "topic" true
      ∷ exchange_declare dlx "direct" true
      ∷ queue_declare queue_run true (
          some (
            entry "x-dead-letter-exchange" (string dlx)
              (entry "x-dead-letter-routing-key" (string routing_key_run) end)))
      ∷ queue_bind queue_run routing_key_run exchange
      ∷ queue_declare queue_retry true (
          some (
            entry "x-message-ttl" (int32 (pos 10000)) (
              entry "x-dead-letter-exchange" (string exchange)
                (entry "x-dead-letter-routing-key" (string routing_key_run) end))))
      ∷ queue_bind queue_retry routing_key_run dlx
      ∷ []

  declare_topology-declared : Queue.declare_topology broker [] ≡ (none, declared)
  unfolding Queue.declare_topology ◌>>=◌
  declare_topology-declared = simp fine

  -- Where the broker accepts every declaration, a message published with the run key reaches the run
  -- queue alone, where none expires; one that is rejected from it goes to the retry queue alone; and
  -- a message of the retry queue expires after 10000 ms and goes back to the run queue alone.
  -- Routing takes an exchange that is declared, with a kind that compares keys, and queues that are.
  pub declare_topology-routes :
      let r = Queue.declare_topology broker [] in
      (r.0 ≡ none)
      × (route r.1 exchange routing_key_run ≡ queue_run ∷ [])
      × (time_to_live r.1 queue_run ≡ none)
      × (dead_letters r.1 r.1 queue_run ≡ queue_retry ∷ [])
      × (time_to_live r.1 queue_retry ≡ some (int32 (pos 10000)))
      × (dead_letters r.1 r.1 queue_retry ≡ queue_run ∷ [])
  declare_topology-routes =
      rw declare_topology-declared (unfold lookup in (refl, refl, refl, refl, refl, refl))
