-- ===== src/Amqp.antt =====
-- What the program uses of RabbitMQ through amqp091-go: header tables, and the calls on a connection
-- and a channel. The broker itself is not code of the repository: whether a call fails is a
-- parameter of the functions that make it.
use workflow_automation_go_z.Common.{
  String, Bool, Option, none, some, List, ℤ, str_eq, if◌then◌else◌,
}

mutual
  pub data Argument : Type 0 where
    string : String → Argument
    int32 : ℤ → Argument
    int64 : ℤ → Argument
    array : Arguments → Argument
    table : Entries → Argument
    other_argument : Argument

  pub data Arguments : Type 0 where
    nil : Arguments
    cons : Argument → Arguments → Arguments

  pub data Entries : Type 0 where
    end : Entries
    entry : String → Argument → Entries → Entries

-- `amqp.Table`; `none` is the nil table.
abbrev pub Table : Type 0
Table = Option Entries

unfoldable pub find : String → Entries → Option Argument
find k end = none
find k (entry j v es) = if str_eq j k then some v else find k es

-- `v, ok := t[k]`
unfoldable pub lookup : Table → String → Option Argument
unfolding find
lookup none k = none
lookup (some es) k = find k es

unfoldable pub store : String → Argument → Entries → Entries
store k v end = entry k v end
store k v (entry j u es) = if str_eq j k then entry j v es else entry j u (store k v es)

-- `amqp.Publishing`
pub record Publishing : Type 0 where
  pub content_type : String
  pub persistent : Bool
  pub body : String
  pub headers : Table

pub data Call : Type 0 where
  dial : String → Call
  open_channel : Call
  close_channel : Call
  close_connection : Call
  -- name and kind, and that it is durable
  exchange_declare : String → String → Bool → Call
  queue_declare : String → Bool → Table → Call
  -- queue, routing key and exchange
  queue_bind : String → String → String → Call
  -- exchange, routing key and message
  publish : String → String → Publishing → Call

-- The error of a call, after the calls before it.
abbrev pub Broker : Type 0
Broker = List Call → Call → Option String
