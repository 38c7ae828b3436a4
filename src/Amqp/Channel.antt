-- ===== src/Amqp/Channel.antt =====
-- channel.go: the interface `AMQPChannel`, over the state of what is outside the library, and the
-- two message types that pass through it.
use bunmq.Base.{ℕ, String, Bool, Option, List}
use bunmq.Base.Int.{ℤ}
use bunmq.Errors.{Error, Result}
use bunmq.Amqp.Table.{Table}

-- `amqp.Publishing`, the fields that the code sets; the body is opaque bytes.
pub record Publishing : Type 0 where
  pub headers : Table
  pub typ : String
  pub content_type : String
  pub delivery_mode : ℕ  -- uint8
  pub message_id : String
  pub user_id : String
  pub app_id : String
  pub body : String

-- `amqp.Delivery`, the fields that the code reads.
pub record Delivery : Type 0 where
  pub headers : Table
  pub typ : String
  pub content_type : String
  pub message_id : String
  pub user_id : String
  pub app_id : String
  pub exchange : String
  pub routing_key : String
  pub body : String

-- The calls of an `AMQPChannel` that declare and bind, as the client library gets them.
pub data Declaration : Type 0 where
  exchange_declare :
      (name kind : String) (durable auto_delete internal no_wait : Bool) (args : Table)
      → Declaration
  queue_declare :
      (name : String) (durable auto_delete exclusive no_wait : Bool) (args : Table) → Declaration
  queue_bind : (name key exchange : String) (no_wait : Bool) (args : Table) → Declaration
  exchange_bind : (destination key source : String) (no_wait : Bool) (args : Table) → Declaration

-- What comes through a Go channel of deliveries, and whether the channel is closed behind it; one
-- that is not closed keeps its receiver waiting.
abbrev pub Incoming : Type 0
Incoming = List Delivery × Bool

-- A channel, over the outside state `W` that its calls read and change. A deferred confirmation is
-- a handle, and nil on a channel that is not in confirm mode.
pub record AmqpChannel (W : Type 0) : Type 0 where
  pub declare : Declaration → W → Option Error × W
  pub publish :
      (exchange key : String) (mandatory immediate : Bool) → Publishing → W → Option Error × W
  pub publish_with_deferred_confirm :
      (exchange key : String) (mandatory immediate : Bool) → Publishing → W → Result (Option ℕ) × W
  pub consume :
      (queue consumer : String) (auto_ack exclusive no_local no_wait : Bool) (args : Table)
      → W
      → Result Incoming × W
  pub qos : ℤ → ℤ → Bool → W → Option Error × W
