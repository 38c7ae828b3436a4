-- ===== src/Dispatcher.antt =====
-- dispatcher.go: the types of the dispatcher and its constructor. Its operations are in the
-- children: registering (Registry), reading a delivery (Metadata), choosing a consumer (Select)
-- and processing a message (Process).
pub mod Registry
pub mod Metadata
pub mod Select
pub mod Process
pub mod Consume
pub mod System
pub mod Lifetime
pub mod Tags
use bunmq.Base.{ℕ, String, Bool, false, Option, List, [], ◌∷◌}
use bunmq.Base.Dict
use bunmq.Base.Dict.{Dict}
use bunmq.Base.Int.{ℤ, pos}
use bunmq.Base.Runs.{Run}
use bunmq.Errors.{Error, Result}
use bunmq.GoType.{GoType}
use bunmq.Queue.{QueueDefinition}
use bunmq.Amqp.Table.{Table}
use bunmq.Amqp.Channel.{AmqpChannel}

-- A Go `int`, so a value may be none of the four constants; `unknown` stands for the rest.
pub data ConsumerDefinitionType : Type 0 where
  by_type by_exchange by_routing_key by_exchange_routing_key : ConsumerDefinitionType
  unknown : ℤ → ConsumerDefinitionType

abbrev pub type_number : ConsumerDefinitionType → ℤ
type_number by_type = pos 1
type_number by_exchange = pos 2
type_number by_routing_key = pos 3
type_number by_exchange_routing_key = pos 4
type_number (unknown n) = n

-- Is the kind one of the four constants?
abbrev pub IsKnown : ConsumerDefinitionType → Type 0
IsKnown (unknown n) = ⊥
IsKnown _ = Unit

pub record DeliveryMetadata : Type 0 where
  pub message_id : String
  pub x_count : ℤ
  pub typ : String
  pub origin_exchange : String
  pub routing_key : String
  pub headers : Table

-- What the code relies on from `ConnectionManager`, over the outside state `W`.
pub record Manager (W : Type 0) : Type 0 where
  pub get_channel : W → Result (AmqpChannel W) × W

-- A handler is user code: it sees the decoded message and the metadata, may act outside, and returns
-- an error or none, or panics.
abbrev pub ConsumerHandler : Type 0 → Type 0 → Type 0
ConsumerHandler W Payload = Payload → DeliveryMetadata → W → Run (Option Error) × W

-- `reflect` keeps the type from which a fresh value is made for each message. A nil handler is not
-- refused when it is registered, so it is `none`.
pub record ConsumerDefinition (W Payload : Type 0) : Type 0 where
  pub typ : ConsumerDefinitionType
  pub queue : String
  pub exchange : String
  pub routing_key : String
  pub msg_type : String
  pub reflect : GoType
  pub handler : Option (ConsumerHandler W Payload)

pub record Dispatcher (W Payload : Type 0) : Type 0 where
  pub queue_definitions : Dict QueueDefinition
  pub consumers_definition : Dict (List (ConsumerDefinition W Payload))
  pub consuming : Bool

-- The loop of `NewDispatcher`: a later definition of the same name replaces an earlier one.
abbrev pub add_queues : List QueueDefinition → Dict QueueDefinition → Dict QueueDefinition
add_queues [] m = m
add_queues (q ∷ qs) m = add_queues qs (Dict.insert q.name q m)

unfoldable pub new_dispatcher : {W Payload : Type 0} → List QueueDefinition → Dispatcher W Payload
new_dispatcher qs = record {
  queue_definitions = add_queues qs [];
  consumers_definition = [];
  consuming = false;
}
