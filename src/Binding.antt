-- ===== src/Binding.antt =====
-- binding.go: the bindings of a queue and of an exchange to an exchange, and their builder methods.
use bunmq.Base.{String}
use bunmq.Amqp.Table.{Table, empty}

pub record ExchangeBindingDefinition : Type 0 where
  pub source : String
  pub destination : String
  pub routing_key : String
  pub args : Table

pub record QueueBindingDefinition : Type 0 where
  pub routing_key : String
  pub queue : String
  pub exchange : String
  pub args : Table

unfoldable pub new_exchange_biding : ExchangeBindingDefinition
new_exchange_biding = record { source = ""; destination = ""; routing_key = ""; args = empty }

unfoldable pub new_queue_binding : QueueBindingDefinition
new_queue_binding = record { routing_key = ""; queue = ""; exchange = ""; args = empty }

unfoldable pub set_queue_routing_key : String → QueueBindingDefinition → QueueBindingDefinition
set_queue_routing_key k b = record b { routing_key = k }

unfoldable pub set_queue : String → QueueBindingDefinition → QueueBindingDefinition
set_queue n b = record b { queue = n }

unfoldable pub set_exchange : String → QueueBindingDefinition → QueueBindingDefinition
set_exchange n b = record b { exchange = n }

unfoldable pub set_queue_args : Table → QueueBindingDefinition → QueueBindingDefinition
set_queue_args a b = record b { args = a }

unfoldable pub set_source : String → ExchangeBindingDefinition → ExchangeBindingDefinition
set_source n b = record b { source = n }

unfoldable pub set_destination : String → ExchangeBindingDefinition → ExchangeBindingDefinition
set_destination n b = record b { destination = n }

unfoldable pub set_exchange_routing_key :
    String → ExchangeBindingDefinition → ExchangeBindingDefinition
set_exchange_routing_key k b = record b { routing_key = k }

unfoldable pub set_exchange_args : Table → ExchangeBindingDefinition → ExchangeBindingDefinition
set_exchange_args a b = record b { args = a }
