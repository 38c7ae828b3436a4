-- ===== src/Topology.antt =====
-- topology.go: the topology that a program builds. How it is declared is in the child Declare.
pub mod Declare
pub mod Store
use bunmq.Base.{String, Option, none, some, List, [], ◌∷◌, ◌++◌}
use bunmq.Base.Dict
use bunmq.Base.Dict.{Dict}
use bunmq.Errors.{sentinel, not_found_queue_definition, Result, ok, err}
use bunmq.Queue.{QueueDefinition}
use bunmq.Exchange.{ExchangeDefinition}
use bunmq.Binding.{ExchangeBindingDefinition, QueueBindingDefinition}

-- The definitions are held by pointer in Go; here a topology holds them as they were when added.
pub record Topology : Type 0 where
  pub connection_string : String
  pub app_name : String
  pub queues : Dict QueueDefinition
  pub queues_binding : List QueueBindingDefinition
  pub exchanges : List ExchangeDefinition
  pub exchanges_binding : List ExchangeBindingDefinition

unfoldable pub new_topology : (app_name connection_string : String) → Topology
new_topology a c = record {
  connection_string = c;
  app_name = a;
  queues = [];
  queues_binding = [];
  exchanges = [];
  exchanges_binding = [];
}

unfoldable pub add_queue : QueueDefinition → Topology → Topology
add_queue q t = record t { queues = Dict.insert q.name q t.queues }

unfoldable pub add_queues : List QueueDefinition → Topology → Topology
unfolding add_queue
add_queues [] t = t
add_queues (q ∷ qs) t = add_queues qs (add_queue q t)

unfoldable pub get_queues_definition : Topology → Dict QueueDefinition
get_queues_definition t = t.queues

unfoldable pub get_queue_definition : String → Topology → Result QueueDefinition
get_queue_definition n t = elim (Dict.lookup n t.queues) [
  | some q ↦ ok q
  | none ↦ err (sentinel not_found_queue_definition)
]

unfoldable pub add_exchange : ExchangeDefinition → Topology → Topology
add_exchange e t = record t { exchanges = t.exchanges ++ e ∷ [] }

unfoldable pub add_exchanges : List ExchangeDefinition → Topology → Topology
add_exchanges es t = record t { exchanges = t.exchanges ++ es }

unfoldable pub add_exchange_binding : ExchangeBindingDefinition → Topology → Topology
add_exchange_binding b t = record t { exchanges_binding = t.exchanges_binding ++ b ∷ [] }

unfoldable pub add_queue_binding : QueueBindingDefinition → Topology → Topology
add_queue_binding b t = record t { queues_binding = t.queues_binding ++ b ∷ [] }
