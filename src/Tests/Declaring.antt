-- ===== src/Tests/Declaring.antt =====
-- topology.go and queue.go: examples.
use mathlib.Core.List.{Perm}
use mathlib.Core.List.Perm
use bunmq.Base.{◌≡◌, refl, none, some, [], ◌∷◌}
use bunmq.Base.Int.{pos}
use bunmq.Amqp.Table.{int64, lookup}
use bunmq.Queue.{new_queue, set_dlq, set_retry, dlq_name, retry_name}
use bunmq.Topology.{Topology, new_topology, add_queues}
use bunmq.Topology.Declare.{
  retry_args, queue_args, dlq_args, declare_and_bindings, declare_exchanges, declare_queues,
  bind_queues, bind_exchanges,
}
use bunmq.Topology.Declare.Plan.{named_queue, queue_plan, carry_out, plan, declare-carries_out}
use bunmq.Topology.Declare.Order.{Ended, declare-Ended, declare-perm}
use bunmq.Topology.Declare.Arguments.{queue-dead_letters}
use bunmq.Topology.Declare.Cycle.{DeadLetters, retry-cycle}
use bunmq.Base.Lists.{IsIn}
use bunmq.Queue.{dlq_name, retry_name}
use bunmq.Tests.{shop_channel, orders, returns}

abbrev shop_topology : Topology
shop_topology = add_queues (orders ∷ returns ∷ []) (new_topology "shop" "amqp://localhost")

declare-carries_out_example :
    declare_and_bindings (some shop_channel) (orders ∷ returns ∷ []) shop_topology 0
    ≡ carry_out shop_channel (plan (orders ∷ returns ∷ []) shop_topology) 0
declare-carries_out_example =
    declare-carries_out shop_channel (orders ∷ returns ∷ []) shop_topology 0

declare-Ended_example :
    let (e, ds, w') =
      declare_and_bindings (some shop_channel) (orders ∷ returns ∷ []) shop_topology 0 in
    Ended shop_channel (plan (orders ∷ returns ∷ []) shop_topology) 0 e ds w'
declare-Ended_example = declare-Ended shop_channel (orders ∷ returns ∷ []) shop_topology 0

declare-perm_example :
    Perm
      (declare_and_bindings (some shop_channel) (orders ∷ returns ∷ []) shop_topology 0).1
      (declare_and_bindings (some shop_channel) (returns ∷ orders ∷ []) shop_topology 5).1
unfolding declare_and_bindings declare_exchanges declare_queues bind_queues bind_exchanges
    add_queues new_topology new_queue set_dlq set_retry
declare-perm_example =
    declare-perm shop_channel shop_channel shop_topology 0 5 (Perm.swap returns orders []) refl refl

queue-dead_letters_example :
    (lookup "x-dead-letter-routing-key" (queue_args returns) ≡ none)
    × (lookup "x-dead-letter-exchange" (queue_args returns) ≡ none)
unfolding new_queue set_retry
queue-dead_letters_example = queue-dead_letters returns

retry-cycle_example :
    IsIn (named_queue orders orders.name (queue_args orders)) (queue_plan orders)
    × IsIn (named_queue orders (retry_name orders) (retry_args orders)) (queue_plan orders)
    × IsIn (named_queue orders (dlq_name orders) (dlq_args orders)) (queue_plan orders)
    × DeadLetters (queue_args orders) (retry_name orders)
    × DeadLetters (retry_args orders) orders.name
    × (lookup "x-message-ttl" (retry_args orders) ≡ some (int64 (pos 1_000)))
unfolding new_queue set_dlq set_retry
retry-cycle_example = retry-cycle orders refl refl
