-- ===== src/Topology/Declare.antt =====
-- topology.go: `DeclareAndBindings` and the four loops that it runs, on a channel. A run returns
-- its error, the calls that it made on the channel in order, and the outside state.
pub mod Plan
pub mod Order
pub mod Arguments
pub mod Cycle
pub mod Mocked
use bunmq.Base.{String, Bool, true, false, ◌&&◌, not, Option, none, some, List, [], ◌∷◌, ◌++◌}
use bunmq.Base.{if◌then◌else◌}
use bunmq.Base.Int.{quot}
use bunmq.Errors.{Error, sentinel, nullable_channel}
use bunmq.Amqp.Table.{Table, str, int64, empty, insert, erase}
use bunmq.Amqp.Channel.{
  AmqpChannel, Declaration, exchange_declare, queue_declare, queue_bind, exchange_bind,
}
use bunmq.Queue.{QueueDefinition, queue_type, dlq_name, retry_name}
use bunmq.Exchange.{ExchangeDefinition}
use bunmq.Binding.{ExchangeBindingDefinition, QueueBindingDefinition}
use bunmq.Topology.{Topology}

abbrev pub Run : Type 0 → Type 0
Run W = W → Option Error × List Declaration × W

module _ {W : Type 0} where
  abbrev pub done : Run W
  done w = (none, [], w)

  -- `if err := …; err != nil { return err }`, and then the rest.
  infixr 5 ◌>>◌
  abbrev pub ◌>>◌ : Run W → Run W → Run W
  ◌>>◌ m k w =
      let (e, ds, w') = m w in
      elim e [
        | some x ↦ (some x, ds, w')
        | none ↦ let (e', ds', w'') = k w' in (e', ds ++ ds', w'')
      ]

  abbrev pub declare : AmqpChannel W → Declaration → Run W
  declare ch x w = let (e, w') = ch.declare x w in (e, x ∷ [], w')

-- The arguments of the retry queue: its messages expire back into the queue.
abbrev pub retry_args : QueueDefinition → Table
retry_args q = insert "x-queue-type" (str (queue_type q)) (
    insert "x-retry-count" (int64 q.retries) (
      insert "x-message-ttl" (int64 (quot q.retry_ttl 1_000_000)) (
        insert "x-dead-letter-routing-key" (str q.name)
          (insert "x-dead-letter-exchange" (str "") empty))))

-- `amqpDlqDeclarationOpts` as it stands when the dead-letter queue is declared.
abbrev pub dlq_args : QueueDefinition → Table
dlq_args q =
    let t = insert "x-queue-type" (str (queue_type q)) empty in
    let t =
      if q.with_dlq && q.with_retry
      then insert "x-dead-letter-routing-key" (str (retry_name q))
          (insert "x-dead-letter-exchange" (str "") t)
      else t in
    let t =
      if q.with_dlq && not q.with_retry
      then insert "x-dead-letter-routing-key" (str (dlq_name q))
          (insert "x-dead-letter-exchange" (str "") t)
      else t in
    if q.with_dlq_max_length then insert "x-max-length" (int64 q.dlq_max_length) t else t

-- The same table when the queue itself is declared: the code drops the length after it has declared
-- a dead-letter queue.
abbrev pub queue_args : QueueDefinition → Table
queue_args q =
    let t = if q.with_dlq then erase "x-max-length" (dlq_args q) else dlq_args q in
    if q.with_max_length then insert "x-max-length" (int64 q.max_length) t else t

module _ {W : Type 0} (ch : AmqpChannel W) where
  abbrev pub declare_with : QueueDefinition → String → Table → Run W
  declare_with q n args = declare ch (queue_declare n q.durable q.delete q.exclusive false args)

  -- One round of the loop of `DeclareQueues`.
  declare_queue : QueueDefinition → Run W
  declare_queue q =
      (if q.with_retry then declare_with q (retry_name q) (retry_args q) else done)
      >> (if q.with_dlq then declare_with q (dlq_name q) (dlq_args q) else done)
      >> declare_with q q.name (queue_args q)

  -- `order` is the order in which Go happens to range over the map of queues.
  unfoldable pub declare_queues : (order : List QueueDefinition) → Run W
  unfolding declare_queue
  declare_queues [] = done
  declare_queues (q ∷ qs) = declare_queue q >> declare_queues qs

  unfoldable pub declare_exchanges : List ExchangeDefinition → Run W
  declare_exchanges [] = done
  declare_exchanges (e ∷ es) =
      declare ch (exchange_declare e.name e.kind e.durable e.delete false false e.params)
      >> declare_exchanges es

  unfoldable pub bind_queues : List QueueBindingDefinition → Run W
  bind_queues [] = done
  bind_queues (b ∷ bs) =
      declare ch (queue_bind b.queue b.routing_key b.exchange false b.args) >> bind_queues bs

  unfoldable pub bind_exchanges : List ExchangeBindingDefinition → Run W
  bind_exchanges [] = done
  bind_exchanges (b ∷ bs) =
      declare ch (exchange_bind b.destination b.routing_key b.source false b.args)
      >> bind_exchanges bs

-- A nil channel is `none`.
unfoldable pub declare_and_bindings :
    {W : Type 0} → Option (AmqpChannel W) → (order : List QueueDefinition) → Topology → Run W
declare_and_bindings none order t w = (some (sentinel nullable_channel), [], w)
declare_and_bindings (some ch) order t w =
    (declare_exchanges ch t.exchanges
        >> declare_queues ch order
        >> bind_queues ch t.queues_binding
        >> bind_exchanges ch t.exchanges_binding)
      w
