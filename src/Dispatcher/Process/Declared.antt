-- ===== src/Dispatcher/Process/Declared.antt =====
-- dispatcher.go against topology.go: where the messages that are dead-lettered go.
use bunmq.Base.{String, true, ◌≡◌, arith}
use bunmq.Base.Lists.{All, All-imp, IsIn}
use bunmq.Errors.{Result}
use bunmq.GoType.{GoType}
use bunmq.Queue.{QueueDefinition, dlq_name}
use bunmq.Queue.Built.{Built, Built-IsConsistent}
use bunmq.Amqp.Channel.{Delivery}
use bunmq.Topology.Declare.{dlq_args}
use bunmq.Topology.Declare.Plan.{named_queue, queue_plan}
use bunmq.Dispatcher.{Manager, Dispatcher}
use bunmq.Dispatcher.Process.{Action, publish, process_received_message}
use bunmq.Dispatcher.Process.Settlement.{IsPermitted, process-IsPermitted}

-- What is published goes through the default exchange to a dead-letter queue that is declared for
-- `q`.
abbrev pub FindsQueue : {Payload : Type 0} → QueueDefinition → Action Payload → Type 0
FindsQueue q (publish exchange key _ _ _) =
    (exchange ≡ "") × IsIn (named_queue q key (dlq_args q)) (queue_plan q)
FindsQueue q _ = Unit

dlq-IsIn :
    (q : QueueDefinition)
    → q.with_dlq ≡ true
    → IsIn (named_queue q (dlq_name q) (dlq_args q)) (queue_plan q)
dlq-IsIn q d = ground arith

permitted-FindsQueue :
    {Payload : Type 0} (q : QueueDefinition) (d : Delivery)
    → Built q
    → q.with_dlq ≡ true
    → (a : Action Payload) → IsPermitted q d a
    → FindsQueue q a
permitted-FindsQueue q d v e (publish x k m i p) h =
    (h.0, ground (arith, (Built-IsConsistent v).dead_letter_name, dlq-IsIn q e))
permitted-FindsQueue q d v e _ h = tt

module _ {W Payload : Type 0} (manager : Manager W) (unmarshal : String → GoType → Result Payload)
    (s : Dispatcher W Payload) (q : QueueDefinition) (d : Delivery) (w : W) where
  -- On a queue that was built with dead-lettering, every message that a run publishes goes through
  -- the default exchange to the dead-letter queue that the topology declares for this queue.
  pub process-FindsQueue :
      Built q
      → q.with_dlq ≡ true
      → All (FindsQueue q) (process_received_message manager unmarshal s q d w).1
  process-FindsQueue v e =
      All-imp (permitted-FindsQueue q d v e) _ (process-IsPermitted manager unmarshal s q d w).2
