-- ===== src/Topology/Declare/Arguments.antt =====
-- topology.go, `DeclareQueues`: the arguments with which the queues are declared.
use bunmq.Base.{◌≡◌, none, some, arith, if◌then◌else◌}
use bunmq.Amqp.Table.{str, int64, lookup}
use bunmq.Queue.{QueueDefinition, dlq_name, retry_name}
use bunmq.Topology.Declare.{dlq_args, queue_args}

-- Where a rejected message of the queue goes: to the retry queue where there is retry and
-- dead-lettering, to the dead-letter queue where there is only that, and nowhere without
-- dead-lettering, retry or not.
pub queue-dead_letters :
    (q : QueueDefinition)
    → (lookup "x-dead-letter-routing-key" (queue_args q) ≡ (
        if q.with_dlq
        then some (str (if q.with_retry then retry_name q else dlq_name q))
        else none))
      × (lookup "x-dead-letter-exchange" (queue_args q)
          ≡ (if q.with_dlq then some (str "") else none))
queue-dead_letters q = ground arith

-- The length limit of the queue itself: its own, or the dead-letter queue's where that is set
-- and there is no dead-letter queue.
pub queue-max_length :
    (q : QueueDefinition)
    → lookup "x-max-length" (queue_args q) ≡ (
        if q.with_max_length
        then some (int64 q.max_length)
        else if q.with_dlq
        then none
        else if q.with_dlq_max_length
        then some (int64 q.dlq_max_length)
        else none)
queue-max_length q = ground arith

-- The dead-letter queue dead-letters like the queue does, and has its own limit.
pub dlq-dead_letters :
    (q : QueueDefinition)
    → (lookup "x-dead-letter-routing-key" (dlq_args q)
        ≡ lookup "x-dead-letter-routing-key" (queue_args q))
      × (lookup "x-max-length" (dlq_args q)
          ≡ (if q.with_dlq_max_length then some (int64 q.dlq_max_length) else none))
dlq-dead_letters q = ground arith

-- No time-to-live of a queue is ever declared.
pub queue-no_ttl : (q : QueueDefinition) → lookup "x-message-ttl" (queue_args q) ≡ none
queue-no_ttl q = ground arith
