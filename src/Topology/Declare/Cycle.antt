-- ===== src/Topology/Declare/Cycle.antt =====
-- topology.go, `DeclareQueues`: the way of a message that is rejected for a retry, and back.
use bunmq.Base.{String, true, ◌≡◌, some, arith}
use bunmq.Base.Int.{quot}
use bunmq.Base.Lists.{IsIn}
use bunmq.Amqp.Table.{Table, str, int64, lookup}
use bunmq.Queue.{QueueDefinition, dlq_name, retry_name}
use bunmq.Topology.Declare.{dlq_args, queue_args, retry_args}
use bunmq.Topology.Declare.Plan.{named_queue, queue_plan}

-- A queue declared with these arguments dead-letters to the queue of this name.
abbrev pub DeadLetters : Table → String → Type 0
DeadLetters args n =
    (lookup "x-dead-letter-exchange" args ≡ some (str ""))
    × (lookup "x-dead-letter-routing-key" args ≡ some (str n))

-- For a queue with retry and dead-lettering, the queue itself, its retry queue and its dead-letter
-- queue are declared; the queue dead-letters to the retry queue, the retry queue back to the
-- queue, after the retry time in whole milliseconds.
pub retry-cycle :
    (q : QueueDefinition)
    → q.with_retry ≡ true
    → q.with_dlq ≡ true
    → IsIn (named_queue q q.name (queue_args q)) (queue_plan q)
      × IsIn (named_queue q (retry_name q) (retry_args q)) (queue_plan q)
      × IsIn (named_queue q (dlq_name q) (dlq_args q)) (queue_plan q)
      × DeadLetters (queue_args q) (retry_name q)
      × DeadLetters (retry_args q) q.name
      × (lookup "x-message-ttl" (retry_args q) ≡ some (int64 (quot q.retry_ttl 1_000_000)))
retry-cycle q r d = ground arith
