-- ===== src/Queue/Built.antt =====
-- queue.go: what holds of every definition that the builder methods make.
use bunmq.Base.{String, Bool, true, ◌≡◌, ◌⊎◌, arith, if◌then◌else◌}
use bunmq.Base.Int.{ℤ, pos}
use bunmq.Queue.{
  QueueDefinition, new_queue, set_durable, set_delete, set_exclusive, set_max_length, set_ttl,
  set_dlq, set_dlq_max_length, set_retry, set_quorum, dlq_name,
}

-- A definition that `NewQueue` and the builder methods make, in any order.
pub data Built : QueueDefinition → Type 0 where
  new : (n : String) → Built (new_queue n)
  durable : (b : Bool) {q : QueueDefinition} → Built q → Built (set_durable b q)
  delete : (b : Bool) {q : QueueDefinition} → Built q → Built (set_delete b q)
  exclusive : (b : Bool) {q : QueueDefinition} → Built q → Built (set_exclusive b q)
  max_length : (n : ℤ) {q : QueueDefinition} → Built q → Built (set_max_length n q)
  ttl : (t : ℤ) {q : QueueDefinition} → Built q → Built (set_ttl t q)
  dlq : {q : QueueDefinition} → Built q → Built (set_dlq q)
  dlq_max_length : (n : ℤ) {q : QueueDefinition} → Built q → Built (set_dlq_max_length n q)
  retry : (t n : ℤ) {q : QueueDefinition} → Built q → Built (set_retry t n q)
  quorum : {q : QueueDefinition} → Built q → Built (set_quorum q)

-- The settings that go together: the name to which the dispatcher dead-letters is that of the
-- declared dead-letter queue, or empty where there is none, and what is not enabled is zero.
pub record IsConsistent (q : QueueDefinition) : Type 0 where
  pub dead_letter_name : q.dql_name ≡ (if q.with_dlq then dlq_name q else "")
  pub no_retry : (q.with_retry ≡ true) ⊎ ((q.retries ≡ pos 0) × (q.retry_ttl ≡ pos 0))
  pub no_limit : (q.with_max_length ≡ true) ⊎ (q.max_length ≡ pos 0)
  pub no_dlq_limit : (q.with_dlq_max_length ≡ true) ⊎ (q.dlq_max_length ≡ pos 0)
  pub no_ttl : (q.with_ttl ≡ true) ⊎ (q.ttl ≡ pos 0)

-- Every definition that is built is consistent.
pub Built-IsConsistent : {q : QueueDefinition} → Built q → IsConsistent q
unfolding new_queue set_durable set_delete set_exclusive set_max_length set_ttl set_dlq
    set_dlq_max_length set_retry set_quorum dlq_name
Built-IsConsistent (new n) = ground arith
Built-IsConsistent (durable b v) = ground (arith, Built-IsConsistent v)
Built-IsConsistent (delete b v) = ground (arith, Built-IsConsistent v)
Built-IsConsistent (exclusive b v) = ground (arith, Built-IsConsistent v)
Built-IsConsistent (max_length n v) = ground (arith, Built-IsConsistent v)
Built-IsConsistent (ttl t v) = ground (arith, Built-IsConsistent v)
Built-IsConsistent (dlq v) = ground (arith, Built-IsConsistent v)
Built-IsConsistent (dlq_max_length n v) = ground (arith, Built-IsConsistent v)
Built-IsConsistent (retry t n v) = ground (arith, Built-IsConsistent v)
Built-IsConsistent (quorum v) = ground (arith, Built-IsConsistent v)
