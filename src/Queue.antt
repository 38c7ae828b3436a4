-- ===== src/Queue.antt =====
-- queue.go: the definition of a queue and its builder methods. A method changes its receiver in
-- place and returns it; here it returns the new definition.
pub mod Names
pub mod Built
use bunmq.Base.{String, ◌<>◌, Bool, true, false, if◌then◌else◌}
use bunmq.Base.Int.{ℤ, pos}

pub record QueueDefinition : Type 0 where
  pub name : String
  pub quorum : Bool
  pub durable : Bool
  pub delete : Bool
  pub exclusive : Bool
  pub with_ttl : Bool
  pub ttl : ℤ  -- nanoseconds
  pub with_max_length : Bool
  pub max_length : ℤ
  pub with_dlq : Bool
  pub dql_name : String
  pub with_dlq_max_length : Bool
  pub dlq_max_length : ℤ
  pub with_retry : Bool
  pub retry_ttl : ℤ  -- nanoseconds
  pub retries : ℤ

unfoldable pub new_queue : String → QueueDefinition
new_queue n = record {
  name = n;
  quorum = false;
  durable = true;
  delete = false;
  exclusive = false;
  with_ttl = false;
  ttl = pos 0;
  with_max_length = false;
  max_length = pos 0;
  with_dlq = false;
  dql_name = "";
  with_dlq_max_length = false;
  dlq_max_length = pos 0;
  with_retry = false;
  retry_ttl = pos 0;
  retries = pos 0;
}

unfoldable pub set_durable : Bool → QueueDefinition → QueueDefinition
set_durable d q = record q { durable = d }

unfoldable pub set_delete : Bool → QueueDefinition → QueueDefinition
set_delete d q = record q { delete = d }

unfoldable pub set_exclusive : Bool → QueueDefinition → QueueDefinition
set_exclusive e q = record q { exclusive = e }

unfoldable pub set_max_length : ℤ → QueueDefinition → QueueDefinition
set_max_length n q = record q { with_max_length = true; max_length = n }

unfoldable pub set_ttl : ℤ → QueueDefinition → QueueDefinition
set_ttl t q = record q { with_ttl = true; ttl = t }

unfoldable pub set_dlq : QueueDefinition → QueueDefinition
set_dlq q = record q { with_dlq = true; dql_name = q.name <> "-dlq" }

unfoldable pub set_dlq_max_length : ℤ → QueueDefinition → QueueDefinition
set_dlq_max_length n q = record q { with_dlq_max_length = true; dlq_max_length = n }

unfoldable pub set_retry : ℤ → ℤ → QueueDefinition → QueueDefinition
set_retry t n q = record q { with_retry = true; retry_ttl = t; retries = n }

unfoldable pub set_quorum : QueueDefinition → QueueDefinition
set_quorum q = record q { quorum = true }

unfoldable pub queue_type : QueueDefinition → String
queue_type q = if q.quorum then "quorum" else "classic"

unfoldable pub dlq_name : QueueDefinition → String
dlq_name q = q.name <> "-dlq"

unfoldable pub retry_name : QueueDefinition → String
retry_name q = q.name <> "-retry"
