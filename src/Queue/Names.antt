-- ===== src/Queue/Names.antt =====
-- queue.go: the names of the queues that are declared beside a queue.
use text.Mathlib.TextLemmas.{append_cancel_left, append-nil}
use bunmq.Base.{◌≢◌, String, ◌<>◌, sym, ◌∙◌, arith, eq_iff}
use bunmq.Queue.{QueueDefinition, dlq_name, retry_name}

suffix_ne : (s t : String) → t ≢ "" → s <> t ≢ s
suffix_ne s t h e = h (append_cancel_left s t "" (e ∙ sym (append-nil s)))

-- The three queues of one definition have three names.
pub names_differ :
    (q : QueueDefinition)
    → (retry_name q ≢ q.name) × (dlq_name q ≢ q.name) × (retry_name q ≢ dlq_name q)
unfolding retry_name dlq_name
names_differ q = (
  suffix_ne q.name "-retry" (ground (arith, eq_iff "-retry" "")),
  suffix_ne q.name "-dlq" (ground (arith, eq_iff "-dlq" "")),
  λ e. ground (arith, eq_iff "-retry" "-dlq", append_cancel_left q.name "-retry" "-dlq" e),
)
