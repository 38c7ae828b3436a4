-- ===== src/Topology/Store.antt =====
-- topology.go: the queues that a topology holds.
use bunmq.Base.{String, ◌≡◌, refl, Option, none, some, List, [], ◌∷◌, arith, ◌==◌, if◌then◌else◌}
use bunmq.Base.Dict.{lookup-insert}
use bunmq.Errors.{ok}
use bunmq.Queue.{QueueDefinition}
use bunmq.Topology.{Topology, add_queue, add_queues, get_queue_definition}

-- The last definition of a name in a list.
abbrev pub last_named : String → List QueueDefinition → Option QueueDefinition
last_named n [] = none
last_named n (q ∷ qs) = elim (last_named n qs) [
  | some r ↦ some r
  | none ↦ if q.name == n then some q else none
]

get-add_queue :
    (n : String) (q : QueueDefinition) (t : Topology)
    → get_queue_definition n (add_queue q t)
      ≡ (if q.name == n then ok q else get_queue_definition n t)
unfolding get_queue_definition add_queue
get-add_queue n q t = ground (arith, lookup-insert q.name n q t.queues)

-- A queue is found under its name as it was added last, and what was not added again is found as
-- before.
pub get-add_queues :
    (n : String) (qs : List QueueDefinition) (t : Topology)
    → get_queue_definition n (add_queues qs t)
      ≡ elim (last_named n qs) [ some q ↦ ok q | none ↦ get_queue_definition n t ]
unfolding add_queues
get-add_queues n [] t = refl
get-add_queues n (q ∷ qs) t =
    ground (arith, get-add_queues n qs (add_queue q t), get-add_queue n q t)
