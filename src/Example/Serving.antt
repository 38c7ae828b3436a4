-- ===== src/Example/Serving.antt =====
-- examples/main.go: what the example program has set up when it waits for messages.
use bunmq.Base.{
  String, true, false, ◌≡◌, ◌≢◌, refl, sym, ap, ◌∙◌, Option, none, some, List, [], ◌∷◌, arith, ◌==◌,
  eq_iff,
}
use bunmq.Base.Int.{pos}
use bunmq.Errors.{Error, ok, err, is_ok}
use bunmq.GoType.{pointer}
use bunmq.Amqp.Table.{Table, str, int64, empty, entry}
use bunmq.Amqp.Channel.{Declaration, exchange_declare, queue_declare, queue_bind}
use bunmq.Queue
use bunmq.Queue.{QueueDefinition}
use bunmq.Exchange
use bunmq.Binding
use bunmq.Topology.{new_topology, add_queue, add_exchange, add_queue_binding}
use bunmq.Topology.Declare.Plan.{plan}
use bunmq.Connection.{Network}
use bunmq.Manager.{ConnectionManager}
use bunmq.Manager.Service.{Applying, apply}
use bunmq.Manager.Service.Applied.{apply-declares}
use bunmq.Dispatcher.{DeliveryMetadata, Dispatcher, new_dispatcher}
use bunmq.Dispatcher.Registry.{register_by_type}
use bunmq.Dispatcher.Select.{evaluate_def_by_received_msg}
use bunmq.Dispatcher.System.{checking}
use bunmq.Publisher.TypeName.{route}
use bunmq.Example.{
  queue_def, topology, exchange, binding, my_custom_message, handler, Outcome, panics, exits,
  serves, with_dispatcher, with_manager, main,
}

abbrev classic : Table → Table
classic t = entry "x-queue-type" (str "classic") t

abbrev dead_letters_to : String → Table → Table
dead_letters_to key t =
    entry "x-dead-letter-exchange" (str "") (entry "x-dead-letter-routing-key" (str key) t)

-- An exchange, a queue with its two helpers, and the binding.
abbrev pub example_declarations : List Declaration
example_declarations =
    exchange_declare "my-exchange" "direct" true false false false empty
    ∷ queue_declare "my-queue-retry" true false false false (
        dead_letters_to "my-queue" (
          entry "x-message-ttl" (int64 (pos 10_000))
            (entry "x-retry-count" (int64 (pos 3)) (classic empty))))
    ∷ queue_declare "my-queue-dlq" true false false false (
        classic
          (dead_letters_to "my-queue-retry" (entry "x-max-length" (int64 (pos 10_000)) empty)))
    ∷ queue_declare "my-queue" true false false false (
        classic
          (dead_letters_to "my-queue-retry" (entry "x-max-length" (int64 (pos 100_000)) empty)))
    ∷ queue_bind "my-queue" "my-routing-key" "my-exchange" false empty
    ∷ []

planned : plan (queue_def ∷ []) topology ≡ example_declarations
unfolding queue_def topology exchange binding new_topology add_queue add_exchange add_queue_binding
    Queue.new_queue Queue.set_durable Queue.set_max_length Queue.set_retry Queue.set_dlq
    Queue.set_dlq_max_length Exchange.new_direct_exchange Exchange.set_durable
    Binding.new_queue_binding Binding.set_queue Binding.set_exchange Binding.set_queue_routing_key
    Queue.retry_name Queue.queue_type Queue.dlq_name
planned = refl

queue_name : queue_def.name ≡ "my-queue"
unfolding queue_def Queue.new_queue Queue.set_durable Queue.set_max_length Queue.set_retry
    Queue.set_dlq Queue.set_dlq_max_length
queue_name = refl

queue_named : queue_def.name ≢ ""
queue_named e = ground (arith, queue_name, e, eq_iff "my-queue" "")

module _ {W : Type 0} (Payload : Type 0) (net : Network W) (w : W) where
  -- What can be said of where the program stands.
  abbrev pub IsSetUp : Outcome W Payload × List Declaration → Type 0
  IsSetUp (panics e, ds) = (apply net (queue_def ∷ []) topology w).0 ≡ err e
  IsSetUp (exits e, ds) = ⊥
  IsSetUp (serves s y, ds) =
      (ds ≡ example_declarations)
      × (y.threads ≡ (queue_def, checking) ∷ [])
      × (y.shared.consuming ≡ true)
      × (y.crashed ≡ false)
      × (y.shared.outside.0.closed ≡ false)
      × (y.shared.outside.0.topology ≡ some topology)
      × ((md : DeliveryMetadata)
          → is_ok (evaluate_def_by_received_msg s queue_def md)
            ≡ ("main.MyCustomMessage" == md.typ))

  registered-IsSetUp :
      (r : Option Error × Dispatcher (ConnectionManager W × W) Payload) (m : ConnectionManager W)
      (v : W) (ds : List Declaration)
      → r.0 ≡ none
      → ds ≡ example_declarations
      → m.closed ≡ false
      → m.topology ≡ some topology
      → ((md : DeliveryMetadata)
          → is_ok (evaluate_def_by_received_msg r.1 queue_def md)
            ≡ ("main.MyCustomMessage" == md.typ))
      → IsSetUp (with_dispatcher r m v, ds)
  registered-IsSetUp (some e, s) m v ds n d c t f = ground arith
  registered-IsSetUp (none, s) m v ds n d c t f = (d, refl, refl, refl, c, t, f)

  applied-IsSetUp :
      (r : Applying W) → apply net (queue_def ∷ []) topology w ≡ r → IsSetUp (with_manager r)
  applied-IsSetUp (err e, ds, v) p = ap (λ r. r.0) p
  applied-IsSetUp (ok m, ds, v) p =
      let (d, t, c, n, h) =
        apply-declares net (queue_def ∷ []) topology w {m = m} (ap (λ r. r.0) p) in
      registered-IsSetUp _ m v ds (accepts anything).0 (sym (ap (λ r. r.1) p) ∙ d ∙ planned) c t
        (λ md. (accepts md).1)
    where
      accepts :
          (md : DeliveryMetadata)
          → let r =
              register_by_type {W = ConnectionManager W × W} {Payload = Payload} queue_def.name
                (some (pointer my_custom_message))
                (some handler)
                (new_dispatcher (queue_def ∷ [])) in
            (r.0 ≡ none)
            × (is_ok (evaluate_def_by_received_msg r.1 queue_def md)
                ≡ ("main.MyCustomMessage" == md.typ))
      accepts md = route queue_def (pointer my_custom_message) (some handler) md queue_named

      anything : DeliveryMetadata
      anything = record {
        message_id = "";
        x_count = pos 0;
        typ = "";
        origin_exchange = "";
        routing_key = "";
        headers = empty;
      }

  -- The example program panics only with an error of `Apply`, its registration is never refused,
  -- and when it comes to wait for messages it has declared its exchange, its queue with the retry
  -- and the dead-letter queue, and the binding, in that order and with those arguments; its manager
  -- is open and holds the topology, one goroutine stands at the start of the loop for the queue,
  -- and the dispatcher has a consumer exactly for the messages of type main.MyCustomMessage.
  pub main-IsSetUp : IsSetUp (main net w)
  unfolding main
  main-IsSetUp = applied-IsSetUp (apply net (queue_def ∷ []) topology w) refl
