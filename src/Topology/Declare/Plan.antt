-- ===== src/Topology/Declare/Plan.antt =====
-- topology.go, `DeclareAndBindings`, against its specification: a plan, which is a plain list of
-- declarations, carried out until the first error.
use mathlib.Core.List.{append_assoc, append-nil}
use mathlib.Core.Path.{fun_ext, ap₂}
use bunmq.Base.{
  String, Bool, true, false, ◌≡◌, refl, sym, ap, ◌∙◌, none, some, List, [], ◌∷◌, ◌++◌, map, arith,
  if◌then◌else◌,
}
use bunmq.Amqp.Table.{Table}
use bunmq.Amqp.Channel.{
  AmqpChannel, Declaration, exchange_declare, queue_declare, queue_bind, exchange_bind,
}
use bunmq.Queue.{QueueDefinition, dlq_name, retry_name}
use bunmq.Exchange.{ExchangeDefinition}
use bunmq.Binding.{ExchangeBindingDefinition, QueueBindingDefinition}
use bunmq.Topology.{Topology}
use bunmq.Topology.Declare.{
  Run, done, ◌>>◌, declare, retry_args, dlq_args, queue_args, declare_queue, declare_queues,
  declare_exchanges, bind_queues, bind_exchanges, declare_and_bindings,
}

-- Declarations carried out in order, until one fails.
unfoldable pub carry_out : {W : Type 0} → AmqpChannel W → List Declaration → Run W
carry_out ch [] w = (none, [], w)
carry_out ch (x ∷ xs) w = (declare ch x >> carry_out ch xs) w

abbrev pub named_queue : QueueDefinition → String → Table → Declaration
named_queue q n args = queue_declare n q.durable q.delete q.exclusive false args

-- The declarations for one queue: its helpers come before it.
abbrev pub queue_plan : QueueDefinition → List Declaration
queue_plan q =
    (if q.with_retry then named_queue q (retry_name q) (retry_args q) ∷ [] else [])
    ++ ((if q.with_dlq then named_queue q (dlq_name q) (dlq_args q) ∷ [] else [])
        ++ named_queue q q.name (queue_args q) ∷ [])

abbrev pub queues_plan : List QueueDefinition → List Declaration
queues_plan [] = []
queues_plan (q ∷ qs) = queue_plan q ++ queues_plan qs

abbrev pub exchanges_plan : List ExchangeDefinition → List Declaration
exchanges_plan = map (λ e. exchange_declare e.name e.kind e.durable e.delete false false e.params)

abbrev pub bindings_plan : List QueueBindingDefinition → List Declaration
bindings_plan = map (λ b. queue_bind b.queue b.routing_key b.exchange false b.args)

abbrev pub exchange_bindings_plan : List ExchangeBindingDefinition → List Declaration
exchange_bindings_plan = map (λ b. exchange_bind b.destination b.routing_key b.source false b.args)

abbrev pub plan : List QueueDefinition → Topology → List Declaration
plan order t =
    exchanges_plan t.exchanges
    ++ (queues_plan order
        ++ (bindings_plan t.queues_binding ++ exchange_bindings_plan t.exchanges_binding))

module _ {W : Type 0} where
  >>_done : (m : Run W) → m >> done ≡ m
  >>_done m = fun_ext (λ w. ground (arith, append-nil (m w).1))

  done_>> : (m : Run W) → done >> m ≡ m
  done_>> m = refl

  >>_assoc : (m n k : Run W) → (m >> n) >> k ≡ m >> (n >> k)
  >>_assoc m n k =
      fun_ext (λ w. ground (arith, append_assoc (m w).1 (n (m w).2).1 (k (n (m w).2).2).1))

module _ {W : Type 0} (ch : AmqpChannel W) where
  carry_out-cons :
      (x : Declaration) (xs : List Declaration)
      → carry_out ch (x ∷ xs) ≡ declare ch x >> carry_out ch xs
  unfolding carry_out
  carry_out-cons x xs = refl

  carry_out-nil : carry_out ch [] ≡ done
  unfolding carry_out
  carry_out-nil = refl

  carry_out-append :
      (xs ys : List Declaration) → carry_out ch (xs ++ ys) ≡ carry_out ch xs >> carry_out ch ys
  carry_out-append [] ys = rw carry_out-nil refl
  carry_out-append (x ∷ xs) ys =
      carry_out-cons x (xs ++ ys)
      ∙ ap (λ m. declare ch x >> m) (carry_out-append xs ys)
      ∙ sym (>>_assoc (declare ch x) (carry_out ch xs) (carry_out ch ys))
      ∙ ap (λ m. m >> carry_out ch ys) (sym (carry_out-cons x xs))

  carry_out_one : (x : Declaration) → carry_out ch (x ∷ []) ≡ declare ch x
  carry_out_one x =
      carry_out-cons x [] ∙ ap (λ m. declare ch x >> m) carry_out-nil ∙ >>_done (declare ch x)

  carry_out_if :
      (b : Bool) (x : Declaration)
      → (if b then declare ch x else done) ≡ carry_out ch (if b then x ∷ [] else [])
  carry_out_if true x = sym (carry_out_one x)
  carry_out_if false x = sym carry_out-nil

  carry_out_then :
      (x : Declaration) (xs : List Declaration) {m : Run W}
      → m ≡ carry_out ch xs
      → declare ch x >> m ≡ carry_out ch (x ∷ xs)
  carry_out_then x xs e = ap (λ k. declare ch x >> k) e ∙ sym (carry_out-cons x xs)

  declare_queue-plan : (q : QueueDefinition) → declare_queue ch q ≡ carry_out ch (queue_plan q)
  unfolding declare_queue
  declare_queue-plan q =
      ap₂ ◌>>◌ (carry_out_if q.with_retry retry) (
        ap₂ ◌>>◌ (carry_out_if q.with_dlq dlq) (sym (carry_out_one main))
        ∙ sym (carry_out-append dlqs (main ∷ [])))
      ∙ sym (carry_out-append retries (dlqs ++ main ∷ []))
    where
      retry : Declaration
      retry = named_queue q (retry_name q) (retry_args q)

      dlq : Declaration
      dlq = named_queue q (dlq_name q) (dlq_args q)

      main : Declaration
      main = named_queue q q.name (queue_args q)

      retries : List Declaration
      retries = if q.with_retry then retry ∷ [] else []

      dlqs : List Declaration
      dlqs = if q.with_dlq then dlq ∷ [] else []

  declare_queues-plan :
      (qs : List QueueDefinition) → declare_queues ch qs ≡ carry_out ch (queues_plan qs)
  unfolding declare_queues
  declare_queues-plan [] = sym carry_out-nil
  declare_queues-plan (q ∷ qs) =
      ap₂ ◌>>◌ (declare_queue-plan q) (declare_queues-plan qs)
      ∙ sym (carry_out-append (queue_plan q) (queues_plan qs))

  declare_exchanges-plan :
      (es : List ExchangeDefinition) → declare_exchanges ch es ≡ carry_out ch (exchanges_plan es)
  unfolding declare_exchanges
  declare_exchanges-plan [] = sym carry_out-nil
  declare_exchanges-plan (e ∷ es) = carry_out_then _ _ (declare_exchanges-plan es)

  bind_queues-plan :
      (bs : List QueueBindingDefinition) → bind_queues ch bs ≡ carry_out ch (bindings_plan bs)
  unfolding bind_queues
  bind_queues-plan [] = sym carry_out-nil
  bind_queues-plan (b ∷ bs) = carry_out_then _ _ (bind_queues-plan bs)

  bind_exchanges-plan :
      (bs : List ExchangeBindingDefinition)
      → bind_exchanges ch bs ≡ carry_out ch (exchange_bindings_plan bs)
  unfolding bind_exchanges
  bind_exchanges-plan [] = sym carry_out-nil
  bind_exchanges-plan (b ∷ bs) = carry_out_then _ _ (bind_exchanges-plan bs)

  -- On a channel, `DeclareAndBindings` carries out the plan: the exchanges, then for each queue
  -- its retry queue, its dead-letter queue and itself, then the bindings of queues and of
  -- exchanges, each list in its order, and nothing after the first error.
  pub declare-carries_out :
      (order : List QueueDefinition) (t : Topology) (w : W)
      → declare_and_bindings (some ch) order t w ≡ carry_out ch (plan order t) w
  unfolding declare_and_bindings
  declare-carries_out order t w =
      ap (λ m. m w)
        (ap₂ ◌>>◌ (declare_exchanges-plan t.exchanges) (
            ap₂ ◌>>◌ (declare_queues-plan order) (
              ap₂ ◌>>◌ (bind_queues-plan t.queues_binding) (bind_exchanges-plan t.exchanges_binding)
              ∙ sym (carry_out-append (bindings_plan t.queues_binding) _))
            ∙ sym (carry_out-append (queues_plan order) _))
          ∙ sym (carry_out-append (exchanges_plan t.exchanges) _))
