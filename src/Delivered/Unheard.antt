-- ===== src/Delivered/Unheard.antt =====
-- publisher.go and dispatcher.go: a message of a defined type on its way.
use bunmq.Base.{String, true, false, ◌≡◌, ◌≢◌, ap, ◌∙◌, Option, none, some, [], ◌∷◌, not}
use bunmq.Base.Int.{pos}
use bunmq.Base.Lists.{IsIn}
use bunmq.Errors.{Result}
use bunmq.GoType.{GoType, deref}
use bunmq.Queue.{QueueDefinition}
use bunmq.Amqp.Channel.{Delivery}
use bunmq.Dispatcher.{Manager, ConsumerHandler, new_dispatcher}
use bunmq.Dispatcher.Registry.{register_by_type}
use bunmq.Dispatcher.Metadata.{returned, metadata}
use bunmq.Dispatcher.Process.{ack, process_received_message}
use bunmq.Dispatcher.Process.Fate.{process_unmatched}
use bunmq.Publisher.{Sent, Outside}
use bunmq.Publisher.TypeName.{is_defined, registered, route-defined}
use bunmq.Publisher.Captured.Methods.{Method, run}
use bunmq.Delivered.{Arrives, read_alive, sent-typ}

module _ {W V Msg Payload : Type 0} (app : String) (manager : Manager W) (out : Outside W Msg)
    (service : Manager V) (unmarshal : String → GoType → Result Payload) where
  -- A message of a type that a package defines, or a pointer to it, that a method of the publisher
  -- has sent and that the broker delivers for the first time to a dispatcher with a consumer of
  -- that very type is acknowledged, and nothing else is done with it: no handler runs.
  pub sent-unheard :
      (c : Method) (msg : Msg) (w : W) (s : Sent) (d : Delivery) (q : QueueDefinition) (t : GoType)
      (h : Option (ConsumerHandler V Payload)) (v : V)
      → IsIn s (run app manager out c msg w).1
      → Arrives s d
      → out.type_of msg ≡ some t
      → is_defined (deref t) ≡ true
      → q.name ≢ ""
      → let r = register_by_type q.name (some t) h (new_dispatcher (q ∷ [])) in
        (r.0 ≡ none)
        × (process_received_message service unmarshal r.1 q d v ≡ (returned tt, ack false ∷ [], v))
  unfolding metadata
  sent-unheard c msg w s d q t h v sent arrives typ defined named =
      let md = metadata d (pos 0) d.exchange d.routing_key in
      let (accepted, reaches) =
        route-defined q t h md named
          (arrives.same_typ ∙ sent-typ app manager out service unmarshal c msg w s t sent typ) in
      (
        accepted,
        process_unmatched service unmarshal (registered q t h md).1 q d v
            (read_alive d arrives.alive) (reaches ∙ ap not defined),
      )
