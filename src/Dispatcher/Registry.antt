-- ===== src/Dispatcher/Registry.antt =====
-- dispatcher.go: the four `Register…` methods. Each returns an error and leaves the dispatcher
-- alone, or appends one consumer to the queue's list.
pub mod Invariant
pub mod Append
pub mod Called
use bunmq.Base.{
  String, Bool, true, false, ◌||◌, Option, none, some, List, [], ◌∷◌, ◌++◌, ◌==◌, if◌then◌else◌,
}
use bunmq.Base.Dict
use bunmq.Base.Dict.{Dict}
use bunmq.Errors.{
  Error, sentinel, invalid_dispatch_params, consumer_already_registered_for_the_message,
  queue_definition_not_found,
}
use bunmq.GoType.{GoType, deref, type_string}
use bunmq.Dispatcher.{
  ConsumerDefinitionType, by_type, by_exchange, by_routing_key, by_exchange_routing_key,
  ConsumerHandler, ConsumerDefinition, Dispatcher,
}

module _ {W Payload : Type 0} where
  -- `d.consumersDefinition[queue]`: a missing key reads as a nil slice.
  abbrev pub consumers_of : String → Dispatcher W Payload → List (ConsumerDefinition W Payload)
  consumers_of q d = elim (Dict.lookup q d.consumers_definition) [ none ↦ [] | some cs ↦ cs ]

  -- The loop over `consumers`: is one registered for this message type?
  abbrev pub has_type : String → List (ConsumerDefinition W Payload) → Bool
  has_type t [] = false
  has_type t (c ∷ cs) = c.msg_type == t || has_type t cs

  abbrev pub has_queue : String → Dispatcher W Payload → Bool
  has_queue q d = elim (Dict.lookup q d.queue_definitions) [ none ↦ false | some _ ↦ true ]

  abbrev append_consumer :
      ConsumerDefinition W Payload → Dispatcher W Payload → Dispatcher W Payload
  append_consumer c d = record d {
    consumers_definition =
        Dict.insert c.queue (consumers_of c.queue d ++ c ∷ []) d.consumers_definition;
  }

  -- The part that `RegisterByType`, `RegisterByExchange` and `RegisterByRoutingKey` have in common,
  -- after their parameter checks.
  abbrev register_unique :
      ConsumerDefinition W Payload → Dispatcher W Payload → Option Error × Dispatcher W Payload
  register_unique c d =
      if has_type c.msg_type (consumers_of c.queue d)
      then (some (sentinel consumer_already_registered_for_the_message), d)
      else if has_queue c.queue d
      then (none, append_consumer c d)
      else (some (sentinel queue_definition_not_found), d)

  abbrev definition :
      ConsumerDefinitionType
      → (queue exchange routing_key : String) → GoType
      → Option (ConsumerHandler W Payload)
      → ConsumerDefinition W Payload
  definition k q x r t h = record {
    typ = k;
    queue = q;
    exchange = x;
    routing_key = r;
    msg_type = type_string (deref t);
    reflect = deref t;
    handler = h;
  }

  -- `msg == nil` is `none`; otherwise only the dynamic type of `msg` is used.
  unfoldable pub register_by_type :
      (queue : String)
      → Option GoType
      → Option (ConsumerHandler W Payload)
      → Dispatcher W Payload
      → Option Error × Dispatcher W Payload
  register_by_type q none h d = (some (sentinel invalid_dispatch_params), d)
  register_by_type q (some t) h d =
      if q == ""
      then (some (sentinel invalid_dispatch_params), d)
      else register_unique (definition by_type q "" "" t h) d

  unfoldable pub register_by_exchange :
      (queue : String)
      → Option GoType
      → (exchange : String) → Option (ConsumerHandler W Payload)
      → Dispatcher W Payload
      → Option Error × Dispatcher W Payload
  register_by_exchange q none x h d = (some (sentinel invalid_dispatch_params), d)
  register_by_exchange q (some t) x h d =
      if q == "" || x == ""
      then (some (sentinel invalid_dispatch_params), d)
      else register_unique (definition by_exchange q x "" t h) d

  unfoldable pub register_by_routing_key :
      (queue : String)
      → Option GoType
      → (routing_key : String) → Option (ConsumerHandler W Payload)
      → Dispatcher W Payload
      → Option Error × Dispatcher W Payload
  register_by_routing_key q none r h d = (some (sentinel invalid_dispatch_params), d)
  register_by_routing_key q (some t) r h d =
      if q == "" || r == ""
      then (some (sentinel invalid_dispatch_params), d)
      else register_unique (definition by_routing_key q "" r t h) d

  -- The fourth method does not look for an earlier consumer of the same message type.
  unfoldable pub register_by_exchange_routing_key :
      (queue : String)
      → Option GoType
      → (exchange routing_key : String) → Option (ConsumerHandler W Payload)
      → Dispatcher W Payload
      → Option Error × Dispatcher W Payload
  register_by_exchange_routing_key q none x r h d = (some (sentinel invalid_dispatch_params), d)
  register_by_exchange_routing_key q (some t) x r h d =
      if q == "" || x == "" || r == ""
      then (some (sentinel invalid_dispatch_params), d)
      else if has_queue q d
      then (none, append_consumer (definition by_exchange_routing_key q x r t h) d)
      else (some (sentinel queue_definition_not_found), d)
