-- ===== src/Dispatcher/Registry/Called.antt =====
-- dispatcher.go, the `Register…` methods: which error a call returns, and which consumer it adds.
use bunmq.Base.{
  String, Bool, true, false, ◌≡◌, ◌≢◌, refl, sym, ◌||◌, Option, none, some, [], ◌∷◌, ◌++◌, ◌==◌,
  eq_iff, arith, if◌then◌else◌,
}
use bunmq.Base.Dict.{lookup-insert}
use bunmq.Errors.{
  Error, sentinel, invalid_dispatch_params, consumer_already_registered_for_the_message,
  queue_definition_not_found,
}
use bunmq.GoType.{GoType, deref, type_string}
use bunmq.Dispatcher.{
  ConsumerDefinitionType, by_type, by_exchange, by_routing_key, by_exchange_routing_key,
  ConsumerHandler, ConsumerDefinition, Dispatcher,
}
use bunmq.Dispatcher.Registry.{
  consumers_of, definition, has_type, has_queue, append_consumer, register_by_type,
  register_by_exchange, register_by_routing_key, register_by_exchange_routing_key,
}
use bunmq.Dispatcher.Registry.Append.{
  Registration, for_type, for_exchange, for_routing_key, for_exchange_routing_key, register,
}

module _ {W Payload : Type 0} where
  -- What a call asks for.
  abbrev pub asked_queue : Registration W Payload → String
  asked_queue (for_type q m h) = q
  asked_queue (for_exchange q m x h) = q
  asked_queue (for_routing_key q m r h) = q
  asked_queue (for_exchange_routing_key q m x r h) = q

  abbrev pub asked_message : Registration W Payload → Option GoType
  asked_message (for_type q m h) = m
  asked_message (for_exchange q m x h) = m
  asked_message (for_routing_key q m r h) = m
  asked_message (for_exchange_routing_key q m x r h) = m

  abbrev pub asked_handler : Registration W Payload → Option (ConsumerHandler W Payload)
  asked_handler (for_type q m h) = h
  asked_handler (for_exchange q m x h) = h
  asked_handler (for_routing_key q m r h) = h
  asked_handler (for_exchange_routing_key q m x r h) = h

  abbrev pub asked_kind : Registration W Payload → ConsumerDefinitionType
  asked_kind (for_type q m h) = by_type
  asked_kind (for_exchange q m x h) = by_exchange
  asked_kind (for_routing_key q m r h) = by_routing_key
  asked_kind (for_exchange_routing_key q m x r h) = by_exchange_routing_key

  -- The exchange and the routing key; a kind that is not matched by one has the empty text.
  abbrev pub asked_exchange : Registration W Payload → String
  asked_exchange (for_exchange q m x h) = x
  asked_exchange (for_exchange_routing_key q m x r h) = x
  asked_exchange _ = ""

  abbrev pub asked_key : Registration W Payload → String
  asked_key (for_routing_key q m r h) = r
  asked_key (for_exchange_routing_key q m x r h) = r
  asked_key _ = ""

  -- A key that the kind is matched by is empty.
  abbrev pub lacks_key : Registration W Payload → Bool
  lacks_key (for_type q m h) = false
  lacks_key (for_exchange q m x h) = x == ""
  lacks_key (for_routing_key q m r h) = r == ""
  lacks_key (for_exchange_routing_key q m x r h) = x == "" || r == ""

  -- The queue has a consumer for this message type already, for a kind that minds.
  abbrev pub is_taken : Registration W Payload → GoType → Dispatcher W Payload → Bool
  is_taken (for_exchange_routing_key q m x r h) t d = false
  is_taken call t d = has_type (type_string (deref t)) (consumers_of (asked_queue call) d)

  -- The error of a call for a message of this type, if it is refused.
  abbrev pub refusal : Registration W Payload → GoType → Dispatcher W Payload → Option Error
  refusal call t d =
      if asked_queue call == "" || lacks_key call
      then some (sentinel invalid_dispatch_params)
      else if is_taken call t d
      then some (sentinel consumer_already_registered_for_the_message)
      else if has_queue (asked_queue call) d
      then none
      else some (sentinel queue_definition_not_found)

  -- The consumer is the one that the call asks for.
  pub record IsAsked (call : Registration W Payload) (t : GoType) (c : ConsumerDefinition W Payload)
      : Type 0 where
    pub same_queue : c.queue ≡ asked_queue call
    pub same_kind : c.typ ≡ asked_kind call
    pub same_exchange : c.exchange ≡ asked_exchange call
    pub same_key : c.routing_key ≡ asked_key call
    pub same_handler : c.handler ≡ asked_handler call
    pub same_reflect : c.reflect ≡ deref t
    pub same_type : c.msg_type ≡ type_string (deref t)

  -- A consumer comes behind those of its queue, and the rest of the dispatcher is as before.
  pub record Appends (c : ConsumerDefinition W Payload) (d d' : Dispatcher W Payload) : Type 0 where
    pub behind : consumers_of c.queue d' ≡ consumers_of c.queue d ++ c ∷ []
    pub others : (k : String) → k ≢ c.queue → consumers_of k d' ≡ consumers_of k d
    pub same_definitions : d'.queue_definitions ≡ d.queue_definitions
    pub same_flag : d'.consuming ≡ d.consuming

  abbrev pub Adds :
      Registration W Payload
      → GoType
      → Dispatcher W Payload
      → Option Error × Dispatcher W Payload
      → Type 0
  Adds call t d (some e, d') = d' ≡ d
  Adds call t d (none, d') = (c : ConsumerDefinition W Payload) × IsAsked call t c × Appends c d d'

  -- What a call comes to, with the message's type.
  abbrev pub Answers :
      Registration W Payload → Dispatcher W Payload → Option Error × Dispatcher W Payload → Type 0
  Answers call d r = elim (asked_message call) [
    | none ↦ r ≡ (some (sentinel invalid_dispatch_params), d)
    | some t ↦ (r.0 ≡ refusal call t d) × Adds call t d r
  ]

  append_consumer-Appends :
      (c : ConsumerDefinition W Payload) (d : Dispatcher W Payload)
      → Appends c d (append_consumer c d)
  append_consumer-Appends c d = record {
    behind = ground (
      arith,
      lookup-insert c.queue c.queue (consumers_of c.queue d ++ c ∷ []) d.consumers_definition,
      eq_iff c.queue c.queue,
    );
    others = λ k ne. ground (
      arith,
      lookup-insert c.queue k (consumers_of c.queue d ++ c ∷ []) d.consumers_definition,
      eq_iff c.queue k,
    );
    same_definitions = refl;
    same_flag = refl;
  }

  -- The checks in their order, by their outcomes: the parameters, the message type, the queue.
  checked :
      (call : Registration W Payload) (t : GoType) (d : Dispatcher W Payload)
      (c : ConsumerDefinition W Payload) (bad lacking taken known : Bool)
      → IsAsked call t c
      → bad ≡ lacking
      → let r : Option Error × Dispatcher W Payload =
          if bad
          then (some (sentinel invalid_dispatch_params), d)
          else if taken
          then (some (sentinel consumer_already_registered_for_the_message), d)
          else if known
          then (none, append_consumer c d)
          else (some (sentinel queue_definition_not_found), d) in
        (r.0 ≡ (
          if lacking
          then some (sentinel invalid_dispatch_params)
          else if taken
          then some (sentinel consumer_already_registered_for_the_message)
          else if known
          then none
          else some (sentinel queue_definition_not_found)))
        × Adds call t d r
  checked call t d c true lacking taken known a e = (rw (sym e) refl, refl)
  checked call t d c false lacking true known a e = (rw (sym e) refl, refl)
  checked call t d c false lacking false true a e =
      (rw (sym e) refl, (c, a, append_consumer-Appends c d))
  checked call t d c false lacking false false a e = (rw (sym e) refl, refl)

  asked :
      (call : Registration W Payload) (t : GoType)
      → IsAsked call t (
          definition
            (asked_kind call)
            (asked_queue call)
            (asked_exchange call)
            (asked_key call)
            t
            (asked_handler call))
  asked call t = record {
    same_queue = refl;
    same_kind = refl;
    same_exchange = refl;
    same_key = refl;
    same_handler = refl;
    same_reflect = refl;
    same_type = refl;
  }

  -- A call with a nil message, an empty queue name or an empty key that its kind is matched by
  -- returns the error for invalid parameters. Another one returns the error for a consumer that is
  -- registered already exactly if the queue has one for the message's type and the kind is not by
  -- exchange and routing key, and else the error for an unknown queue exactly if the queue has no
  -- definition. An error leaves the dispatcher as it was. Without an error one consumer is
  -- appended to those of the call's queue, of the call's kind, with the call's exchange, routing
  -- key and handler and with the message's type behind a pointer; the consumers of other queues,
  -- the definitions and the flag are as before.
  pub register-Answers :
      (call : Registration W Payload) (d : Dispatcher W Payload) → Answers call d (register call d)
  unfolding register register_by_type register_by_exchange register_by_routing_key
      register_by_exchange_routing_key
  register-Answers (for_type q none h) d = refl
  register-Answers (for_exchange q none x h) d = refl
  register-Answers (for_routing_key q none r h) d = refl
  register-Answers (for_exchange_routing_key q none x r h) d = refl
  register-Answers (for_type q (some t) h) d =
      checked (for_type q (some t) h) t d _ (q == "") (q == "" || false) _ _
        (asked (for_type q (some t) h) t) (ground arith)
  register-Answers (for_exchange q (some t) x h) d =
      checked (for_exchange q (some t) x h) t d _ (q == "" || x == "") (q == "" || x == "") _ _
        (asked (for_exchange q (some t) x h) t) refl
  register-Answers (for_routing_key q (some t) r h) d =
      checked (for_routing_key q (some t) r h) t d _ (q == "" || r == "") (q == "" || r == "") _ _
        (asked (for_routing_key q (some t) r h) t) refl
  register-Answers (for_exchange_routing_key q (some t) x r h) d =
      checked (for_exchange_routing_key q (some t) x r h) t d _ (q == "" || x == "" || r == "")
        (q == "" || (x == "" || r == "")) false _
        (asked (for_exchange_routing_key q (some t) x r h) t) (ground arith)
