-- ===== src/Dispatcher/Registry/Append.antt =====
-- dispatcher.go, the `Register…` methods: an error changes nothing, and a success appends one
-- consumer to the list of its queue.
use bunmq.Base.{
  String, Bool, true, false, ◌≡◌, ◌≢◌, refl, ◌⊎◌, inl, inr, Option, none, some, ◌==◌, eq_iff, arith,
  if◌then◌else◌, ◌||◌, Bool-cases,
}
use bunmq.Errors.{Error, sentinel, queue_definition_not_found}
use bunmq.GoType.{GoType, type_string}
use bunmq.Dispatcher.{
  ConsumerDefinitionType, by_type, by_exchange, by_routing_key, by_exchange_routing_key, unknown,
  ConsumerHandler, ConsumerDefinition, Dispatcher,
}
use bunmq.Dispatcher.Registry.{
  consumers_of, definition, register_unique, has_type, has_queue, append_consumer, register_by_type,
  register_by_exchange, register_by_routing_key, register_by_exchange_routing_key,
}

-- A call of one of the four methods.
pub data Registration (W Payload : Type 0) : Type 0 where
  for_type : String → Option GoType → Option (ConsumerHandler W Payload) → Registration W Payload
  for_exchange :
      String → Option GoType → String → Option (ConsumerHandler W Payload) → Registration W Payload
  for_routing_key :
      String → Option GoType → String → Option (ConsumerHandler W Payload) → Registration W Payload
  for_exchange_routing_key :
      String
      → Option GoType
      → String
      → String
      → Option (ConsumerHandler W Payload)
      → Registration W Payload

-- The exchange and the routing key that a kind of consumer is matched by are not empty.
abbrev pub IsKeyed : ConsumerDefinitionType → (exchange routing_key : String) → Type 0
IsKeyed by_type x r = Unit
IsKeyed by_exchange x r = x ≢ ""
IsKeyed by_routing_key x r = r ≢ ""
IsKeyed by_exchange_routing_key x r = (x ≢ "") × (r ≢ "")
IsKeyed (unknown n) x r = ⊥

ne_empty : (s : String) → (s == "") ≡ false → s ≢ ""
ne_empty s h = ground (arith, eq_iff s "")

or_false : (a b : Bool) → (a || b) ≡ false → (a ≡ false) × (b ≡ false)
or_false a b h = ground arith

module _ {W Payload : Type 0} where
  unfoldable pub register :
      Registration W Payload → Dispatcher W Payload → Option Error × Dispatcher W Payload
  register (for_type q m h) = register_by_type q m h
  register (for_exchange q m x h) = register_by_exchange q m x h
  register (for_routing_key q m r h) = register_by_routing_key q m r h
  register (for_exchange_routing_key q m x r h) = register_by_exchange_routing_key q m x r h

  pub record IsConsumer (k : String) (c : ConsumerDefinition W Payload) : Type 0 where
    pub owned : c.queue ≡ k
    pub nonempty : k ≢ ""
    pub typed : c.msg_type ≡ type_string c.reflect
    pub keyed : IsKeyed c.typ c.exchange c.routing_key

  -- What a success has checked of the consumer that it adds.
  pub record IsAccepted (d : Dispatcher W Payload) (c : ConsumerDefinition W Payload) : Type 0 where
    pub consumer : IsConsumer c.queue c
    pub queue_known : has_queue c.queue d ≡ true
    pub fresh :
        (c.typ ≡ by_exchange_routing_key) ⊎ (has_type c.msg_type (consumers_of c.queue d) ≡ false)

  -- What a call on `d` came to.
  abbrev pub Registers : Dispatcher W Payload → Option Error × Dispatcher W Payload → Type 0
  Registers d (some e, d') = d' ≡ d
  Registers d (none, d') =
      (c : ConsumerDefinition W Payload) × IsAccepted d c × (d' ≡ append_consumer c d)

  -- The last check, for the queue's definition, and the append.
  register_known-Registers :
      (c : ConsumerDefinition W Payload) (d : Dispatcher W Payload)
      → IsConsumer c.queue c
      → (c.typ ≡ by_exchange_routing_key) ⊎ (has_type c.msg_type (consumers_of c.queue d) ≡ false)
      → Registers d (
          if has_queue c.queue d
          then (none, append_consumer c d)
          else (some (sentinel queue_definition_not_found), d))
  register_known-Registers c d k new = elim (Bool-cases (has_queue c.queue d)) [
    | inl known ↦ rw known (c, record { consumer = k; queue_known = known; fresh = new }, refl)
    | inr missing ↦ rw missing refl
  ]

  register_unique-Registers :
      (c : ConsumerDefinition W Payload) (d : Dispatcher W Payload)
      → IsConsumer c.queue c
      → Registers d (register_unique c d)
  register_unique-Registers c d k =
      elim (Bool-cases (has_type c.msg_type (consumers_of c.queue d))) [
        | inl taken ↦ rw taken refl
        | inr new ↦ rw new (register_known-Registers c d k (inr new))
      ]

  -- A call of a method returns an error and leaves the dispatcher as it was, or it appends one
  -- consumer to the list of its queue, which has a definition; the consumer's queue and the keys
  -- that its kind is matched by are not empty, its message type is that of its reflected type, and
  -- unless it is matched by exchange and routing key, no consumer of the queue has that message
  -- type.
  pub register-Registers :
      (call : Registration W Payload) (d : Dispatcher W Payload) → Registers d (register call d)
  unfolding register register_by_type register_by_exchange register_by_routing_key
      register_by_exchange_routing_key
  register-Registers (for_type q none h) d = refl
  register-Registers (for_type q (some t) h) d = elim (Bool-cases (q == "")) [
    | inl bad ↦ rw bad refl
    | inr good ↦ rw good (
        register_unique-Registers (definition by_type q "" "" t h) d
          (record { owned = refl; nonempty = ne_empty q good; typed = refl; keyed = tt }))
  ]
  register-Registers (for_exchange q none x h) d = refl
  register-Registers (for_exchange q (some t) x h) d = elim (Bool-cases (q == "" || x == "")) [
    | inl bad ↦ rw bad refl
    | inr good ↦
        let (a, b) = or_false _ _ good in
        rw good (
          register_unique-Registers (definition by_exchange q x "" t h) d
            (record { owned = refl; nonempty = ne_empty q a; typed = refl; keyed = ne_empty x b }))
  ]
  register-Registers (for_routing_key q none r h) d = refl
  register-Registers (for_routing_key q (some t) r h) d = elim (Bool-cases (q == "" || r == "")) [
    | inl bad ↦ rw bad refl
    | inr good ↦
        let (a, b) = or_false _ _ good in
        rw good (
          register_unique-Registers (definition by_routing_key q "" r t h) d
            (record { owned = refl; nonempty = ne_empty q a; typed = refl; keyed = ne_empty r b }))
  ]
  register-Registers (for_exchange_routing_key q none x r h) d = refl
  register-Registers (for_exchange_routing_key q (some t) x r h) d =
      elim (Bool-cases (q == "" || x == "" || r == "")) [
        | inl bad ↦ rw bad refl
        | inr good ↦
            let (ab, c) = or_false _ _ good in
            let (a, b) = or_false _ _ ab in
            rw good (
              register_known-Registers (definition by_exchange_routing_key q x r t h) d
                (record {
                  owned = refl;
                  nonempty = ne_empty q a;
                  typed = refl;
                  keyed = (ne_empty x b, ne_empty r c);
                })
                (inl refl))
      ]
