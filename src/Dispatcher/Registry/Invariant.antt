-- ===== src/Dispatcher/Registry/Invariant.antt =====
-- dispatcher.go, the `Register…` methods: what holds of the consumers of every queue, after any
-- calls.
use bunmq.Base.{
  String, true, false, ◌≡◌, ◌≢◌, refl, sym, ap, subst, ◌∙◌, ◌⊎◌, inl, inr, Option, none, some, List,
  [], ◌∷◌, ◌++◌, ◌==◌, eq_iff, arith, if◌then◌else◌, Bool-cases,
}
use bunmq.Base.Dict.{lookup-insert}
use bunmq.Base.Lists.{All, All-append, All-imp}
use bunmq.Errors.{Error}
use bunmq.Queue.{QueueDefinition}
use bunmq.Dispatcher.{
  ConsumerDefinitionType, by_type, by_exchange, by_routing_key, by_exchange_routing_key, unknown,
  IsKnown, ConsumerDefinition, Dispatcher, new_dispatcher,
}
use bunmq.Dispatcher.Registry.{consumers_of, has_type, has_queue, append_consumer}
use bunmq.Dispatcher.Registry.Append.{
  Registration, register, IsKeyed, IsConsumer, IsAccepted, Registers, register-Registers,
}

keyed-IsKnown : (t : ConsumerDefinitionType) (x r : String) → IsKeyed t x r → IsKnown t
keyed-IsKnown by_type x r h = tt
keyed-IsKnown by_exchange x r h = tt
keyed-IsKnown by_routing_key x r h = tt
keyed-IsKnown by_exchange_routing_key x r h = tt
keyed-IsKnown (unknown n) x r h = h

module _ {W Payload : Type 0} where
  -- A consumer behind another may share its message type only if it is matched by exchange and
  -- routing key.
  abbrev pub MayFollow : ConsumerDefinition W Payload → ConsumerDefinition W Payload → Type 0
  MayFollow b c = (c.typ ≡ by_exchange_routing_key) ⊎ (c.msg_type ≢ b.msg_type)

  abbrev pub IsDistinct : List (ConsumerDefinition W Payload) → Type 0
  IsDistinct [] = Unit
  IsDistinct (c ∷ cs) = All (MayFollow c) cs × IsDistinct cs

  -- The consumers that a dispatcher keeps for a queue.
  pub record IsValidAt (k : String) (d : Dispatcher W Payload) : Type 0 where
    pub consumers : All (IsConsumer k) (consumers_of k d)
    pub distinct : IsDistinct (consumers_of k d)
    pub defined : (consumers_of k d ≡ []) ⊎ (has_queue k d ≡ true)

  abbrev pub IsValid : Dispatcher W Payload → Type 0
  IsValid d = (k : String) → IsValidAt k d

  not_taken :
      (c : ConsumerDefinition W Payload) (cs : List (ConsumerDefinition W Payload))
      → (c.typ ≡ by_exchange_routing_key) ⊎ (has_type c.msg_type cs ≡ false)
      → All (λ b. MayFollow b c) cs
  not_taken c [] h = tt
  not_taken c (b ∷ cs) h = ground (arith, eq_iff b.msg_type c.msg_type, not_taken c cs)

  IsDistinct-concat :
      (cs : List (ConsumerDefinition W Payload)) (c : ConsumerDefinition W Payload)
      → IsDistinct cs
      → All (λ b. MayFollow b c) cs
      → IsDistinct (cs ++ c ∷ [])
  IsDistinct-concat [] c h k = (tt, tt)
  IsDistinct-concat (b ∷ cs) c h k =
      (All-append (MayFollow b) cs (c ∷ []) h.0 (k.0, tt), IsDistinct-concat cs c h.1 k.1)

  consumers_of-append_consumer :
      (k : String) (c : ConsumerDefinition W Payload) (d : Dispatcher W Payload)
      → consumers_of k (append_consumer c d)
        ≡ (if c.queue == k then consumers_of c.queue d ++ c ∷ [] else consumers_of k d)
  consumers_of-append_consumer k c d =
      ground
        (arith, lookup-insert c.queue k (consumers_of c.queue d ++ c ∷ []) d.consumers_definition)

  append-IsValidAt :
      (k : String) (c : ConsumerDefinition W Payload) (d : Dispatcher W Payload)
      → IsValidAt k d
      → IsAccepted d c
      → IsValidAt k (append_consumer c d)
  append-IsValidAt k c d v a = elim (Bool-cases (c.queue == k)) [
    | inr other ↦
        let e : consumers_of k (append_consumer c d) ≡ consumers_of k d =
          rw other at (consumers_of-append_consumer k c d) in
        record {
          consumers = rw e v.consumers;
          distinct = rw e v.distinct;
          defined = rw e v.defined;
        }
    | inl same ↦
        let p : c.queue ≡ k = (eq_iff c.queue k).0 same in
        let e : consumers_of k (append_consumer c d) ≡ consumers_of k d ++ c ∷ [] =
          rw same at (consumers_of-append_consumer k c d)
          ∙ ap (λ x. consumers_of x d ++ c ∷ []) p in
        record {
          consumers = rw e (
              All-append (IsConsumer k) _ (c ∷ []) v.consumers
                (subst (λ x. IsConsumer x c) p a.consumer, tt));
          distinct = rw e (
              IsDistinct-concat _ c v.distinct (
                subst (λ x. All (λ b. MayFollow b c) (consumers_of x d)) p
                  (not_taken c _ a.fresh)));
          defined = inr (subst (λ x. has_queue x d ≡ true) p a.queue_known);
        }
  ]

  register-IsValidAt :
      (k : String) (d : Dispatcher W Payload) (r : Option Error × Dispatcher W Payload)
      → Registers d r
      → IsValidAt k d
      → IsValidAt k r.1
  register-IsValidAt k d (some e, d') same v = subst (IsValidAt k) (sym same) v
  register-IsValidAt k d (none, d') (c, a, e) v =
      subst (IsValidAt k) (sym e) (append-IsValidAt k c d v a)

  -- A program's calls, whose errors it may ignore.
  unfoldable pub register_all :
      List (Registration W Payload) → Dispatcher W Payload → Dispatcher W Payload
  register_all [] d = d
  register_all (call ∷ calls) d = register_all calls (register call d).1

  new_dispatcher-IsValid : (qs : List QueueDefinition) → IsValid (new_dispatcher qs)
  unfolding new_dispatcher
  new_dispatcher-IsValid qs k = record { consumers = tt; distinct = tt; defined = inl refl }

  register_all-keeps :
      (calls : List (Registration W Payload)) (d : Dispatcher W Payload)
      → IsValid d
      → IsValid (register_all calls d)
  unfolding register_all
  register_all-keeps [] d v = v
  register_all-keeps (call ∷ calls) d v =
      register_all-keeps calls (register call d).1
        (λ k. register-IsValidAt k d (register call d) (register-Registers call d) (v k))

  -- After any calls of the methods on a new dispatcher, failed ones included, every consumer that
  -- is kept for a queue names that queue, is of one of the four kinds, with the keys of its kind
  -- not empty, and has its reflected type's name as its message type; the queue has a definition
  -- if it has a consumer; and a consumer that is not matched by exchange and routing key shares
  -- its message type with none before it.
  pub register_all-IsValid :
      (qs : List QueueDefinition) (calls : List (Registration W Payload))
      → IsValid (register_all calls (new_dispatcher qs))
  register_all-IsValid qs calls =
      register_all-keeps calls (new_dispatcher qs) (new_dispatcher-IsValid qs)

  -- Every consumer of a valid dispatcher is of a known kind, as the choice of a consumer needs.
  pub valid-IsKnown :
      (k : String) (d : Dispatcher W Payload)
      → IsValidAt k d
      → All (λ c. IsKnown c.typ) (consumers_of k d)
  valid-IsKnown k d v =
      All-imp (λ c h. keyed-IsKnown c.typ c.exchange c.routing_key h.keyed) _ v.consumers
