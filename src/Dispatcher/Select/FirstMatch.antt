-- ===== src/Dispatcher/Select/FirstMatch.antt =====
-- dispatcher.go, `evaluateDefByReceivedMsg`: the consumer that is chosen is the first that matches.
use bunmq.Base.{
  String, true, false, ◌≡◌, refl, sym, ◌∙◌, ◌↔◌, ap, ◌⊎◌, inl, inr, none, some, List, [], ◌∷◌, ◌++◌,
  eq_iff, arith,
}
use bunmq.Base.Lists.{All, All-left, All-right}
use bunmq.Errors.{Error, ok, err}
use bunmq.Queue.{QueueDefinition}
use bunmq.Dispatcher.{
  ConsumerDefinitionType, by_type, by_exchange, by_routing_key, by_exchange_routing_key, unknown,
  IsKnown, DeliveryMetadata, ConsumerDefinition, Dispatcher,
}
use bunmq.Dispatcher.Registry.{consumers_of}
use bunmq.Dispatcher.Select.{unknown_type, case_of, select_from, evaluate_def_by_received_msg}

-- What a kind of consumer asks of a message.
abbrev Asks : ConsumerDefinitionType → (t x r : String) → DeliveryMetadata → Type 0
Asks by_type t x r md = t ≡ md.typ
Asks by_exchange t x r md = x ≡ md.origin_exchange
Asks by_routing_key t x r md = r ≡ md.routing_key
Asks by_exchange_routing_key t x r md = (x ≡ md.origin_exchange) × (r ≡ md.routing_key)
Asks (unknown n) t x r md = ⊥

module _ {W Payload : Type 0} where
  abbrev pub Matches : DeliveryMetadata → ConsumerDefinition W Payload → Type 0
  Matches md c = Asks c.typ c.msg_type c.exchange c.routing_key md

  -- `cs` splits at its first match, `c`.
  pub record IsFirstMatch (md : DeliveryMetadata) (cs : List (ConsumerDefinition W Payload))
      (c : ConsumerDefinition W Payload) : Type 0 where
    pub before : List (ConsumerDefinition W Payload)
    pub after : List (ConsumerDefinition W Payload)
    pub splits : cs ≡ before ++ c ∷ after
    pub misses : All (λ b. ¬ Matches md b) before
    pub matches : Matches md c

  case-Asks :
      (k : ConsumerDefinitionType) (c : ConsumerDefinition W Payload) (md : DeliveryMetadata)
      → ((case_of k c md ≡ some true) × Asks k c.msg_type c.exchange c.routing_key md)
        ⊎ ((case_of k c md ≡ some false)
            × (¬ Asks k c.msg_type c.exchange c.routing_key md)
            × IsKnown k)
        ⊎ ((case_of k c md ≡ none) × (¬ IsKnown k))
  case-Asks by_type c md = ground (arith, eq_iff c.msg_type md.typ)
  case-Asks by_exchange c md = ground (arith, eq_iff c.exchange md.origin_exchange)
  case-Asks by_routing_key c md = ground (arith, eq_iff c.routing_key md.routing_key)
  case-Asks by_exchange_routing_key c md =
      ground (arith, eq_iff c.exchange md.origin_exchange, eq_iff c.routing_key md.routing_key)
  case-Asks (unknown n) c md = inr (inr (refl, λ k. k))

  -- One round of the loop over the definitions.
  select_step :
      (q : String) (c : ConsumerDefinition W Payload) (cs : List (ConsumerDefinition W Payload))
      (md : DeliveryMetadata)
      → ((select_from q (c ∷ cs) md ≡ ok c) × Matches md c)
        ⊎ ((select_from q (c ∷ cs) md ≡ select_from q cs md) × (¬ Matches md c) × IsKnown c.typ)
        ⊎ ((e : Error) × (select_from q (c ∷ cs) md ≡ err e) × (¬ IsKnown c.typ))
  unfolding select_from
  select_step q c cs md = elim (case-Asks c.typ c md) [
    | inl (hit, asks) ↦ inl (ground arith, asks)
    | inr (inl (miss, differs, known)) ↦ inr (inl (ground arith, differs, known))
    | inr (inr (odd, unk)) ↦ inr (inr (unknown_type c.typ, ground arith, unk))
  ]

  IsFirstMatch-here :
      (md : DeliveryMetadata) (c b : ConsumerDefinition W Payload)
      (cs : List (ConsumerDefinition W Payload))
      → b ≡ c
      → Matches md b
      → IsFirstMatch md (b ∷ cs) c
  IsFirstMatch-here md c b cs e m = record {
    before = [];
    after = cs;
    splits = ap (λ x. x ∷ cs) e;
    misses = tt;
    matches = rw e at m;
  }

  IsFirstMatch-later :
      (md : DeliveryMetadata) (c b : ConsumerDefinition W Payload)
      (cs : List (ConsumerDefinition W Payload))
      → ¬ Matches md b
      → IsFirstMatch md cs c
      → IsFirstMatch md (b ∷ cs) c
  IsFirstMatch-later md c b cs n f = record {
    before = b ∷ f.before;
    after = f.after;
    splits = ap (λ xs. b ∷ xs) f.splits;
    misses = (n, f.misses);
    matches = f.matches;
  }

  select_from-first :
      (q : String) (cs : List (ConsumerDefinition W Payload)) (md : DeliveryMetadata)
      (c : ConsumerDefinition W Payload)
      → select_from q cs md ≡ ok c
      → IsFirstMatch md cs c
  unfolding select_from
  select_from-first q [] md c h = cc
  select_from-first q (b ∷ cs) md c h = elim (select_step q b cs md) [
    | inl (hit, asks) ↦ IsFirstMatch-here md c b cs (cc) asks
    | inr (inl (same, differs, known)) ↦
        IsFirstMatch-later md c b cs differs (select_from-first q cs md c (sym same ∙ h))
    | inr (inr (e, failed, unk)) ↦ cc
  ]

  select_from-finds :
      (q : String) (before : List (ConsumerDefinition W Payload)) (c : ConsumerDefinition W Payload)
      (after : List (ConsumerDefinition W Payload)) (md : DeliveryMetadata)
      → All (λ b. IsKnown b.typ) before
      → All (λ b. ¬ Matches md b) before
      → Matches md c
      → IsKnown c.typ
      → select_from q (before ++ c ∷ after) md ≡ ok c
  select_from-finds q [] c after md k n m kc = elim (select_step q c after md) [
    | inl (hit, asks) ↦ hit
    | inr (inl (same, differs, known)) ↦ absurd (differs m)
    | inr (inr (e, failed, unk)) ↦ absurd (unk kc)
  ]
  select_from-finds q (b ∷ before) c after md k n m kc =
      elim (select_step q b (before ++ c ∷ after) md) [
        | inl (hit, asks) ↦ absurd (n.0 asks)
        | inr (inl (same, differs, known)) ↦
            same ∙ select_from-finds q before c after md k.1 n.1 m kc
        | inr (inr (e, failed, unk)) ↦ absurd (unk k.0)
      ]

  -- `evaluateDefByReceivedMsg` runs the loop over the queue's list, of which an empty one and a
  -- missing one alike give an error.
  evaluate-eq-select :
      (d : Dispatcher W Payload) (q : QueueDefinition) (md : DeliveryMetadata)
      (c : ConsumerDefinition W Payload)
      → (evaluate_def_by_received_msg d q md ≡ ok c)
        ↔ (select_from q.name (consumers_of q.name d) md ≡ ok c)
  unfolding evaluate_def_by_received_msg
  evaluate-eq-select d q md c = (λ h. ground arith, λ h. ground arith)

  -- A consumer of a known kind is chosen exactly if it is the first of the queue's consumers that
  -- matches the message, where every consumer of the queue is of a known kind.
  pub evaluate-first :
      (d : Dispatcher W Payload) (q : QueueDefinition) (md : DeliveryMetadata)
      (c : ConsumerDefinition W Payload)
      → All (λ b. IsKnown b.typ) (consumers_of q.name d)
      → (evaluate_def_by_received_msg d q md ≡ ok c) ↔ IsFirstMatch md (consumers_of q.name d) c
  evaluate-first d q md c k = (
    λ h. select_from-first q.name _ md c ((evaluate-eq-select d q md c).0 h),
    λ f.
        let k' : All (λ b. IsKnown b.typ) (f.before ++ c ∷ f.after) = rw f.splits at k in
        (evaluate-eq-select d q md c).1 (
          rw f.splits (
            select_from-finds q.name f.before c f.after md (All-left _ _ _ k') f.misses f.matches
              (All-right _ f.before _ k').0)),
  )
