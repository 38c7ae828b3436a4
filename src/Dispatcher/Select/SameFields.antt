-- ===== src/Dispatcher/Select/SameFields.antt =====
-- dispatcher.go, `evaluateDefByReceivedMsg`: what of the metadata the choice depends on.
use mathlib.Core.Path.{fun_ext, ap₂}
use bunmq.Base.Dict
use bunmq.Base.{ap, none, some, ◌<>◌, String, ◌≡◌, refl, List, [], ◌∷◌, if◌then◌else◌}
use bunmq.Errors.{foreign, Result, ok, err}
use bunmq.Queue.{QueueDefinition}
use bunmq.Dispatcher.{
  ConsumerDefinitionType, by_type, by_exchange, by_routing_key, by_exchange_routing_key, unknown,
  DeliveryMetadata, ConsumerDefinition, Dispatcher,
}
use bunmq.Dispatcher.Select.{unknown_type, case_of, select_from, evaluate_def_by_received_msg}

module _ {W Payload : Type 0} (a b : DeliveryMetadata) where
  case_same :
      (k : ConsumerDefinitionType) (c : ConsumerDefinition W Payload)
      → a.typ ≡ b.typ
      → a.origin_exchange ≡ b.origin_exchange
      → a.routing_key ≡ b.routing_key
      → case_of k c a ≡ case_of k c b
  case_same by_type c t x r = rw t refl
  case_same by_exchange c t x r = rw x refl
  case_same by_routing_key c t x r = rw r refl
  case_same by_exchange_routing_key c t x r = rw x (rw r refl)
  case_same (unknown n) c t x r = refl

  select_same :
      (q : String) (cs : List (ConsumerDefinition W Payload))
      → a.typ ≡ b.typ
      → a.origin_exchange ≡ b.origin_exchange
      → a.routing_key ≡ b.routing_key
      → select_from q cs a ≡ select_from q cs b
  unfolding select_from
  select_same q [] t x r = refl
  select_same q (c ∷ cs) t x r =
      ap₂
        (λ rest o. elim o as (λ z. Result (ConsumerDefinition W Payload)) [
          | none ↦ err (unknown_type c.typ)
          | some hit ↦ if hit then ok c else rest
        ])
        (select_same q cs t x r) (case_same c.typ c t x r)

  -- Two metadata of the same type, origin exchange and routing key give the same choice.
  pub evaluate_same :
      (s : Dispatcher W Payload) (q : QueueDefinition)
      → a.typ ≡ b.typ
      → a.origin_exchange ≡ b.origin_exchange
      → a.routing_key ≡ b.routing_key
      → evaluate_def_by_received_msg s q a ≡ evaluate_def_by_received_msg s q b
  unfolding evaluate_def_by_received_msg
  evaluate_same s q t x r =
      ap
        (λ (f : List (ConsumerDefinition W Payload) → Result (ConsumerDefinition W Payload)).
          elim (Dict.lookup q.name s.consumers_definition)
            as (λ z. Result (ConsumerDefinition W Payload)) [
              | none ↦ err (foreign ("bunmq no consumer definitions found for queue: " <> q.name))
              | some [] ↦
                  err (foreign ("bunmq no consumer definitions found for queue: " <> q.name))
              | some (c ∷ cs) ↦ f (c ∷ cs)
            ])
        (fun_ext (λ cs. select_same q.name cs t x r))
