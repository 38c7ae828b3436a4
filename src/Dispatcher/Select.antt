-- ===== src/Dispatcher/Select.antt =====
-- dispatcher.go: `evaluateDefByReceivedMsg`, the choice of the consumer for a message.
pub mod FirstMatch
pub mod SameFields
use bunmq.Base.{String, ◌<>◌, Bool, false, ◌&&◌, Option, none, some, List, [], ◌∷◌, ◌==◌}
use bunmq.Base.{if◌then◌else◌}
use bunmq.Base.Dict
use bunmq.Base.Decimal.{decimal}
use bunmq.Errors.{Error, foreign, Result, ok, err}
use bunmq.Queue.{QueueDefinition}
use bunmq.Dispatcher.{
  ConsumerDefinitionType, type_number, by_type, by_exchange, by_routing_key,
  by_exchange_routing_key, unknown, DeliveryMetadata, ConsumerDefinition, Dispatcher,
}

abbrev pub unknown_type : ConsumerDefinitionType → Error
unknown_type k = foreign ("bunmq unknown consumer definition type: " <> decimal (type_number k))

module _ {W Payload : Type 0} where
  -- The condition of a case of the `switch`; `none` is its default, which is an error.
  abbrev case_of :
      ConsumerDefinitionType → ConsumerDefinition W Payload → DeliveryMetadata → Option Bool
  case_of by_type c md = some (c.msg_type == md.typ)
  case_of by_exchange_routing_key c md =
      some (c.exchange == md.origin_exchange && c.routing_key == md.routing_key)
  case_of by_exchange c md = some (c.exchange == md.origin_exchange)
  case_of by_routing_key c md = some (c.routing_key == md.routing_key)
  case_of (unknown n) c md = none

  -- The loop over the definitions.
  select_from :
      String
      → List (ConsumerDefinition W Payload)
      → DeliveryMetadata
      → Result (ConsumerDefinition W Payload)
  select_from q [] md = err (foreign ("bunmq no consumer definition found for queue: " <> q))
  select_from q (c ∷ cs) md =
      let rest = select_from q cs md in
      elim (case_of c.typ c md) [
        | none ↦ err (unknown_type c.typ)
        | some hit ↦ if hit then ok c else rest
      ]

  unfoldable pub evaluate_def_by_received_msg :
      Dispatcher W Payload
      → QueueDefinition
      → DeliveryMetadata
      → Result (ConsumerDefinition W Payload)
  unfolding select_from
  evaluate_def_by_received_msg d q md = elim (Dict.lookup q.name d.consumers_definition) [
    | none ↦ err (foreign ("bunmq no consumer definitions found for queue: " <> q.name))
    | some [] ↦ err (foreign ("bunmq no consumer definitions found for queue: " <> q.name))
    | some (c ∷ cs) ↦ select_from q.name (c ∷ cs) md
  ]
