-- ===== src/Dispatcher/Process/Answer.antt =====
-- dispatcher.go, `processReceivedMessage`: how the handler's answer settles the delivery.
use bunmq.Base.{
  String, true, false, ◌≡◌, ◌&&◌, Option, none, some, List, [], ◌∷◌, arith, if◌then◌else◌,
}
use bunmq.Base.Lists.{only}
use bunmq.Errors.{Error, retryable, errors_is, Result}
use bunmq.GoType.{GoType}
use bunmq.Queue.{QueueDefinition}
use bunmq.Amqp.Channel.{Delivery}
use bunmq.Dispatcher.{DeliveryMetadata, ConsumerHandler, Manager, ConsumerDefinition, Dispatcher}
use bunmq.Dispatcher.Metadata.{Run, returned, panicked}
use bunmq.Dispatcher.Process.{Action, ack, nack, publish_to_dlq, process_received_message}
use bunmq.Dispatcher.Process.Settlement.{settles}
use bunmq.Dispatcher.Process.Fate.{IsDue}

-- The frames that answer the broker: a success acknowledges everything up to this delivery, a
-- retryable error on a queue with retry rejects it, any other error acknowledges it, and where
-- there is no dead-letter queue either, the acknowledgement of a success follows.
abbrev pub settlement_of :
    {Payload : Type 0} → QueueDefinition → Option Error → List (Action Payload)
settlement_of q none = ack true ∷ []
settlement_of q (some e) =
    if q.with_retry && errors_is e retryable
    then nack false false ∷ []
    else if q.with_dlq
    then ack false ∷ []
    else ack false ∷ ack true ∷ []

-- A handler that panics leaves the delivery unanswered.
abbrev pub settlement_by :
    {Payload : Type 0} → QueueDefinition → Run (Option Error) → List (Action Payload)
settlement_by q (returned e) = settlement_of q e
settlement_by q panicked = []

module _ {W Payload : Type 0} (manager : Manager W) (unmarshal : String → GoType → Result Payload)
    (s : Dispatcher W Payload) (q : QueueDefinition) (d : Delivery) (w : W) where
  -- A due message whose consumer has a handler is settled as the handler's answer says, and not
  -- at all where the handler panics, whatever the channel and the broker do.
  pub process-answers :
      {c : ConsumerDefinition W Payload} {p : Payload} {md : DeliveryMetadata}
      {h : ConsumerHandler W Payload}
      → IsDue unmarshal s q d c p md
      → c.handler ≡ some h
      → only settles (process_received_message manager unmarshal s q d w).1
        ≡ settlement_by q (h p md w).0
  unfolding process_received_message publish_to_dlq
  process-answers due e = ground arith
