-- ===== src/Dispatcher/Process/Settlement.antt =====
-- dispatcher.go, `processReceivedMessage`: how often a delivery is acknowledged or rejected, and
-- what a run does to its span.
use bunmq.Base.{◌≤◌, String, Bool, true, false, ◌≡◌, ◌⊎◌, arith}
use bunmq.Base.Lists.{count_by, All}
use bunmq.Errors.{Result}
use bunmq.GoType.{GoType}
use bunmq.Queue.{QueueDefinition}
use bunmq.Amqp.Channel.{Publishing, Delivery}
use bunmq.Dispatcher.{Manager, Dispatcher}
use bunmq.Dispatcher.Metadata.{returned}
use bunmq.Dispatcher.Process.{
  Action, ack, nack, publish, handle, span_start, span_end, publish_to_dlq,
  process_received_message,
}

-- A message that has the headers, the type, the content type, the id, the user, the application
-- and the body of a delivery. Its delivery mode is zero.
pub record Repeats (d : Delivery) (p : Publishing) : Type 0 where
  pub same_headers : p.headers ≡ d.headers
  pub same_typ : p.typ ≡ d.typ
  pub same_content_type : p.content_type ≡ d.content_type
  pub same_id : p.message_id ≡ d.message_id
  pub same_user : p.user_id ≡ d.user_id
  pub same_app : p.app_id ≡ d.app_id
  pub same_body : p.body ≡ d.body
  pub no_mode : p.delivery_mode ≡ 0

module _ {Payload : Type 0} where
  abbrev pub settles : Action Payload → Bool
  settles (ack _) = true
  settles (nack _ _) = true
  settles _ = false

  abbrev pub starts_span : Action Payload → Bool
  starts_span span_start = true
  starts_span _ = false

  abbrev pub ends_span : Action Payload → Bool
  ends_span span_end = true
  ends_span _ = false

  abbrev pub handles : Action Payload → Bool
  handles (handle _ _) = true
  handles _ = false

  abbrev pub publishes : Action Payload → Bool
  publishes (publish _ _ _ _ _) = true
  publishes _ = false

  -- What a run may send to the broker for a queue and a delivery: no rejection requeues, and what
  -- is published repeats the delivery, to the default exchange, under the dead-letter name.
  abbrev pub IsPermitted : QueueDefinition → Delivery → Action Payload → Type 0
  IsPermitted q d (nack _ requeue) = requeue ≡ false
  IsPermitted q d (publish exchange key mandatory immediate p) =
      (exchange ≡ "")
      × (key ≡ q.dql_name)
      × (mandatory ≡ false)
      × (immediate ≡ false)
      × Repeats d p
      × ((q.with_dlq ≡ true) ⊎ (q.with_retry ≡ true))
  IsPermitted q d _ = Unit

module _ {W Payload : Type 0} (manager : Manager W) (unmarshal : String → GoType → Result Payload)
    (s : Dispatcher W Payload) (q : QueueDefinition) (d : Delivery) (w : W) where
  -- A run that returns has settled the delivery once, or twice, and twice only where the handler
  -- was called on a queue without a dead-letter queue.
  pub process-settles :
      (process_received_message manager unmarshal s q d w).0 ≡ returned tt
      → let acts = (process_received_message manager unmarshal s q d w).1 in
        (count_by settles acts ≡ 1)
        ⊎ ((count_by settles acts ≡ 2) × (q.with_dlq ≡ false) × (count_by handles acts ≡ 1))
  unfolding process_received_message publish_to_dlq
  process-settles = ground arith

  -- A run that returns has started one span or none, and has ended each that it started.
  pub process-ends_span :
      (process_received_message manager unmarshal s q d w).0 ≡ returned tt
      → let acts = (process_received_message manager unmarshal s q d w).1 in
        (count_by starts_span acts ≤ 1) × (count_by ends_span acts ≡ count_by starts_span acts)
  unfolding process_received_message publish_to_dlq
  process-ends_span = ground arith

  -- In every run, one that panics included, the handler is called at most once, at most one message
  -- is published, no rejection requeues, and what is published has the headers, type, content type,
  -- id, user, application and body of the delivery and a delivery mode of zero, and is sent to the
  -- default exchange under the queue's dead-letter name, for a queue with retry or dead-lettering.
  pub process-IsPermitted :
      let acts = (process_received_message manager unmarshal s q d w).1 in
      (count_by handles acts ≤ 1) × (count_by publishes acts ≤ 1) × All (IsPermitted q d) acts
  unfolding process_received_message publish_to_dlq
  process-IsPermitted = ground arith
