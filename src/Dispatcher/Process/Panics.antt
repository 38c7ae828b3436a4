-- ===== src/Dispatcher/Process/Panics.antt =====
-- dispatcher.go, `processReceivedMessage`: when the consumer's goroutine panics.
use bunmq.Base.{String, false, ◌≡◌, ◌↔◌, refl, ◌⊎◌, inl, inr, Option, none, some, arith}
use bunmq.Base.Int.{◌<ℤ◌}
use bunmq.Errors.{Result, ok, err}
use bunmq.GoType.{GoType}
use bunmq.Queue.{QueueDefinition}
use bunmq.Amqp.Channel.{Delivery}
use bunmq.Dispatcher.{DeliveryMetadata, ConsumerHandler, Manager, ConsumerDefinition, Dispatcher}
use bunmq.Dispatcher.Metadata.{Run, returned, panicked, extract_metadata}
use bunmq.Dispatcher.Select.{evaluate_def_by_received_msg}
use bunmq.Dispatcher.Process.{
  lift, ◌>>=◌, publish_to_dlq, with_message, with_consumer, with_metadata, process_received_message,
}
use bunmq.Dispatcher.Process.Fate.{IsDue}

module _ {W Payload : Type 0} (manager : Manager W) (unmarshal : String → GoType → Result Payload)
    (s : Dispatcher W Payload) (q : QueueDefinition) (d : Delivery) (w : W) where
  -- A handler that is nil, or that panics on the message.
  abbrev pub FailsOn : Payload → DeliveryMetadata → Option (ConsumerHandler W Payload) → Type 0
  FailsOn p md none = Unit
  FailsOn p md (some h) = (h p md w).0 ≡ panicked

  -- The message is due to a consumer with such a handler.
  abbrev pub MeetsPanic : Type 0
  MeetsPanic =
      (c : ConsumerDefinition W Payload) × (p : Payload) × (md : DeliveryMetadata) × IsDue unmarshal
        s q d c p md
      × FailsOn p md c.handler

  with_message-panics :
      (md : DeliveryMetadata) (h : Option (ConsumerHandler W Payload)) (p : Payload)
      → (with_message manager unmarshal q d md h (ok p) w).0 ≡ panicked
      → FailsOn p md h × ((q.with_retry ≡ false) ⊎ (md.x_count <ℤ q.retries))
  unfolding with_message publish_to_dlq
  with_message-panics md none p e = ground arith
  with_message-panics md (some h) p e = ground arith

  with_decoded-panics :
      (md : DeliveryMetadata) (c : ConsumerDefinition W Payload) (r : Result Payload)
      → extract_metadata d ≡ returned (ok md)
      → evaluate_def_by_received_msg s q md ≡ ok c
      → unmarshal d.body c.reflect ≡ r
      → (with_message manager unmarshal q d md c.handler r w).0 ≡ panicked
      → MeetsPanic
  unfolding with_message
  with_decoded-panics md c (err x) e f g h = cc
  with_decoded-panics md c (ok p) e f g h =
      let (absent, few) = with_message-panics md c.handler p h in
      (c, p, md, record { read = e; chosen = f; decoded = g; fresh = few }, absent)

  with_consumer-panics :
      (md : DeliveryMetadata) (r : Result (ConsumerDefinition W Payload))
      → extract_metadata d ≡ returned (ok md)
      → evaluate_def_by_received_msg s q md ≡ r
      → (with_consumer manager unmarshal q d md r w).0 ≡ panicked
      → MeetsPanic
  unfolding with_consumer
  with_consumer-panics md (err x) e f h = cc
  with_consumer-panics md (ok c) e f h =
      with_decoded-panics md c (unmarshal d.body c.reflect) e f refl h

  with_metadata-panics :
      (r : Run (Result DeliveryMetadata))
      → extract_metadata d ≡ r
      → ((lift r >>= with_metadata manager unmarshal s q d) w).0 ≡ panicked
      → (extract_metadata d ≡ panicked) ⊎ MeetsPanic
  unfolding with_metadata
  with_metadata-panics panicked e h = inl e
  with_metadata-panics (returned (err x)) e h = cc
  with_metadata-panics (returned (ok md)) e h =
      inr (with_consumer-panics md (evaluate_def_by_received_msg s q md) e refl h)

  panics_of_causes :
      (extract_metadata d ≡ panicked) ⊎ MeetsPanic
      → (process_received_message manager unmarshal s q d w).0 ≡ panicked
  unfolding process_received_message
  panics_of_causes (inl e) = ground arith
  panics_of_causes (inr (c, p, md, due, absent)) = ground arith

  -- A run panics exactly if the metadata cannot be read, or the message is due to a consumer whose
  -- handler is nil or panics on it: nothing recovers.
  pub process-panics :
      ((process_received_message manager unmarshal s q d w).0 ≡ panicked)
      ↔ ((extract_metadata d ≡ panicked) ⊎ MeetsPanic)
  unfolding process_received_message
  process-panics = (with_metadata-panics (extract_metadata d) refl, panics_of_causes)
