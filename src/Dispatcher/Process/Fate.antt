-- ===== src/Dispatcher/Process/Fate.antt =====
-- dispatcher.go, `processReceivedMessage`: when the handler is called.
use bunmq.Base.{String, false, ◌≡◌, ◌≢◌, ◌↔◌, refl, ◌⊎◌, Option, none, some, [], ◌∷◌, arith}
use bunmq.Base.Int.{◌<ℤ◌}
use bunmq.Base.Lists.{All, All-imp, only}
use bunmq.Errors.{Result, ok, err, is_ok}
use bunmq.GoType.{GoType}
use bunmq.Queue.{QueueDefinition}
use bunmq.Amqp.Channel.{Delivery}
use bunmq.Dispatcher.{DeliveryMetadata, ConsumerHandler, Manager, ConsumerDefinition, Dispatcher}
use bunmq.Dispatcher.Metadata.{Run, returned, panicked, extract_metadata}
use bunmq.Dispatcher.Select.{evaluate_def_by_received_msg}
use bunmq.Dispatcher.Process.{
  Action, ack, handle, lift, ◌>>=◌, publish_to_dlq, with_message, with_consumer, with_metadata,
  process_received_message,
}
use bunmq.Dispatcher.Process.Settlement.{handles}

-- A message is due to a consumer: its metadata can be read, the consumer is the one chosen, the
-- body decodes to the payload, and on a queue with retry its deaths are fewer than the retries.
module _ {W Payload : Type 0} (unmarshal : String → GoType → Result Payload)
    (s : Dispatcher W Payload) (q : QueueDefinition) (d : Delivery) where
  pub record IsDue (c : ConsumerDefinition W Payload) (p : Payload) (md : DeliveryMetadata)
      : Type 0 where
    pub read : extract_metadata d ≡ returned (ok md)
    pub chosen : evaluate_def_by_received_msg s q md ≡ ok c
    pub decoded : unmarshal d.body c.reflect ≡ ok p
    pub fresh : (q.with_retry ≡ false) ⊎ (md.x_count <ℤ q.retries)

  abbrev pub HandlesDue : Action Payload → Type 0
  HandlesDue (handle p md) = (c : ConsumerDefinition W Payload) × IsDue c p md × (c.handler ≢ none)
  HandlesDue _ = Unit

  -- The same of the last stage, whose consumer and metadata are at hand.
  abbrev Calls :
      DeliveryMetadata
      → Option (ConsumerHandler W Payload)
      → Result Payload
      → Action Payload
      → Type 0
  Calls md h r (handle p md') =
      (md' ≡ md) × (r ≡ ok p) × (h ≢ none) × ((q.with_retry ≡ false) ⊎ (md.x_count <ℤ q.retries))
  Calls md h r _ = Unit

  Calls-HandlesDue :
      (md : DeliveryMetadata) (c : ConsumerDefinition W Payload)
      → extract_metadata d ≡ returned (ok md)
      → evaluate_def_by_received_msg s q md ≡ ok c
      → (a : Action Payload) → Calls md c.handler (unmarshal d.body c.reflect) a
      → HandlesDue a
  Calls-HandlesDue md c e f (handle p md') (same, decoded, present, fresh) = (
    c,
    record { read = rw same e; chosen = rw same f; decoded = decoded; fresh = rw same fresh },
    present,
  )
  Calls-HandlesDue md c e f (ack _) _ = tt
  Calls-HandlesDue md c e f _ _ = tt

module _ {W Payload : Type 0} (manager : Manager W) (unmarshal : String → GoType → Result Payload)
    (s : Dispatcher W Payload) (q : QueueDefinition) (d : Delivery) (w : W) where
  with_message-Calls :
      (md : DeliveryMetadata) (h : Option (ConsumerHandler W Payload)) (r : Result Payload)
      → All (Calls unmarshal s q d md h r) (with_message manager unmarshal q d md h r w).1
  unfolding with_message publish_to_dlq
  with_message-Calls md h (err e) = ground arith
  with_message-Calls md none (ok p) = ground arith
  with_message-Calls md (some h) (ok p) = ground arith

  with_consumer-HandlesDue :
      (md : DeliveryMetadata)
      → extract_metadata d ≡ returned (ok md)
      → (r : Result (ConsumerDefinition W Payload)) → evaluate_def_by_received_msg s q md ≡ r
      → All (HandlesDue unmarshal s q d) (with_consumer manager unmarshal q d md r w).1
  unfolding with_consumer
  with_consumer-HandlesDue md e (err x) f = (tt, tt)
  with_consumer-HandlesDue md e (ok c) f = (
    tt,
    All-imp (Calls-HandlesDue unmarshal s q d md c e f) _
        (with_message-Calls md c.handler (unmarshal d.body c.reflect)),
  )

  with_metadata-HandlesDue :
      (r : Run (Result DeliveryMetadata))
      → extract_metadata d ≡ r
      → All (HandlesDue unmarshal s q d) ((lift r >>= with_metadata manager unmarshal s q d) w).1
  unfolding with_metadata
  with_metadata-HandlesDue panicked e = tt
  with_metadata-HandlesDue (returned (err x)) e = (tt, tt)
  with_metadata-HandlesDue (returned (ok md)) e =
      with_consumer-HandlesDue md e (evaluate_def_by_received_msg s q md) refl

  -- The handler is only called with a message that is due.
  pub process-HandlesDue :
      All (HandlesDue unmarshal s q d) (process_received_message manager unmarshal s q d w).1
  unfolding process_received_message
  process-HandlesDue = with_metadata-HandlesDue (extract_metadata d) refl

  -- A due message whose consumer has a handler is given to it exactly once, decoded and with its
  -- metadata, and the run panics exactly if the handler does, whatever the channel and the broker
  -- do.
  pub process-handles :
      {c : ConsumerDefinition W Payload} {p : Payload} {md : DeliveryMetadata}
      {h : ConsumerHandler W Payload}
      → IsDue unmarshal s q d c p md
      → c.handler ≡ some h
      → let (r, acts, w') = process_received_message manager unmarshal s q d w in
        ((r ≡ panicked) ↔ ((h p md w).0 ≡ panicked)) × (only handles acts ≡ handle p md ∷ [])
  unfolding process_received_message publish_to_dlq
  process-handles due e = ((λ r. ground arith, λ r. ground arith), ground arith)

  with_consumer-unmatched :
      (md : DeliveryMetadata) (r : Result (ConsumerDefinition W Payload))
      → is_ok r ≡ false
      → with_consumer manager unmarshal q d md r w ≡ (returned tt, ack false ∷ [], w)
  unfolding with_consumer
  with_consumer-unmatched md (err e) n = refl
  with_consumer-unmatched md (ok c) n = ground arith

  -- A message without a consumer is acknowledged, and nothing else is done.
  pub process_unmatched :
      {md : DeliveryMetadata}
      → extract_metadata d ≡ returned (ok md)
      → is_ok (evaluate_def_by_received_msg s q md) ≡ false
      → process_received_message manager unmarshal s q d w ≡ (returned tt, ack false ∷ [], w)
  unfolding process_received_message with_metadata
  process_unmatched {md} e n =
      rw e (with_consumer-unmatched md (evaluate_def_by_received_msg s q md) n)
