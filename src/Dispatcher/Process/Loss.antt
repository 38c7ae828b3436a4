-- ===== src/Dispatcher/Process/Loss.antt =====
-- dispatcher.go, `publishToDlq`: a message is acknowledged before it is published. What that means
-- where the publishing fails, or where there is no dead-letter queue.
use bunmq.Base.{String, true, false, ◌≡◌, arith, [], ◌∷◌}
use bunmq.Base.Int.{◌≤ℤ◌}
use bunmq.Base.Lists.{count_by, only}
use bunmq.Errors.{Error, Result, ok, err}
use bunmq.GoType.{GoType}
use bunmq.Queue.{QueueDefinition}
use bunmq.Queue.Built.{Built, Built-IsConsistent}
use bunmq.Amqp.Channel.{AmqpChannel, Delivery}
use bunmq.Dispatcher.{DeliveryMetadata, Manager, ConsumerDefinition, Dispatcher}
use bunmq.Dispatcher.Metadata.{returned, extract_metadata}
use bunmq.Dispatcher.Select.{evaluate_def_by_received_msg}
use bunmq.Dispatcher.Process.{
  ack, span_start, span_end, record_error, publish, dlq_publishing, publish_to_dlq,
  process_received_message,
}
use bunmq.Dispatcher.Process.Settlement.{settles, handles, publishes}

module _ {W Payload : Type 0} (manager : Manager W) (unmarshal : String → GoType → Result Payload)
    (s : Dispatcher W Payload) (q : QueueDefinition) (d : Delivery) (w : W) where
  -- For a message that has used up its retries, while no channel can be had, these are all the
  -- actions: `Ack` is called, the error is recorded, and neither is the message published nor the
  -- handler called.
  pub exhausted-lost :
      {md : DeliveryMetadata} {c : ConsumerDefinition W Payload} {p : Payload} {e : Error}
      → extract_metadata d ≡ returned (ok md)
      → evaluate_def_by_received_msg s q md ≡ ok c
      → unmarshal d.body c.reflect ≡ ok p
      → q.with_retry ≡ true
      → q.retries ≤ℤ md.x_count
      → (manager.get_channel w).0 ≡ err e
      → process_received_message manager unmarshal s q d w ≡ (
        returned tt,
        span_start ∷ ack false ∷ record_error e ∷ span_end ∷ [],
        (manager.get_channel w).1,
      )
  unfolding process_received_message publish_to_dlq
  exhausted-lost a b f g h i = ground arith

  -- With a channel, a message that has used up its retries is settled once, published once, and not
  -- handled, and the run returns, whatever the broker answers.
  pub exhausted-published :
      {md : DeliveryMetadata} {c : ConsumerDefinition W Payload} {p : Payload} {ch : AmqpChannel W}
      → extract_metadata d ≡ returned (ok md)
      → evaluate_def_by_received_msg s q md ≡ ok c
      → unmarshal d.body c.reflect ≡ ok p
      → q.with_retry ≡ true
      → q.retries ≤ℤ md.x_count
      → (manager.get_channel w).0 ≡ ok ch
      → let (r, acts, w') = process_received_message manager unmarshal s q d w in
        (r ≡ returned tt)
        × (count_by settles acts ≡ 1)
        × (count_by publishes acts ≡ 1)
        × (count_by handles acts ≡ 0)
  unfolding process_received_message publish_to_dlq
  exhausted-published a b f g h i = ground arith

  -- On a queue that was built with retry and without dead-lettering, a message that has used up its
  -- retries is, with a channel, published to the default exchange under the empty key.
  pub exhausted-nowhere :
      {md : DeliveryMetadata} {c : ConsumerDefinition W Payload} {p : Payload} {ch : AmqpChannel W}
      → Built q
      → q.with_dlq ≡ false
      → extract_metadata d ≡ returned (ok md)
      → evaluate_def_by_received_msg s q md ≡ ok c
      → unmarshal d.body c.reflect ≡ ok p
      → q.with_retry ≡ true
      → q.retries ≤ℤ md.x_count
      → (manager.get_channel w).0 ≡ ok ch
      → only publishes (process_received_message manager unmarshal s q d w).1
        ≡ publish "" "" false false (dlq_publishing d) ∷ []
  unfolding process_received_message publish_to_dlq
  exhausted-nowhere v no_dlq a b f g h i = ground (arith, (Built-IsConsistent v).dead_letter_name)
