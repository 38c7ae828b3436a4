-- ===== src/Dispatcher/Process/Mocked/Entered.antt =====
-- dispatcher.go and mocks.go: what a mock channel has captured after the processing of a delivery.
use mathlib.Core.List.{append-nil}
use bunmq.Base.{eqb→eq}
use bunmq.Base.{ℕ, String, true, false, ◌≡◌, refl, Option, none, some, ◌&&◌, arith, if_lem}
use bunmq.Base.Int.{leb_ℤ}
use bunmq.Errors.{Error, retryable, errors_is, Result, ok, err}
use bunmq.GoType.{GoType}
use bunmq.Queue.{QueueDefinition}
use bunmq.Amqp.Channel.{Delivery}
use bunmq.Dispatcher.{DeliveryMetadata, ConsumerHandler, ConsumerDefinition, Dispatcher}
use bunmq.Dispatcher.Metadata.{panicked, extract_metadata}
use bunmq.Dispatcher.Select.{evaluate_def_by_received_msg}
use bunmq.Dispatcher.Process.{
  ack, nack, handle, span_start, span_ok, span_end, record_error, M, ◌>>◌, lift, emit, call_handler,
  publish_to_dlq, note_error, to_dlq, finish, after_handler, invoke, with_message, with_consumer,
  with_metadata, process_received_message,
}
use bunmq.Mocks.World.{World, service}
use bunmq.Dispatcher.Process.Mocked.{
  Enters, Keeps, Enters-none, Keeps-bind, Keeps-lift, Keeps-emit, Keeps-then,
}

-- Handlers that leave the mocks alone.
pub record LeavesMocks {Tls Payload : Type 0} (h : ConsumerHandler (World Tls) Payload)
    : Type 0 where
  pub same_manager :
      (x : Payload) (md : DeliveryMetadata) (w : World Tls) → (h x md w).1.manager ≡ w.manager
  pub same_channels :
      (x : Payload) (md : DeliveryMetadata) (w : World Tls) → (h x md w).1.channels ≡ w.channels

module _ {Tls Payload : Type 0} (unmarshal : String → GoType → Result Payload) (p : ℕ) where
  -- The mock manager's channel is the one at `c`.
  publish-Keeps :
      (c : ℕ) (q : QueueDefinition) (d : Delivery)
      → Keeps {Tls = Tls} p c (publish_to_dlq service unmarshal q d)
  unfolding publish_to_dlq service
  publish-Keeps c q d w e = ground (arith, eqb→eq c p, append-nil (w.channels p).published_messages)

  note-Keeps : (c : ℕ) (e : Option Error) → Keeps {Tls = Tls} p c (note_error service unmarshal e)
  note-Keeps c none w h = Enters-none p c refl refl
  note-Keeps c (some e) w h = Keeps-emit p c (record_error e) refl w h

  to_dlq-Keeps :
      (c : ℕ) (q : QueueDefinition) (d : Delivery)
      → Keeps {Tls = Tls} p c (to_dlq service unmarshal q d)
  to_dlq-Keeps c q d =
      Keeps-bind p c (publish_to_dlq service unmarshal q d)
        (λ e. note_error service unmarshal e >> emit span_end) (publish-Keeps c q d)
        (λ e.
          Keeps-bind p c (note_error service unmarshal e) (λ _. emit span_end) (note-Keeps c e)
            (λ _. Keeps-emit p c span_end refl))

  finish-Keeps : (c : ℕ) → Keeps {Tls = Tls} p c (finish service unmarshal)
  finish-Keeps c =
      Keeps-then p c (ack true) (emit span_ok >> emit span_end) refl
        (Keeps-then p c span_ok (emit span_end) refl (Keeps-emit p c span_end refl))

  abbrev Kept : ℕ → World Tls → M (World Tls) Payload (Unit {0}) → Type 0
  Kept c w m = let (r, acts, w') = m w in Enters p c acts w w'

  after_handler-Keeps :
      (c : ℕ) (q : QueueDefinition) (d : Delivery) (e : Option Error)
      → Keeps {Tls = Tls} p c (after_handler service unmarshal q d e)
  unfolding after_handler
  after_handler-Keeps c q d none w h = finish-Keeps c w h
  after_handler-Keeps c q d (some e) w h =
      if_lem (Kept c w) (q.with_retry && errors_is e retryable)
        (λ _.
          Keeps-then p c (nack false false) (emit span_end) refl (Keeps-emit p c span_end refl) w h)
        (λ _.
          if_lem (Kept c w) q.with_dlq
            (λ _.
              Keeps-then p c (record_error e) (emit (ack false) >> to_dlq service unmarshal q d)
                refl
                (Keeps-then p c (ack false) (to_dlq service unmarshal q d) refl
                  (to_dlq-Keeps c q d))
                w h)
            (λ _. Keeps-then p c (ack false) (finish service unmarshal) refl (finish-Keeps c) w h))

  -- A handler that is set leaves the mocks alone.
  abbrev pub Leaves : Option (ConsumerHandler (World Tls) Payload) → Type 0
  Leaves none = Unit
  Leaves (some h) = LeavesMocks h

  invoke-Keeps :
      (c : ℕ) (h : Option (ConsumerHandler (World Tls) Payload)) (x : Payload)
      (md : DeliveryMetadata)
      → Leaves h
      → Keeps {Tls = Tls} p c (invoke service unmarshal h x md)
  unfolding invoke
  invoke-Keeps c none x md l = Keeps-lift p c {A = Option Error} panicked
  invoke-Keeps c (some h) x md l =
      Keeps-bind p c (emit (handle x md)) (λ _. call_handler service unmarshal h x md)
        (Keeps-emit p c (handle x md) refl)
        (λ _ w e. Enters-none p c (l.same_manager x md w) (l.same_channels x md w))

  with_message-Keeps :
      (c : ℕ) (q : QueueDefinition) (d : Delivery) (md : DeliveryMetadata)
      (h : Option (ConsumerHandler (World Tls) Payload)) (r : Result Payload)
      → Leaves h
      → Keeps {Tls = Tls} p c (with_message service unmarshal q d md h r)
  unfolding with_message
  with_message-Keeps c q d md h (err e) l w g =
      Keeps-then p c (record_error e) (emit (nack true false) >> emit span_end) refl
        (Keeps-then p c (nack true false) (emit span_end) refl (Keeps-emit p c span_end refl)) w g
  with_message-Keeps c q d md h (ok x) l w g =
      if_lem (Kept c w) (q.with_retry && leb_ℤ q.retries md.x_count)
        (λ _.
          Keeps-then p c (ack false) (to_dlq service unmarshal q d) refl (to_dlq-Keeps c q d) w g)
        (λ _.
          Keeps-bind p c (invoke service unmarshal h x md) (after_handler service unmarshal q d)
            (invoke-Keeps c h x md l) (after_handler-Keeps c q d) w g)

  with_consumer-Keeps :
      (c : ℕ) (q : QueueDefinition) (d : Delivery) (md : DeliveryMetadata)
      (r : Result (ConsumerDefinition (World Tls) Payload))
      → ((k : ConsumerDefinition (World Tls) Payload) → r ≡ ok k → Leaves k.handler)
      → Keeps {Tls = Tls} p c (with_consumer service unmarshal q d md r)
  unfolding with_consumer
  with_consumer-Keeps c q d md (err e) l = Keeps-emit p c (ack false) refl
  with_consumer-Keeps c q d md (ok k) l =
      Keeps-then p c span_start
        (with_message service unmarshal q d md k.handler (unmarshal d.body k.reflect)) refl
        (with_message-Keeps c q d md k.handler (unmarshal d.body k.reflect) (l k refl))

  with_metadata-Keeps :
      (c : ℕ) (s : Dispatcher (World Tls) Payload) (q : QueueDefinition) (d : Delivery)
      (r : Result DeliveryMetadata)
      → ((md : DeliveryMetadata) (k : ConsumerDefinition (World Tls) Payload)
          → evaluate_def_by_received_msg s q md ≡ ok k
          → Leaves k.handler)
      → Keeps {Tls = Tls} p c (with_metadata service unmarshal s q d r)
  unfolding with_metadata
  with_metadata-Keeps c s q d (err e) l = Keeps-emit p c (ack false) refl
  with_metadata-Keeps c s q d (ok md) l =
      with_consumer-Keeps c q d md (evaluate_def_by_received_msg s q md) (l md)

  -- Over a mock manager, the processing of a delivery leaves the manager as it was. The manager's
  -- channel has captured what the processing published, in its order, behind what it had captured
  -- before, whatever errors are set, and any other mock channel has captured nothing more. This is
  -- for handlers that do not touch the mocks.
  pub process-Enters :
      (s : Dispatcher (World Tls) Payload) (q : QueueDefinition) (d : Delivery) (w : World Tls)
      → ((md : DeliveryMetadata) (k : ConsumerDefinition (World Tls) Payload)
          → evaluate_def_by_received_msg s q md ≡ ok k
          → Leaves k.handler)
      → let (r, acts, w') = process_received_message service unmarshal s q d w in
        Enters p w.manager.channel acts w w'
  unfolding process_received_message
  process-Enters s q d w l =
      Keeps-bind p w.manager.channel (lift (extract_metadata d))
        (with_metadata service unmarshal s q d)
        (Keeps-lift p w.manager.channel (extract_metadata d))
        (λ r. with_metadata-Keeps w.manager.channel s q d r l) w refl
