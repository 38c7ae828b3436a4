-- ===== src/Dispatcher/Process.antt =====
-- dispatcher.go: `processReceivedMessage` and `publishToDlq`, in a monad that threads the outside
-- state, lists what is sent to the broker and the span in order, and stops at a panic. Log lines
-- and the context are left out.
pub mod Settlement
pub mod Fate
pub mod Panics
pub mod Loss
pub mod Answer
pub mod Declared
pub mod Mocked
use bunmq.Base.{String, Bool, true, false, ◌&&◌, Option, none, some, List, [], ◌∷◌, ◌++◌}
use bunmq.Base.{if◌then◌else◌}
use bunmq.Base.Int.{leb_ℤ}
use bunmq.Errors.{Error, retryable, errors_is, Result, ok, err}
use bunmq.GoType.{GoType}
use bunmq.Queue.{QueueDefinition}
use bunmq.Amqp.Channel.{AmqpChannel, Publishing, Delivery}
use bunmq.Dispatcher.{DeliveryMetadata, Manager, ConsumerHandler, ConsumerDefinition, Dispatcher}
use bunmq.Dispatcher.Metadata.{Run, returned, panicked, extract_metadata}
use bunmq.Dispatcher.Select.{evaluate_def_by_received_msg}

pub data Action (Payload : Type 0) : Type 0 where
  ack : (multiple : Bool) → Action Payload
  nack : (multiple requeue : Bool) → Action Payload
  publish : (exchange key : String) (mandatory immediate : Bool) → Publishing → Action Payload
  handle : Payload → DeliveryMetadata → Action Payload
  span_start span_ok span_end : Action Payload
  record_error : Error → Action Payload

-- The answers to `Ack` and `Nack` are dropped by the code, so these only leave a mark.
abbrev pub M : Type 0 → Type 0 → Type 0 → Type 0
M W Payload A = W → Run A × List (Action Payload) × W

module _ {W Payload : Type 0} where
  infixl 5 ◌>>=◌ ◌>>◌
  abbrev pub ◌>>=◌ : {A B : Type 0} → M W Payload A → (A → M W Payload B) → M W Payload B
  ◌>>=◌ m f w =
      let (r, acts, w') = m w in
      elim r [
        | returned a ↦ let (r', acts', w'') = f a w' in (r', acts ++ acts', w'')
        | panicked ↦ (panicked, acts, w')
      ]

  abbrev pub ◌>>◌ : {B : Type 0} → M W Payload (Unit {0}) → M W Payload B → M W Payload B
  m >> k = m >>= λ _. k

  abbrev pub pure : {A : Type 0} → A → M W Payload A
  pure a w = (returned a, [], w)

  abbrev pub lift : {A : Type 0} → Run A → M W Payload A
  lift r w = (r, [], w)

  abbrev pub emit : Action Payload → M W Payload (Unit {0})
  emit a w = (returned tt, a ∷ [], w)

  -- A call that goes outside.
  abbrev pub call : {A : Type 0} → (W → A × W) → M W Payload A
  call f w = let (a, w') = f w in (returned a, [], w')

-- The message that `publishToDlq` sends; the fields that it does not set are zero.
abbrev pub dlq_publishing : Delivery → Publishing
dlq_publishing d = record {
  headers = d.headers;
  typ = d.typ;
  content_type = d.content_type;
  delivery_mode = 0;
  message_id = d.message_id;
  user_id = d.user_id;
  app_id = d.app_id;
  body = d.body;
}

-- The connection manager and `json.Unmarshal`, which is given the bytes and the type to fill.
module _ {W Payload : Type 0} (manager : Manager W)
    (unmarshal : String → GoType → Result Payload) where
  abbrev publish_on :
      Result (AmqpChannel W) → QueueDefinition → Delivery → M W Payload (Option Error)
  publish_on (err e) q d = pure (some e)
  publish_on (ok ch) q d = do
    emit (publish "" q.dql_name false false (dlq_publishing d))
    call (ch.publish "" q.dql_name false false (dlq_publishing d))

  unfoldable pub publish_to_dlq : QueueDefinition → Delivery → M W Payload (Option Error)
  publish_to_dlq q d = do publish_on (← call manager.get_channel) q d

  -- `if err = d.publishToDlq(…); err != nil { span.RecordError(err) … }`
  abbrev note_error : Option Error → M W Payload (Unit {0})
  note_error none = pure tt
  note_error (some e) = emit (record_error e)

  abbrev to_dlq : QueueDefinition → Delivery → M W Payload (Unit {0})
  to_dlq q d = do note_error (← publish_to_dlq q d); emit span_end

  -- The last lines of `processReceivedMessage`.
  abbrev finish : M W Payload (Unit {0})
  finish = do emit (ack true); emit span_ok; emit span_end

  -- The lines behind the handler's call, by its error.
  after_handler : QueueDefinition → Delivery → Option Error → M W Payload (Unit {0})
  after_handler q d none = finish
  after_handler q d (some e) =
      if q.with_retry && errors_is e retryable
      then (do emit (nack false false); emit span_end)
      else if q.with_dlq
      then (do emit (record_error e); emit (ack false); to_dlq q d)
      else (do emit (ack false); finish)

  -- A call of a handler, whose panic nothing recovers.
  abbrev pub call_handler :
      ConsumerHandler W Payload → Payload → DeliveryMetadata → M W Payload (Option Error)
  call_handler h p md w = let (r, w') = h p md w in (r, [], w')

  -- A call of a nil function panics.
  invoke :
      Option (ConsumerHandler W Payload) → Payload → DeliveryMetadata → M W Payload (Option Error)
  invoke none p md = lift panicked
  invoke (some h) p md = do emit (handle p md); call_handler h p md

  -- From the span's start on, by the result of `json.Unmarshal`.
  with_message :
      QueueDefinition
      → Delivery
      → DeliveryMetadata
      → Option (ConsumerHandler W Payload)
      → Result Payload
      → M W Payload (Unit {0})
  unfolding after_handler invoke
  with_message q d md h (err e) = do emit (record_error e); emit (nack true false); emit span_end
  with_message q d md h (ok p) =
      if q.with_retry && leb_ℤ q.retries md.x_count
      then (do emit (ack false); to_dlq q d)
      else (do after_handler q d (← invoke h p md))

  with_consumer :
      QueueDefinition
      → Delivery
      → DeliveryMetadata
      → Result (ConsumerDefinition W Payload)
      → M W Payload (Unit {0})
  unfolding with_message
  with_consumer q d md (err e) = emit (ack false)
  with_consumer q d md (ok c) = do
    emit span_start
    with_message q d md c.handler (unmarshal d.body c.reflect)

  with_metadata :
      Dispatcher W Payload
      → QueueDefinition
      → Delivery
      → Result DeliveryMetadata
      → M W Payload (Unit {0})
  unfolding with_consumer
  with_metadata s q d (err e) = emit (ack false)
  with_metadata s q d (ok md) = with_consumer q d md (evaluate_def_by_received_msg s q md)

  unfoldable pub process_received_message :
      Dispatcher W Payload → QueueDefinition → Delivery → M W Payload (Unit {0})
  unfolding with_metadata
  process_received_message s q d = do with_metadata s q d (← lift (extract_metadata d))
