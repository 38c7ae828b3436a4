-- ===== src/Dispatcher/Tags/Shared.antt =====
-- dispatcher.go and the broker: what the settlements do to a channel that the queues share, and to
-- any channel where a delivery is settled twice.
use bunmq.Base.{
  ℕ, ◌<◌, ◌≤◌, String, Bool, true, false, ◌&&◌, ◌||◌, ◌≡◌, refl, sym, ap, ◌∙◌, subst, inl, inr,
  Option, none, some, List, [], ◌∷◌, arith, Bool-cases,
}
use bunmq.Base.Lists.{count_by, only}
use bunmq.Errors.{Error, retryable, errors_is, Result}
use bunmq.GoType.{GoType}
use bunmq.Queue.{QueueDefinition}
use bunmq.Amqp.Channel.{Delivery}
use bunmq.Dispatcher.{DeliveryMetadata, ConsumerHandler, Manager, ConsumerDefinition, Dispatcher}
use bunmq.Dispatcher.Metadata.{Run, returned, panicked}
use bunmq.Dispatcher.Process.{
  Action, ack, nack, publish, handle, span_start, span_ok, span_end, record_error,
  process_received_message,
}
use bunmq.Dispatcher.Process.Settlement.{settles, process-settles}
use bunmq.Dispatcher.Process.Fate.{IsDue}
use bunmq.Dispatcher.Process.Answer.{settlement_by, process-answers}
use bunmq.Dispatcher.Tags.{Broker, replay}
use bunmq.Dispatcher.Tags.InOrder.{settle_own}

-- Does the broker accept how a handler's answer is settled?
abbrev pub accepts : QueueDefinition → Run (Option Error) → Bool
accepts q panicked = true
accepts q (returned none) = true
accepts q (returned (some e)) = q.with_retry && errors_is e retryable || q.with_dlq

module _ (broker : Broker) {Payload : Type 0} (tag : ℕ) where
  -- Only the settlements matter.
  replay-only :
      (acts : List (Action Payload)) (c : broker.Channel)
      → replay broker tag acts c ≡ replay broker tag (only settles acts) c
  replay-only [] c = refl
  replay-only (ack m ∷ acts) c = replay-only acts (broker.settle tag m c)
  replay-only (nack m r ∷ acts) c = replay-only acts (broker.settle tag m c)
  replay-only (publish x k m i msg ∷ acts) c = replay-only acts c
  replay-only (handle p md ∷ acts) c = replay-only acts c
  replay-only (span_start ∷ acts) c = replay-only acts c
  replay-only (span_ok ∷ acts) c = replay-only acts c
  replay-only (span_end ∷ acts) c = replay-only acts c
  replay-only (record_error e ∷ acts) c = replay-only acts c

  replay_closed :
      (acts : List (Action Payload)) (c : broker.Channel)
      → broker.is_open c ≡ false
      → broker.is_open (replay broker tag acts c) ≡ false
  replay_closed [] c h = h
  replay_closed (ack m ∷ acts) c h = replay_closed acts _ (broker.closed_stays tag m c h)
  replay_closed (nack m r ∷ acts) c h = replay_closed acts _ (broker.closed_stays tag m c h)
  replay_closed (publish x k m i msg ∷ acts) c h = replay_closed acts c h
  replay_closed (handle p md ∷ acts) c h = replay_closed acts c h
  replay_closed (span_start ∷ acts) c h = replay_closed acts c h
  replay_closed (span_ok ∷ acts) c h = replay_closed acts c h
  replay_closed (span_end ∷ acts) c h = replay_closed acts c h
  replay_closed (record_error e ∷ acts) c h = replay_closed acts c h

  replay_unknown :
      (acts : List (Action Payload)) (c : broker.Channel)
      → 1 ≤ count_by settles acts
      → broker.outstanding tag c ≡ false
      → broker.is_open (replay broker tag acts c) ≡ false
  replay_unknown [] c n h = absurd (omega arith)
  replay_unknown (ack m ∷ acts) c n h = replay_closed acts _ (broker.unknown_closes tag m c h)
  replay_unknown (nack m r ∷ acts) c n h = replay_closed acts _ (broker.unknown_closes tag m c h)
  replay_unknown (publish x k m i msg ∷ acts) c n h = replay_unknown acts c n h
  replay_unknown (handle p md ∷ acts) c n h = replay_unknown acts c n h
  replay_unknown (span_start ∷ acts) c n h = replay_unknown acts c n h
  replay_unknown (span_ok ∷ acts) c n h = replay_unknown acts c n h
  replay_unknown (span_end ∷ acts) c n h = replay_unknown acts c n h
  replay_unknown (record_error e ∷ acts) c n h = replay_unknown acts c n h

  settlement-accepts :
      (q : QueueDefinition) (o : Run (Option Error)) (acts : List (Action Payload))
      (c : broker.Channel)
      → acts ≡ settlement_by q o
      → broker.is_open c ≡ true
      → broker.outstanding tag c ≡ true
      → broker.is_open (replay broker tag acts c) ≡ accepts q o
  settlement-accepts q panicked acts c e h k = rw e h
  settlement-accepts q (returned none) acts c e h k = rw e (broker.known_stays tag true c h k)
  settlement-accepts q (returned (some x)) acts c e h k = rw e (
      ground (
        arith,
        broker.known_stays tag false c h k,
        broker.unknown_closes tag true (broker.settle tag false c)
            (settle_own broker tag false c k),
      ))

module _ (broker : Broker) {W Payload : Type 0} (manager : Manager W)
    (unmarshal : String → GoType → Result Payload) (s : Dispatcher W Payload) where
  -- When a due message with a handler has been processed, the channel that it came on is open
  -- exactly if the handler panicked, returned no error, or one that asks for a retry on a queue with retry, or
  -- the queue has a dead-letter queue. In the other cases the delivery is settled twice, and the
  -- broker closes the channel.
  pub process-accepts :
      (q : QueueDefinition) (d : Delivery) (w : W) (tag : ℕ) (c : broker.Channel)
      {k : ConsumerDefinition W Payload} {p : Payload} {md : DeliveryMetadata}
      {h : ConsumerHandler W Payload}
      → IsDue unmarshal s q d k p md
      → k.handler ≡ some h
      → broker.is_open c ≡ true
      → broker.outstanding tag c ≡ true
      → broker.is_open (replay broker tag (process_received_message manager unmarshal s q d w).1 c)
        ≡ accepts q (h p md w).0
  process-accepts q d w tag c {p = p} {md = md} {h = h} due e o u =
      ap broker.is_open
        (replay-only broker tag (process_received_message manager unmarshal s q d w).1 c)
      ∙ settlement-accepts broker tag q (h p md w).0 _ c
          (process-answers manager unmarshal s q d w due e) o u

  -- Where two deliveries of one channel, of two queues or of one, are processed against the order
  -- of their tags, and the handler of the later one returned no error, the broker has closed the
  -- channel once the earlier one is processed too: the success acknowledged the earlier delivery,
  -- which is then settled again, whatever its handler answers.
  pub shared-closes :
      (q r : QueueDefinition) (d e : Delivery) (w v : W) (earlier later : ℕ) (c : broker.Channel)
      {k : ConsumerDefinition W Payload} {p : Payload} {md : DeliveryMetadata}
      {h : ConsumerHandler W Payload}
      → earlier < later
      → IsDue unmarshal s q d k p md
      → k.handler ≡ some h
      → (h p md w).0 ≡ returned none
      → (process_received_message manager unmarshal s r e v).0 ≡ returned tt
      → broker.is_open (
          replay broker earlier
            (process_received_message manager unmarshal s r e v).1
            (replay broker later (process_received_message manager unmarshal s q d w).1 c))
        ≡ false
  shared-closes q r d e w v earlier later c {p = p} {md = md} {h = h} lt due set success done =
      subst (λ x. broker.is_open (replay broker earlier others x) ≡ false) (sym acknowledged)
        (elim (Bool-cases (broker.outstanding later c)) [
          | inl known ↦
              replay_unknown broker earlier others after settled
                (ground (arith, broker.settled later true earlier c known))
          | inr unknown ↦
              replay_closed broker earlier others after (broker.unknown_closes later true c unknown)
        ])
    where
      others : List (Action Payload)
      others = (process_received_message manager unmarshal s r e v).1

      after : broker.Channel
      after = broker.settle later true c

      settled : 1 ≤ count_by settles others
      settled = ground (arith, process-settles manager unmarshal s r e v done)

      answer : settlement_by {Payload = Payload} q (h p md w).0 ≡ ack true ∷ []
      answer = rw success refl

      acknowledged :
          replay broker later (process_received_message manager unmarshal s q d w).1 c ≡ after
      acknowledged =
          replay-only broker later (process_received_message manager unmarshal s q d w).1 c
          ∙ ap (λ x. replay broker later x c)
              (process-answers manager unmarshal s q d w due set ∙ answer)
