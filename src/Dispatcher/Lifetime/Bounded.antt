-- ===== src/Dispatcher/Lifetime/Bounded.antt =====
-- dispatcher.go and the broker: a message whose handler always asks for a retry.
use bunmq.Base.{
  ℕ, zero, suc, ◌+◌, ◌<◌, String, true, false, ◌≡◌, ap, ◌∙◌, some, List, ◌++◌, ltb, if_lem, arith,
}
use bunmq.Base.Int.{pos}
use bunmq.Base.Lists.{count_by, count_by-append}
use bunmq.Errors.{Error, errors_is, retryable, Result, ok}
use bunmq.GoType.{GoType}
use bunmq.Queue.{QueueDefinition}
use bunmq.Amqp.Channel.{AmqpChannel, Delivery}
use bunmq.Dispatcher.{DeliveryMetadata, ConsumerHandler, ConsumerDefinition, Manager, Dispatcher}
use bunmq.Dispatcher.Metadata.{Run, returned, extract_metadata}
use bunmq.Dispatcher.Select.{evaluate_def_by_received_msg}
use bunmq.Dispatcher.Select.SameFields.{evaluate_same}
use bunmq.Dispatcher.Process.{Action, process_received_message, publish_to_dlq}
use bunmq.Dispatcher.Process.Settlement.{handles, publishes}
use bunmq.Dispatcher.Lifetime.{IsHistory, rejects, acknowledges, lifetime}

module _ {Payload : Type 0} where
  -- What so many actions come to, each count by its kind.
  abbrev pub Counts : ℕ → ℕ → ℕ → ℕ → List (Action Payload) → Type 0
  Counts handled rejected acknowledged published acts =
      (count_by handles acts ≡ handled)
      × (count_by rejects acts ≡ rejected)
      × (count_by acknowledges acts ≡ acknowledged)
      × (count_by publishes acts ≡ published)

  Counts-append :
      (k : ℕ) (one more : List (Action Payload))
      → Counts 1 1 0 0 one
      → Counts k k 1 1 more
      → Counts (suc k) (suc k) 1 1 (one ++ more)
  Counts-append k one more a b = (
    omega (arith, a.0, b.0, count_by-append handles one more),
    omega (arith, a.1, b.1, count_by-append rejects one more),
    omega (arith, a.2, b.2, count_by-append acknowledges one more),
    omega (arith, a.3, b.3, count_by-append publishes one more),
  )

  no_rejection :
      (acts : List (Action Payload))
      → count_by rejects acts ≡ 0
      → ltb 0 (count_by rejects acts) ≡ true
      → ⊥
  no_rejection acts e h = ground arith

  one_rejection :
      (acts : List (Action Payload))
      → count_by rejects acts ≡ 1
      → ltb 0 (count_by rejects acts) ≡ false
      → ⊥
  one_rejection acts e h = ground arith

module _ {W Payload : Type 0} (manager : Manager W) (unmarshal : String → GoType → Result Payload)
    (s : Dispatcher W Payload) (q : QueueDefinition) where
  -- A delivery that may be retried, and one that may not.
  retried :
      (d : Delivery) (w : W) {md : DeliveryMetadata} {c : ConsumerDefinition W Payload}
      {p : Payload} {h : ConsumerHandler W Payload} {e : Error} (n limit : ℕ)
      → extract_metadata d ≡ returned (ok md)
      → evaluate_def_by_received_msg s q md ≡ ok c
      → unmarshal d.body c.reflect ≡ ok p
      → c.handler ≡ some h
      → q.with_retry ≡ true
      → q.retries ≡ pos limit
      → md.x_count ≡ pos n
      → n < limit
      → (h p md w).0 ≡ returned (some e)
      → errors_is e retryable ≡ true
      → let (r, acts, w') = process_received_message manager unmarshal s q d w in
        Counts 1 1 0 0 acts
  unfolding process_received_message publish_to_dlq
  retried d w n limit a b f g i j k l m o = ground arith

  given_up :
      (d : Delivery) (w : W) {md : DeliveryMetadata} {c : ConsumerDefinition W Payload}
      {p : Payload} {ch : AmqpChannel W} (n : ℕ)
      → extract_metadata d ≡ returned (ok md)
      → evaluate_def_by_received_msg s q md ≡ ok c
      → unmarshal d.body c.reflect ≡ ok p
      → q.with_retry ≡ true
      → q.retries ≡ pos n
      → md.x_count ≡ pos n
      → (manager.get_channel w).0 ≡ ok ch
      → let (r, acts, w') = process_received_message manager unmarshal s q d w in
        (r ≡ returned tt) × Counts 0 0 1 1 acts
  unfolding process_received_message publish_to_dlq
  given_up d w n a b f i j k m = ground arith

  -- Such a lifetime ends with the delivery given up.
  abbrev Ends : ℕ → Run (Unit {0}) × List (Action Payload) × W → Type 0
  Ends m (r, acts, w) = (r ≡ returned tt) × Counts m m 1 1 acts

  module _ (d : ℕ → Delivery) (md : ℕ → DeliveryMetadata) (v : IsHistory d md) (limit : ℕ)
      {c : ConsumerDefinition W Payload} {p : Payload} {h : ConsumerHandler W Payload}
      (chosen : evaluate_def_by_received_msg s q (md 0) ≡ ok c)
      (decoded : unmarshal (d 0).body c.reflect ≡ ok p) (handler : c.handler ≡ some h)
      (retry : q.with_retry ≡ true) (retries : q.retries ≡ pos limit)
      (again : (n : ℕ) (w : W)
        → (e : Error) × ((h p (md n) w).0 ≡ returned (some e)) × (errors_is e retryable ≡ true))
      (channel : (w : W) → (ch : AmqpChannel W) × ((manager.get_channel w).0 ≡ ok ch)) where
    chosen_at : (n : ℕ) → evaluate_def_by_received_msg s q (md n) ≡ ok c
    chosen_at n =
        evaluate_same (md n) (md 0) s q (v.same_typ n) (v.same_exchange n) (v.same_key n) ∙ chosen

    decoded_at : (n : ℕ) → unmarshal (d n).body c.reflect ≡ ok p
    decoded_at n = ap (λ b. unmarshal b c.reflect) (v.same_body n) ∙ decoded

    lifetime_from :
        (m n : ℕ) (w : W) → n + m ≡ limit → Ends m (lifetime manager unmarshal s q d (suc m) n w)
    unfolding lifetime
    lifetime_from zero n w e =
        let acts = (process_received_message manager unmarshal s q (d n) w).1 in
        let (ch, open_now) = channel w in
        let at_limit : q.retries ≡ pos n = retries ∙ ap pos (omega (arith, e)) in
        let (ends, counts) =
          given_up (d n) w n (v.read n) (chosen_at n) (decoded_at n) retry at_limit (v.counted n)
            open_now in
        if_lem (Ends zero) (ltb 0 (count_by rejects acts))
          (λ y. absurd (no_rejection acts counts.1 y)) (λ y. (ends, counts))
    lifetime_from (suc m) n w e =
        let acts = (process_received_message manager unmarshal s q (d n) w).1 in
        let (x, fails, asks) = again n w in
        let counts =
          retried (d n) w n limit (v.read n) (chosen_at n) (decoded_at n) handler retry retries
            (v.counted n) (omega (arith, e)) fails asks in
        let (ends, rest) =
          lifetime_from m (suc n) (process_received_message manager unmarshal s q (d n) w).2
            (omega (arith, e)) in
        if_lem (Ends (suc m)) (ltb 0 (count_by rejects acts))
          (λ y. (ends, Counts-append m acts _ counts rest))
          (λ y. absurd (one_rejection acts counts.1 y))

    -- On a queue with retry, a message whose deliveries form a history, whose first one finds a
    -- consumer with a handler and decodes for it, and whose handler fails each time with an error
    -- that asks for a retry, while a channel can be had: it is given to the handler as often as
    -- the queue has retries and rejected as often, and its next delivery is acknowledged and
    -- published once, which ends it.
    pub retries_bounded :
        (w : W)
        → let (r, acts, w') = lifetime manager unmarshal s q d (suc limit) 0 w in
          (r ≡ returned tt) × Counts limit limit 1 1 acts
    retries_bounded w = lifetime_from limit 0 w (omega arith)
