-- ===== src/Dispatcher/Process/Mocked.antt =====
-- dispatcher.go and mocks.go: what a mock channel captures of what a computation of the dispatcher
-- sends, with a rule for each construct of its monad.
pub mod Entered
use mathlib.Core.List.{append_assoc, append-nil}
use bunmq.Base.{
  eqb→eq, ℕ, String, Bool, true, false, ◌≡◌, refl, sym, ap, ◌∙◌, subst, Option, none, some, List,
  [], ◌∷◌, ◌++◌, ◌&&◌, arith, eqb, if◌then◌else◌, if_lem, Option-cases, inl, inr,
}
use bunmq.Base.Int.{leb_ℤ}
use bunmq.Errors.{Error, retryable, errors_is, Result, ok, err}
use bunmq.GoType.{GoType}
use bunmq.Queue.{QueueDefinition}
use bunmq.Amqp.Channel.{AmqpChannel, Delivery}
use bunmq.Dispatcher.{DeliveryMetadata, ConsumerHandler, ConsumerDefinition, Dispatcher}
use bunmq.Dispatcher.Metadata.{Run, returned, panicked, extract_metadata}
use bunmq.Dispatcher.Select.{evaluate_def_by_received_msg}
use bunmq.Dispatcher.Process.{
  Action, ack, nack, publish, handle, span_start, span_ok, span_end, record_error, M, ◌>>=◌, ◌>>◌,
  pure, lift, emit, call, dlq_publishing, publish_to_dlq, note_error, to_dlq, finish, after_handler,
  invoke, with_message, with_consumer, with_metadata, process_received_message,
}
use bunmq.Dispatcher.Process.Settlement.{publishes}
use bunmq.Mocks.Channel.{PublishedMessage, captured}
use bunmq.Mocks.World.{World, service, mock_channel}

-- The mock's entries for what a run sends.
abbrev pub entries_of : {Payload : Type 0} → List (Action Payload) → List PublishedMessage
entries_of [] = []
entries_of (publish x k m i msg ∷ acts) = captured x k m i msg ∷ entries_of acts
entries_of (ack m ∷ acts) = entries_of acts
entries_of (nack m r ∷ acts) = entries_of acts
entries_of (handle p md ∷ acts) = entries_of acts
entries_of (span_start ∷ acts) = entries_of acts
entries_of (span_ok ∷ acts) = entries_of acts
entries_of (span_end ∷ acts) = entries_of acts
entries_of (record_error e ∷ acts) = entries_of acts

entries_of-append :
    {Payload : Type 0} (xs ys : List (Action Payload))
    → entries_of (xs ++ ys) ≡ entries_of xs ++ entries_of ys
entries_of-append [] ys = refl
entries_of-append (publish x k m i msg ∷ xs) ys = ground (arith, entries_of-append xs ys)
entries_of-append (ack m ∷ xs) ys = entries_of-append xs ys
entries_of-append (nack m r ∷ xs) ys = entries_of-append xs ys
entries_of-append (handle p md ∷ xs) ys = entries_of-append xs ys
entries_of-append (span_start ∷ xs) ys = entries_of-append xs ys
entries_of-append (span_ok ∷ xs) ys = entries_of-append xs ys
entries_of-append (span_end ∷ xs) ys = entries_of-append xs ys
entries_of-append (record_error e ∷ xs) ys = entries_of-append xs ys

module _ {Tls Payload : Type 0} (p q : ℕ) where
  -- The mock channel at `p` from `w` to `w'`, when a run did `acts` and the manager's is at `q`.
  pub record Enters (acts : List (Action Payload)) (w w' : World Tls) : Type 0 where
    pub same_manager : w'.manager ≡ w.manager
    pub entries :
        (w'.channels p).published_messages
        ≡ (w.channels p).published_messages ++ (if eqb q p then entries_of acts else [])

  abbrev pub Keeps : {A : Type 0} → M (World Tls) Payload A → Type 0
  Keeps m = (w : World Tls) → w.manager.channel ≡ q → let (r, acts, w') = m w in Enters acts w w'

  Enters-append :
      {xs ys : List (Action Payload)} {w w' w'' : World Tls}
      → Enters xs w w'
      → Enters ys w' w''
      → Enters (xs ++ ys) w w''
  Enters-append {xs} {ys} {w} a b = record {
    same_manager = b.same_manager ∙ a.same_manager;
    entries = ground (
      arith,
      entries_of-append xs ys,
      append_assoc (w.channels p).published_messages (entries_of xs) (entries_of ys),
      append-nil (w.channels p).published_messages,
    );
  }

  pub Enters-none :
      {w w' : World Tls} → w'.manager ≡ w.manager → w'.channels ≡ w.channels → Enters [] w w'
  Enters-none {w} {w'} m c = record {
    same_manager = m;
    entries =
        ground (
          arith,
          ap (λ f. (f p).published_messages) c,
          append-nil (w.channels p).published_messages,
        );
  }

  pub Keeps-bind :
      {A B : Type 0} (m : M (World Tls) Payload A) (f : A → M (World Tls) Payload B)
      → Keeps m
      → ((a : A) → Keeps (f a))
      → Keeps (m >>= f)
  Keeps-bind {A} {B} m f k l w e = go (m w).0 (m w).1 (m w).2 (k w e)
    where
      go :
          (r : Run A) (acts : List (Action Payload)) (w' : World Tls)
          → Enters acts w w'
          → let (r', acts', w'') = elim r as (λ x. Run B × List (Action Payload) × World Tls) [
            | returned a ↦ let (r', acts', w'') = f a w' in (r', acts ++ acts', w'')
            | panicked ↦ (panicked, acts, w')
          ] in
            Enters acts' w w''
      go (returned a) acts w' h = Enters-append h (l a w' (ap (λ x. x.channel) h.same_manager ∙ e))
      go panicked acts w' h = h

  pub Keeps-lift : {A : Type 0} (r : Run A) → Keeps (lift r)
  Keeps-lift r w e = Enters-none refl refl

  pub Keeps-emit : (a : Action Payload) → publishes a ≡ false → Keeps (emit a)
  Keeps-emit (publish x k m i msg) h w e = cc
  Keeps-emit _ h w e = ground (arith, append-nil (w.channels p).published_messages)

  pub Keeps-then :
      (a : Action Payload) (m : M (World Tls) Payload (Unit {0}))
      → publishes a ≡ false
      → Keeps m
      → Keeps (emit a >> m)
  Keeps-then a m h k = Keeps-bind (emit a) (λ _. m) (Keeps-emit a h) (λ _. k)
