-- ===== src/Publisher/Captured.antt =====
-- publisher.go and mocks.go: what a mock channel captures of what a computation of the publisher
-- sends, with a rule for each construct of its monad. The methods are in the child Methods.
pub mod Methods
use mathlib.Core.List.{append_assoc, append-nil}
use bunmq.Base.{
  eqb→eq, ℕ, String, Bool, true, false, ◌≡◌, refl, sym, ap, ◌∙◌, subst, Option, none, some, List,
  [], ◌∷◌, ◌++◌, ◌&&◌, ◌==◌, arith, eqb, if◌then◌else◌, is_some, if_lem, Option-cases, ◌⊎◌, inl,
  inr,
}
use bunmq.Errors.{Error, Result, ok, err}
use bunmq.Amqp.Channel.{AmqpChannel, Publishing}
use bunmq.Options.{PublishOption}
use bunmq.Dispatcher.{Manager}
use bunmq.Publisher.{
  Sent, Ending, returned, failed, panicked, P, ◌>>=◌, raise, confirmed, send_on, send_deferred_on,
  call, of_result, Outside, publish, publish_deferred_confirm, publishing, simple_publish,
  publish_exchange, publish_deadline, publish_queue, publish_queue_deadline,
}
use bunmq.Mocks.Channel.{PublishedMessage, captured}
use bunmq.Mocks.World.{World, service, mock_channel}

-- The mock's entries for the calls that were made on it, by its publish error: a call that waits
-- for a confirmation is captured only where no such error is set.
abbrev pub recorded : Option Error → List Sent → List PublishedMessage
recorded e [] = []
recorded e (s ∷ ss) =
    if s.deferred && is_some e
    then recorded e ss
    else captured s.exchange s.key s.mandatory s.immediate s.publishing ∷ recorded e ss

recorded-append :
    (e : Option Error) (ss ts : List Sent) → recorded e (ss ++ ts) ≡ recorded e ss ++ recorded e ts
recorded-append e [] ts = refl
recorded-append e (s ∷ ss) ts = ground (arith, recorded-append e ss ts)

module _ {Tls : Type 0} (p : ℕ) where
  -- The mock channel at `p` from `w` to `w'`, when `sent` was called on the manager's channel.
  pub record Records (sent : List Sent) (w w' : World Tls) : Type 0 where
    pub same_manager : w'.manager ≡ w.manager
    pub same_error : (w'.channels p).publish_error ≡ (w.channels p).publish_error
    pub entries :
        (w'.channels p).published_messages
        ≡ (w.channels p).published_messages
          ++ (if eqb w.manager.channel p then recorded (w.channels p).publish_error sent else [])

  Records-append :
      {ss ts : List Sent} {w w' w'' : World Tls}
      → Records ss w w'
      → Records ts w' w''
      → Records (ss ++ ts) w w''
  Records-append {ss} {ts} {w} {w'} {w''} a b = record {
    same_manager = b.same_manager ∙ a.same_manager;
    same_error = b.same_error ∙ a.same_error;
    entries = ground (
      arith,
      recorded-append (w.channels p).publish_error ss ts,
      append_assoc (w.channels p).published_messages (recorded (w.channels p).publish_error ss)
          (recorded (w.channels p).publish_error ts),
      append-nil (w.channels p).published_messages,
    );
  }

  -- What `m` does, run while the manager holds the channel at `q`.
  abbrev pub Keeps : ℕ → {A : Type 0} → P (World Tls) A → Type 0
  Keeps q m = (w : World Tls) → w.manager.channel ≡ q → let (r, sent, w') = m w in Records sent w w'

  pub Records-none :
      {w w' : World Tls} → w'.manager ≡ w.manager → w'.channels ≡ w.channels → Records [] w w'
  Records-none {w} {w'} m c = record {
    same_manager = m;
    same_error = ap (λ f. (f p).publish_error) c;
    entries =
        ground (
          arith,
          ap (λ f. (f p).published_messages) c,
          append-nil (w.channels p).published_messages,
        );
  }

  pub Keeps-bind :
      (q : ℕ) {A B : Type 0} (m : P (World Tls) A) (f : A → P (World Tls) B)
      → Keeps q m
      → ((a : A) → Keeps q (f a))
      → Keeps q (m >>= f)
  Keeps-bind q {A} {B} m f k l w e = go (m w).0 (m w).1 (m w).2 (k w e)
    where
      go :
          (r : Ending A) (sent : List Sent) (w' : World Tls)
          → Records sent w w'
          → let (r', sent', w'') = elim r as (λ x. Ending B × List Sent × World Tls) [
            | returned a ↦ let (r', sent', w'') = f a w' in (r', sent ++ sent', w'')
            | failed e ↦ (failed e, sent, w')
            | panicked ↦ (panicked, sent, w')
          ] in
            Records sent' w w''
      go (returned a) sent w' h = Records-append h (l a w' (ap (λ x. x.channel) h.same_manager ∙ e))
      go (failed e) sent w' h = h
      go panicked sent w' h = h

  call_silent :
      {A : Type 0} (f : World Tls → Result A × World Tls) (w : World Tls)
      → call f w ≡ ((call f w).0, [], (f w).1)
  call_silent f w = ground arith

  Keeps-of_result : (q : ℕ) {A : Type 0} (r : Result A) → Keeps q (of_result r)
  Keeps-of_result q (ok a) w h = Records-none refl refl
  Keeps-of_result q (err e) w h = Records-none refl refl

  pub Keeps-call :
      (q : ℕ) {A : Type 0} (f : World Tls → Result A × World Tls)
      → ((w : World Tls) → (f w).1.manager ≡ w.manager)
      → ((w : World Tls) → (f w).1.channels ≡ w.channels)
      → Keeps q (call f)
  Keeps-call q f m c w e =
      subst (λ r. Records r.1 w r.2) (sym (call_silent f w)) (Records-none (m w) (c w))

  pub service_free :
      {A : Type 0} (f : AmqpChannel (World Tls) → P (World Tls) A) (w : World Tls)
      → w.manager.get_channel_err ≡ none
      → (call service.get_channel >>= f) w ≡ f (mock_channel w.manager.channel) w
  unfolding service
  service_free f w e = ground arith

  pub service_refused :
      {A : Type 0} (f : AmqpChannel (World Tls) → P (World Tls) A) (w : World Tls) {x : Error}
      → w.manager.get_channel_err ≡ some x
      → (call service.get_channel >>= f) w ≡ (failed x, [], w)
  unfolding service
  service_refused f w e = ground arith

  abbrev RecordsAt :
      {A : Type 0} → (AmqpChannel (World Tls) → P (World Tls) A) → World Tls → ℕ → Type 0
  RecordsAt f w j = let (r, sent, w') = f (mock_channel j) w in Records sent w w'

  pub Keeps-service :
      (q : ℕ) {A : Type 0} (f : AmqpChannel (World Tls) → P (World Tls) A)
      → Keeps q (f (mock_channel q))
      → Keeps q (call service.get_channel >>= f)
  unfolding service
  Keeps-service q {A} f k w e = elim (Option-cases w.manager.get_channel_err) [
    | inl free ↦
        subst (λ (r : Ending A × List Sent × World Tls). Records r.1 w r.2)
          (sym (service_free f w free)) (subst (RecordsAt f w) (sym e) (k w e))
    | inr (x, refused) ↦
        subst (λ (r : Ending A × List Sent × World Tls). Records r.1 w r.2)
          (sym (service_refused f w refused)) (Records-none refl refl)
  ]
