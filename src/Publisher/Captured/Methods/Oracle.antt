-- ===== src/Publisher/Captured/Methods/Oracle.antt =====
-- publisher.go and mocks.go: what a test finds on the mock channel when a method of the publisher
-- has returned no error.
use bunmq.Publisher.Captured.Methods.Targets.{to_exchange, with_key, with_options, waits, run-Sends}
use bunmq.Base.{
  ℕ, String, Bool, true, false, ◌≡◌, refl, sym, ap, ◌∙◌, Option, none, some, List, [], ◌∷◌, ◌++◌,
  ◌==◌, arith, if◌then◌else◌, inl, inr, ◌⊎◌, Bool-cases, Option-cases,
}
use bunmq.Errors.{Error}
use bunmq.Amqp.Channel.{AmqpChannel, Publishing}
use bunmq.Options.{PublishOption}
use bunmq.Publisher.{
  Sent, Ending, returned, failed, panicked, P, ◌>>=◌, raise, confirmed, send_deferred_on, Outside,
  publish_deferred_confirm, publishing, publish_deadline, wait,
}
use bunmq.Publisher.Sending.{is_returned, Carries, Sends}
use bunmq.Mocks.Channel.{PublishedMessage, captured}
use bunmq.Mocks.Channel.Setters.{get_published_messages, get_last_published_message, last}
use bunmq.Mocks.World.{World, service, mock_channel}
use bunmq.Publisher.Captured.{Records, recorded, service_free, service_refused}
use bunmq.Publisher.Captured.Methods.{
  LeavesMocks, Method, simple, exchange, exchange_deadline, queue, queue_deadline, run, run-Records,
  publishing-Keeps,
}

bind_returned :
    {W A B : Type 0} (m : P W A) (f : A → P W B) (w : W)
    → is_returned ((m >>= f) w).0 ≡ true
    → (a : A) × ((m w).0 ≡ returned a) × (is_returned (f a (m w).2).0 ≡ true)
bind_returned {A} {B} m f w h = go (m w).0 refl
  where
    go :
        (r : Ending A)
        → (m w).0 ≡ r
        → (a : A) × ((m w).0 ≡ returned a) × (is_returned (f a (m w).2).0 ≡ true)
    go (returned a) e = (a, e, ground (arith))
    go (failed x) e = cc
    go panicked e = cc

entries_one :
    {Tls : Type 0} (q : ℕ) {sent : List Sent} {w w' : World Tls} {c : PublishedMessage}
    → Records q sent w w'
    → w.manager.channel ≡ q
    → recorded (w.channels q).publish_error sent ≡ c ∷ []
    → get_published_messages (w'.channels q) ≡ get_published_messages (w.channels q) ++ c ∷ []
entries_one q r e f = ground (arith, r.entries)

last-append : (ps : List PublishedMessage) (p : PublishedMessage) → last (ps ++ p ∷ []) ≡ some p
last-append [] p = refl
last-append (q ∷ []) p = refl
last-append (q ∷ r ∷ ps) p = last-append (r ∷ ps) p

module _ {Tls Msg : Type 0} (app : String) (out : Outside (World Tls) Msg)
    (leaves : LeavesMocks out) (msg : Msg) (w : World Tls) where
  send_deferred-free :
      (q : ℕ) (x k : String) (m : Publishing) (v : World Tls)
      → is_returned (send_deferred_on app service out (mock_channel q) x k m v).0 ≡ true
      → (v.channels q).publish_error ≡ none
  send_deferred-free q x k m v h = ground arith

  deferred-free :
      (x k : String) (os : List (Option PublishOption))
      → is_returned (publish_deferred_confirm app service out x k msg os w).0 ≡ true
      → (w.channels w.manager.channel).publish_error ≡ none
  unfolding publish_deferred_confirm
  deferred-free x k os h = elim (Option-cases w.manager.get_channel_err) [
    | inl free ↦
        let (m, e, sent) =
          bind_returned (publishing app service out msg os)
            (send_deferred_on app service out (mock_channel w.manager.channel) x k) w
            (ap (λ r. is_returned r.0)
                (sym (
                  service_free w.manager.channel
                    (λ ch.
                      publishing app service out msg os >>= send_deferred_on app service out ch x k)
                    w free))
              ∙ h) in
        sym
          (publishing-Keeps w.manager.channel app out leaves msg w.manager.channel os w
            refl).same_error
        ∙ send_deferred-free w.manager.channel x k m (publishing app service out msg os w).2 sent
    | inr (e, refused) ↦ cc (
        ap (λ (r : Ending (Option ℕ) × List Sent × World Tls). is_returned r.0)
          (sym (
            service_refused w.manager.channel
              (λ (ch : AmqpChannel (World Tls)).
                publishing app service out msg os >>= send_deferred_on app service out ch x k)
              w refused))
        ∙ h)
  ]

  -- What a computation's return implies, its guard's does.
  guarded_free :
      (n : String) (e : Error) (m : P (World Tls) (Unit {0}))
      → (is_returned (m w).0 ≡ true → (w.channels w.manager.channel).publish_error ≡ none)
      → is_returned ((if n == "" then raise e else m) w).0 ≡ true
      → (w.channels w.manager.channel).publish_error ≡ none
  guarded_free n e m f h = elim (Bool-cases (n == "")) [
    | inl empty ↦ absurd (ground (arith, empty))
    | inr other ↦ f (rw other at h)
  ]

  deadline_free :
      (x k : String) (os : List (Option PublishOption))
      → is_returned
          ((do
            c ← publish_deferred_confirm app service out x k msg os
            acked ← wait app service out c
            confirmed app service out acked)
            w).0
        ≡ true
      → (w.channels w.manager.channel).publish_error ≡ none
  deadline_free x k os h =
      let (c, e, rest) =
        bind_returned (publish_deferred_confirm app service out x k msg os)
          (λ c. wait app service out c >>= confirmed app service out) w h in
      deferred-free x k os (ap is_returned e)

  waits-free :
      (c : Method)
      → is_returned (run app service out c msg w).0 ≡ true
      → (waits c ≡ false) ⊎ ((w.channels w.manager.channel).publish_error ≡ none)
  unfolding publish_deadline
  waits-free (exchange_deadline x k os) h = inr (guarded_free x _ _ (deadline_free x k os) h)
  waits-free (simple t) h = inl refl
  waits-free (exchange x k os) h = inl refl
  waits-free (queue n os) h = inl refl
  waits-free (queue_deadline n os) h = inl refl

  -- The only call of a method that returned, as the mock enters it.
  one_sent :
      (os : List (Option PublishOption)) (x k : String) (d : Bool) (e : Option Error)
      (r : Ending (Unit {0})) (sent : List Sent)
      → Sends app service out msg os w x k d r sent
      → is_returned r ≡ true
      → (d ≡ false) ⊎ (e ≡ none)
      → (s : Sent) × Carries app service out msg os w x k d s
        × (recorded e sent ≡ captured x k false false s.publishing ∷ [])
  one_sent os x k d e r [] h g f = absurd (ground (arith, h.2))
  one_sent os x k d e r (s ∷ []) h g f = (
    s,
    h.1.0,
    ground (
      arith, h.1.0.is_deferred, h.1.0.to_exchange, h.1.0.with_key, h.1.0.not_mandatory,
      h.1.0.not_immediate,
    ),
  )
  one_sent os x k d e r (s ∷ t ∷ ss) h g f = absurd (omega (arith, h.0))

  -- When a method of the publisher has returned no error over a mock manager, the mock channel has
  -- captured one message more, its last one: neither mandatory nor immediate, to the method's
  -- exchange with the method's key, the default exchange and the queue's name for the methods of a
  -- queue, with the message as JSON, its type, the publisher's name and the options' delivery mode.
  -- This is for packages that do not touch the mocks.
  pub returned-captured :
      (c : Method)
      → is_returned (run app service out c msg w).0 ≡ true
      → let w' = (run app service out c msg w).2 in
        let q = w.manager.channel in
        (s : Sent) × Carries app service out msg
          (with_options c)
          w
          (to_exchange c)
          (with_key c)
          (waits c)
          s
        × (get_published_messages (w'.channels q)
            ≡ get_published_messages (w.channels q)
              ++ captured (to_exchange c) (with_key c) false false s.publishing ∷ [])
        × (get_last_published_message (w'.channels q)
            ≡ some (captured (to_exchange c) (with_key c) false false s.publishing))
  returned-captured c h =
      let (s, carries, entry) =
        one_sent (with_options c) (to_exchange c) (with_key c) (waits c)
          (w.channels w.manager.channel).publish_error (run app service out c msg w).0
          (run app service out c msg w).1 (run-Sends app service out msg c w) h (waits-free c h) in
      let added =
        entries_one w.manager.channel (run-Records app out c msg w w.manager.channel leaves) refl
          entry in
      (
        s,
        carries,
        added,
        ap last added ∙ last-append (get_published_messages (w.channels w.manager.channel)) _,
      )
