-- ===== src/Publisher/Sending.antt =====
-- publisher.go: what the publishing methods send.
use bunmq.Base.{
  ◌≤◌, String, Bool, true, false, ◌≡◌, ◌≢◌, refl, ◌⊎◌, inl, inr, Bool-cases, Option, some, List, [],
  arith, ◌==◌, eq_iff,
}
use bunmq.Base.Lists.{length, All}
use bunmq.Errors.{foreign, ok}
use bunmq.GoType.{GoType}
use bunmq.Options.{PublishOption}
use bunmq.Options.Found.{options_lookup}
use bunmq.Dispatcher.{Manager}
use bunmq.Publisher.{
  Sent, Ending, returned, failed, Outside, ◌>>=◌, wait, confirmed, json_content_type, wire_type,
  publish, publish_deferred_confirm, publish_exchange, publish_deadline, publish_queue,
}

abbrev pub is_returned : {A : Type 0} → Ending A → Bool
is_returned (returned a) = true
is_returned _ = false

module _ {W Msg : Type 0} (app_name : String) (manager : Manager W) (out : Outside W Msg)
    (msg : Msg) (os : List (Option PublishOption)) (w : W) where
  -- What a method may send: the message's body and type, as JSON, with the publisher's name and the
  -- delivery mode of the options, neither mandatory nor immediate.
  pub record Carries (exchange key : String) (deferred : Bool) (s : Sent) : Type 0 where
    pub to_exchange : s.exchange ≡ exchange
    pub with_key : s.key ≡ key
    pub not_mandatory : s.mandatory ≡ false
    pub not_immediate : s.immediate ≡ false
    pub is_deferred : s.deferred ≡ deferred
    pub is_json : s.publishing.content_type ≡ json_content_type
    pub is_named : s.publishing.app_id ≡ app_name
    pub has_mode : s.publishing.delivery_mode ≡ (options_lookup os).delivery_mode
    pub has_type : (t : GoType) × (out.type_of msg ≡ some t) × (s.publishing.typ ≡ wire_type t)
    pub has_body : out.marshal msg ≡ ok s.publishing.body

  -- How a method ended with what it sent: at most one message, and one if it returned.
  abbrev pub Sends : {A : Type 0} → String → String → Bool → Ending A → List Sent → Type 0
  Sends x k deferred r sent =
      (length sent ≤ 1)
      × All (Carries x k deferred) sent
      × ((is_returned r ≡ false) ⊎ (length sent ≡ 1))

  pub publish-Sends :
      (x k : String)
      → let (r, sent, w') = publish app_name manager out x k msg os w in Sends x k false r sent
  unfolding publish
  publish-Sends x k = ground arith

  pub deferred-Sends :
      (x k : String)
      → let (r, sent, w') = publish_deferred_confirm app_name manager out x k msg os w in
        Sends x k true r sent
  unfolding publish_deferred_confirm
  deferred-Sends x k = ground arith

  -- `Publish` sends nothing and fails where the exchange is empty; otherwise it sends at most one
  -- message, to the exchange with the routing key, and one if it returns no error.
  pub publish_exchange-Sends :
      (x k : String)
      → let (r, sent, w') = publish_exchange app_name manager out x k msg os w in
        ((x ≡ "") × (r ≡ failed (foreign "exchange cannot be empty")) × (sent ≡ []) × (w' ≡ w))
        ⊎ ((x ≢ "") × Sends x k false r sent)
  unfolding publish_exchange
  publish_exchange-Sends x k = elim (Bool-cases (x == "")) [
    | inl e ↦ rw e (inl ((eq_iff x "").0 e, refl, refl, refl))
    | inr n ↦ rw n (inr (λ p. cc ((eq_iff x "").1 p), publish-Sends x k))
  ]

  -- `PublishQueue` sends nothing and fails where the queue is empty; otherwise it sends at most one
  -- message, to the default exchange under the queue's name, and one if it returns no error.
  pub publish_queue-Sends :
      (q : String)
      → let (r, sent, w') = publish_queue app_name manager out q msg os w in
        ((q ≡ "") × (r ≡ failed (foreign "queue cannot be empty")) × (sent ≡ []) × (w' ≡ w))
        ⊎ ((q ≢ "") × Sends "" q false r sent)
  unfolding publish_queue
  publish_queue-Sends q = elim (Bool-cases (q == "")) [
    | inl e ↦ rw e (inl ((eq_iff q "").0 e, refl, refl, refl))
    | inr n ↦ rw n (inr (λ p. cc ((eq_iff q "").1 p), publish-Sends "" q))
  ]

  pub confirmed-Sends :
      (x k : String)
      → let (r, sent, w') =
          (do
            confirm ← publish_deferred_confirm app_name manager out x k msg os
            acked ← wait app_name manager out confirm
            confirmed app_name manager out acked)
            w in
        Sends x k true r sent
  unfolding publish_deferred_confirm
  confirmed-Sends x k = ground arith

  -- `PublishDeadline` sends nothing and fails where the exchange is empty; otherwise it sends at
  -- most one message, with a confirmation asked for, to the exchange with the routing key, and one
  -- if it returns no error.
  pub publish_deadline-Sends :
      (x k : String)
      → let (r, sent, w') = publish_deadline app_name manager out x k msg os w in
        ((x ≡ "") × (r ≡ failed (foreign "exchange cannot be empty")) × (sent ≡ []) × (w' ≡ w))
        ⊎ ((x ≢ "") × Sends x k true r sent)
  unfolding publish_deadline
  publish_deadline-Sends x k = elim (Bool-cases (x == "")) [
    | inl e ↦ rw e (inl ((eq_iff x "").0 e, refl, refl, refl))
    | inr n ↦ rw n (inr (λ p. cc ((eq_iff x "").1 p), confirmed-Sends x k))
  ]
