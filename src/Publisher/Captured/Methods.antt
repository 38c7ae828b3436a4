-- ===== src/Publisher/Captured/Methods.antt =====
-- publisher.go and mocks.go: what a mock channel captures of each method of the publisher.
pub mod Targets
pub mod Oracle
use mathlib.Core.List.{append_assoc, append-nil}
use bunmq.Base.{
  eqb→eq, ℕ, String, Bool, true, false, ◌≡◌, refl, sym, ap, ◌∙◌, subst, Option, none, some, List,
  [], ◌∷◌, ◌++◌, ◌&&◌, ◌==◌, arith, eqb, if◌then◌else◌, is_some, if_lem, Option-cases, ◌⊎◌, inl,
  inr,
}
use bunmq.Errors.{Error, Result, ok, err}
use bunmq.Amqp.Channel.{AmqpChannel, Publishing}
use bunmq.Options.{PublishOption}
use bunmq.Dispatcher.{Manager}
use bunmq.Publisher.{
  Sent, Ending, returned, failed, panicked, P, ◌>>=◌, confirmed, send_on, send_deferred_on, call,
  wait, of_result, Outside, publish, publish_deferred_confirm, publishing, simple_publish,
  publish_exchange, publish_deadline, publish_queue, publish_queue_deadline,
}
use bunmq.Mocks.Channel.{PublishedMessage, captured}
use bunmq.Mocks.World.{World, service, mock_channel}
use bunmq.Publisher.Captured.{Records, Keeps, Records-none, Keeps-bind, Keeps-call, Keeps-service}

-- The publisher's methods, as calls.
pub data Method : Type 0 where
  simple : (target : String) → Method
  exchange exchange_deadline : (exchange key : String) → List (Option PublishOption) → Method
  queue queue_deadline : (queue : String) → List (Option PublishOption) → Method

abbrev pub run :
    {W Msg : Type 0} → String → Manager W → Outside W Msg → Method → Msg → P W (Unit {0})
run app m out (simple t) msg = simple_publish app m out t msg
run app m out (exchange x k os) msg = publish_exchange app m out x k msg os
run app m out (exchange_deadline x k os) msg = publish_deadline app m out x k msg os
run app m out (queue q os) msg = publish_queue app m out q msg os
run app m out (queue_deadline q os) msg = publish_queue_deadline app m out q msg os

-- What the publisher uses of other packages knows nothing of the mocks.
pub record LeavesMocks {Tls Msg : Type 0} (out : Outside (World Tls) Msg) : Type 0 where
  pub id_manager : (w : World Tls) → (out.new_id w).1.manager ≡ w.manager
  pub id_channels : (w : World Tls) → (out.new_id w).1.channels ≡ w.channels
  pub wait_manager : (c : ℕ) (w : World Tls) → (out.wait_context c w).1.manager ≡ w.manager
  pub wait_channels : (c : ℕ) (w : World Tls) → (out.wait_context c w).1.channels ≡ w.channels

module _ {Tls Msg : Type 0} (p : ℕ) (app : String) (out : Outside (World Tls) Msg)
    (leaves : LeavesMocks out) (msg : Msg) where
  publishing-state :
      (os : List (Option PublishOption)) (w : World Tls)
      → let (r, sent, w') = publishing app service out msg os w in
        (sent ≡ []) × ((w' ≡ w) ⊎ (w' ≡ (out.new_id w).1))
  unfolding publishing
  publishing-state os w = ground arith

  pub publishing-Keeps :
      (q : ℕ) (os : List (Option PublishOption)) → Keeps p q (publishing app service out msg os)
  publishing-Keeps q os w e =
      let (silent, unchanged) = publishing-state os w in
      subst (λ sent. Records p sent w (publishing app service out msg os w).2) (sym silent)
        (elim unchanged [
          | inl e ↦ Records-none p (ap (λ x. x.manager) e) (ap (λ x. x.channels) e)
          | inr e ↦
              Records-none p (ap (λ x. x.manager) e ∙ leaves.id_manager w)
                (ap (λ x. x.channels) e ∙ leaves.id_channels w)
        ])

  send-Keeps :
      (q : ℕ) (x k : String) (m : Publishing)
      → Keeps p q (send_on app service out (mock_channel q) x k m)
  send-Keeps q x k m w e = ground (arith, eqb→eq q p, append-nil (w.channels p).published_messages)

  send_deferred-Keeps :
      (q : ℕ) (x k : String) (m : Publishing)
      → Keeps p q (send_deferred_on app service out (mock_channel q) x k m)
  send_deferred-Keeps q x k m w e =
      ground (arith, eqb→eq q p, append-nil (w.channels p).published_messages)

  publish-Keeps :
      (q : ℕ) (x k : String) (os : List (Option PublishOption))
      → Keeps p q (publish app service out x k msg os)
  unfolding publish
  publish-Keeps q x k os =
      Keeps-service p q (λ ch. publishing app service out msg os >>= send_on app service out ch x k)
        (Keeps-bind p q (publishing app service out msg os)
          (send_on app service out (mock_channel q) x k) (publishing-Keeps q os) (send-Keeps q x k))

  pub deferred-Keeps :
      (q : ℕ) (x k : String) (os : List (Option PublishOption))
      → Keeps p q (publish_deferred_confirm app service out x k msg os)
  unfolding publish_deferred_confirm
  deferred-Keeps q x k os =
      Keeps-service p q
        (λ ch. publishing app service out msg os >>= send_deferred_on app service out ch x k)
        (Keeps-bind p q (publishing app service out msg os)
          (send_deferred_on app service out (mock_channel q) x k) (publishing-Keeps q os)
          (send_deferred-Keeps q x k))

  wait-Keeps : (q : ℕ) (c : Option ℕ) → Keeps p q (wait app service out c)
  wait-Keeps q none w e = Records-none p refl refl
  wait-Keeps q (some c) w e =
      Keeps-call p q (out.wait_context c) (leaves.wait_manager c) (leaves.wait_channels c) w e

  confirmed-Keeps : (q : ℕ) (b : Bool) → Keeps p q (confirmed app service out b)
  confirmed-Keeps q true w e = Records-none p refl refl
  confirmed-Keeps q false w e = Records-none p refl refl

  deadline-Keeps :
      (q : ℕ) (x k : String) (os : List (Option PublishOption))
      → Keeps p q (do
        c ← publish_deferred_confirm app service out x k msg os
        acked ← wait app service out c
        confirmed app service out acked)
  deadline-Keeps q x k os =
      Keeps-bind p q (publish_deferred_confirm app service out x k msg os)
        (λ c. wait app service out c >>= confirmed app service out) (deferred-Keeps q x k os)
        λ c.
          Keeps-bind p q (wait app service out c) (confirmed app service out) (wait-Keeps q c)
            (confirmed-Keeps q)

  run-Keeps : (q : ℕ) (c : Method) → Keeps p q (run app service out c msg)
  unfolding simple_publish publish_exchange publish_deadline publish_queue publish_queue_deadline
  run-Keeps q (simple t) w e = publish-Keeps q t "" [] w e
  run-Keeps q (exchange x k os) w e =
      if_lem (λ (m : P (World Tls) (Unit {0})). Records p (m w).1 w (m w).2) (x == "")
        (λ _. Records-none p refl refl) (λ _. publish-Keeps q x k os w e)
  run-Keeps q (exchange_deadline x k os) w e =
      if_lem (λ (m : P (World Tls) (Unit {0})). Records p (m w).1 w (m w).2) (x == "")
        (λ _. Records-none p refl refl) (λ _. deadline-Keeps q x k os w e)
  run-Keeps q (queue n os) w e =
      if_lem (λ (m : P (World Tls) (Unit {0})). Records p (m w).1 w (m w).2) (n == "")
        (λ _. Records-none p refl refl) (λ _. publish-Keeps q "" n os w e)
  run-Keeps q (queue_deadline n os) w e =
      if_lem (λ (m : P (World Tls) (Unit {0})). Records p (m w).1 w (m w).2) (n == "")
        (λ _. Records-none p refl refl) (λ _. publish-Keeps q "" n os w e)

-- Over a mock manager, each method of the publisher leaves the manager and the publish error of a
-- mock channel as they were. The manager's channel has captured the method's calls in their order,
-- behind what it had captured before: all of them, but those that wait for a confirmation only
-- where no publish error is set. Any other channel has captured nothing more. This is for packages
-- that do not touch the mocks.
pub run-Records :
    {Tls Msg : Type 0} (app : String) (out : Outside (World Tls) Msg) (c : Method) (msg : Msg)
    (w : World Tls) (p : ℕ)
    → LeavesMocks out
    → let (r, sent, w') = run app service out c msg w in Records p sent w w'
run-Records app out c msg w p leaves = run-Keeps p app out leaves msg w.manager.channel c w refl
