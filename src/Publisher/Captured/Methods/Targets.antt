-- ===== src/Publisher/Captured/Methods/Targets.antt =====
-- publisher.go: where each method of the publisher sends its message to.
use bunmq.Base.{
  String, Bool, true, false, refl, Option, List, [], ◌==◌, arith, if◌then◌else◌, inl, if_lem,
}
use bunmq.Errors.{Error}
use bunmq.Options.{PublishOption}
use bunmq.Dispatcher.{Manager}
use bunmq.Publisher.{
  P, raise, Outside, simple_publish, publish_exchange, publish_deadline, publish_queue,
  publish_queue_deadline,
}
use bunmq.Publisher.Sending.{Sends, publish-Sends, confirmed-Sends}
use bunmq.Publisher.Captured.Methods.{
  Method, simple, exchange, exchange_deadline, queue, queue_deadline, run,
}

-- Where a method sends to, and with which options.
abbrev pub to_exchange : Method → String
to_exchange (simple t) = t
to_exchange (exchange x k os) = x
to_exchange (exchange_deadline x k os) = x
to_exchange (queue q os) = ""
to_exchange (queue_deadline q os) = ""

abbrev pub with_key : Method → String
with_key (simple t) = ""
with_key (exchange x k os) = k
with_key (exchange_deadline x k os) = k
with_key (queue q os) = q
with_key (queue_deadline q os) = q

abbrev pub with_options : Method → List (Option PublishOption)
with_options (simple t) = []
with_options (exchange x k os) = os
with_options (exchange_deadline x k os) = os
with_options (queue q os) = os
with_options (queue_deadline q os) = os

abbrev pub waits : Method → Bool
waits (exchange_deadline x k os) = true
waits _ = false

module _ {W Msg : Type 0} (app : String) (manager : Manager W) (out : Outside W Msg)
    (msg : Msg) where
  -- A method that refuses an empty name has sent nothing.
  Sends-guard :
      (os : List (Option PublishOption)) (w : W) (x k n : String) (d : Bool) (e : Error)
      (m : P W (Unit {0}))
      → Sends app manager out msg os w x k d (m w).0 (m w).1
      → let r = (if n == "" then raise e else m) w in Sends app manager out msg os w x k d r.0 r.1
  Sends-guard os w x k n d e m h =
      if_lem (λ (c : P W (Unit {0})). Sends app manager out msg os w x k d (c w).0 (c w).1)
        (n == "") (λ _. (omega arith, tt, inl refl)) (λ _. h)

  pub run-Sends :
      (c : Method) (w : W)
      → let (r, sent, w') = run app manager out c msg w in
        Sends app manager out msg (with_options c) w (to_exchange c) (with_key c) (waits c) r sent
  unfolding simple_publish publish_exchange publish_deadline publish_queue publish_queue_deadline
  run-Sends (simple t) w = publish-Sends app manager out msg [] w t ""
  run-Sends (exchange x k os) w =
      Sends-guard os w x k x false _ _ (publish-Sends app manager out msg os w x k)
  run-Sends (exchange_deadline x k os) w =
      Sends-guard os w x k x true _ _ (confirmed-Sends app manager out msg os w x k)
  run-Sends (queue n os) w =
      Sends-guard os w "" n n false _ _ (publish-Sends app manager out msg os w "" n)
  run-Sends (queue_deadline n os) w =
      Sends-guard os w "" n n false _ _ (publish-Sends app manager out msg os w "" n)
