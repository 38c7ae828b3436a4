-- ===== src/Publisher/Traced.antt =====
-- publisher.go: the trace context in the headers of what is sent.
use bunmq.Base.{
  String, ◌≡◌, refl, Option, none, some, List, [], ◌∷◌, arith, ◌==◌, if_lem, if◌then◌else◌,
}
use bunmq.Base.Lists.{All}
use bunmq.Errors.{Error}
use bunmq.Amqp.Table.{Table}
use bunmq.Options.{PublishOption}
use bunmq.Options.Found.{options_lookup}
use bunmq.Tracing.{get}
use bunmq.Tracing.Carrier.{last_set, get_or, get-inject, inject-nil}
use bunmq.Dispatcher.{Manager}
use bunmq.Publisher.{
  Sent, Ending, returned, Outside, P, ◌>>=◌, wait, raise, confirmed, or_empty, inject_into, publish,
  publish_deferred_confirm, publishing, simple_publish, publish_exchange, publish_deadline,
  publish_queue, publish_queue_deadline,
}
use bunmq.Publisher.Captured.Methods.{
  Method, simple, exchange, exchange_deadline, queue, queue_deadline, run,
}
use bunmq.Publisher.Captured.Methods.Targets.{with_options}

-- What a key reads as in headers that fields are injected into.
abbrev pub traced : String → Option Table → List (String × String) → String
traced j h fields = get_or (get j (or_empty h)) (last_set j fields)

abbrev Reads : {W : Type 0} → String → String → Ending Table × List Sent × W → Type 0
Reads j v (returned t, sent, w) = get j t ≡ v
Reads j v _ = Unit

module _ {W Msg : Type 0} (app : String) (manager : Manager W) (out : Outside W Msg) where
  inject_into-Reads :
      (j : String) (fields : List (String × String)) (h : Option Table) (w : W)
      → out.trace_fields w ≡ fields
      → Reads j (traced j h fields) (inject_into app manager out h w)
  inject_into-Reads j [] none w e = rw (Reads, e) refl
  inject_into-Reads j [] (some t) w e = rw (Reads, e) refl
  inject_into-Reads j (f ∷ fields) none w e = rw (Reads, e, inject-nil f fields) tt
  inject_into-Reads j (f ∷ fields) (some t) w e =
      let (t', set, reads) = get-inject (f ∷ fields) t in rw (Reads, e, set) (reads j)

  module _ (msg : Msg) (os : List (Option PublishOption)) (w : W) (j : String) where
    -- What the key reads as in a message that is sent with the options.
    abbrev pub expected : String
    expected = traced j (options_lookup os).headers (out.trace_fields (manager.get_channel w).1)

    publish-traces :
        (x k : String)
        → All (λ s. get j s.publishing.headers ≡ expected) (publish app manager out x k msg os w).1
    unfolding publish publishing
    publish-traces x k = ground (
      arith,
      inject_into-Reads j (out.trace_fields (manager.get_channel w).1) (options_lookup os).headers
          (manager.get_channel w).1 refl,
    )

    confirmed-traces :
        (x k : String)
        → All
            (λ s. get j s.publishing.headers ≡ expected)
            ((publish_deferred_confirm app manager out x k msg os >>= λ c.
                wait app manager out c >>= confirmed app manager out)
              w).1
    unfolding publish_deferred_confirm publishing
    confirmed-traces x k = ground (
      arith,
      inject_into-Reads j (out.trace_fields (manager.get_channel w).1) (options_lookup os).headers
          (manager.get_channel w).1 refl,
    )

  -- A method that refuses an empty name has sent nothing.
  traces-guard :
      (Q : Sent → Type 0) (n : String) (e : Error) (m : P W (Unit {0})) (w : W)
      → All Q (m w).1
      → All Q ((if n == "" then raise e else m) w).1
  traces-guard Q n e m w h =
      if_lem (λ (c : P W (Unit {0})). All Q (c w).1) (n == "") (λ _. tt) (λ _. h)

  pub run-traces :
      (msg : Msg) (c : Method) (w : W) (j : String)
      → All
          (λ s. get j s.publishing.headers ≡ expected msg (with_options c) w j)
          (run app manager out c msg w).1
  unfolding simple_publish publish_exchange publish_deadline publish_queue publish_queue_deadline
  run-traces msg (simple t) w j = publish-traces msg [] w j t ""
  run-traces msg (exchange x k os) w j = traces-guard _ x _ _ w (publish-traces msg os w j x k)
  run-traces msg (exchange_deadline x k os) w j =
      traces-guard _ x _ _ w (confirmed-traces msg os w j x k)
  run-traces msg (queue q os) w j = traces-guard _ q _ _ w (publish-traces msg os w j "" q)
  run-traces msg (queue_deadline q os) w j = traces-guard _ q _ _ w (publish-traces msg os w j "" q)
