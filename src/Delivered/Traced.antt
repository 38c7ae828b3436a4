-- ===== src/Delivered/Traced.antt =====
-- publisher.go and dispatcher.go: the trace of a message on its way.
use mathlib.Core.Path.{fun_ext}
use bunmq.Base.{String, ◌<>◌, ◌≡◌, ap}
use bunmq.Base.Lists.{IsIn}
use bunmq.Amqp.Channel.{Delivery}
use bunmq.Dispatcher.{Manager}
use bunmq.Publisher.{Sent, Outside}
use bunmq.Publisher.Captured.Methods.{Method, run}
use bunmq.Publisher.Captured.Methods.Targets.{with_options}
use bunmq.Publisher.Traced.{expected, run-traces}
use bunmq.Tracing.{get}
use bunmq.Tracing.Span.{new_consumer_span}
use bunmq.Delivered.{Arrives, All-IsIn}

-- The span that the dispatcher starts for a first delivery of a message that a method of the
-- publisher has sent is named by the message's type, and its context is what the propagator reads
-- where each key has the value that the propagator last set under it when the message was sent, in
-- any case of its letters, and else the value of the header that the publisher was given.
pub sent-continues :
    {W Msg Ctx Span : Type 0} (app : String) (manager : Manager W) (out : Outside W Msg)
    (extract : (String → String) → Ctx) (start : Ctx → String → Ctx × Span) (c : Method) (msg : Msg)
    (w : W) (s : Sent) (d : Delivery)
    → IsIn s (run app manager out c msg w).1
    → Arrives s d
    → new_consumer_span extract start d.headers d.typ
      ≡ start
          (extract (expected app manager out msg (with_options c) w))
          ("consume." <> s.publishing.typ)
unfolding new_consumer_span
sent-continues app manager out extract start c msg w s d sent arrives =
    rw (arrives.same_headers, arrives.same_typ)
      (ap (λ f. start (extract f) ("consume." <> s.publishing.typ)) (fun_ext reads))
  where
    reads :
        (j : String)
        → get j s.publishing.headers ≡ expected app manager out msg (with_options c) w j
    reads j =
        All-IsIn
          (λ s. get j s.publishing.headers ≡ expected app manager out msg (with_options c) w j)
          (run app manager out c msg w).1 (run-traces app manager out msg c w j) sent
