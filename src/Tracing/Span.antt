-- ===== src/Tracing/Span.antt =====
-- tracing.go, `NewConsumerSpan`: the span of a consumer, in the trace that a message's headers name.
use bunmq.Base.{String, ◌<>◌}
use bunmq.Amqp.Table.{Table}
use bunmq.Tracing.{get}

module _ {Ctx Span : Type 0} where
  -- `AMQPPropagator.Extract` reads its carrier by `Get`, and `tracer.Start` makes a span with a name
  -- in a context; both belong to OpenTelemetry.
  unfoldable pub new_consumer_span :
      (extract : (String → String) → Ctx) (start : Ctx → String → Ctx × Span) (header : Table)
      (typ : String)
      → Ctx × Span
  new_consumer_span extract start header typ =
      start (extract (λ key. get key header)) ("consume." <> typ)
