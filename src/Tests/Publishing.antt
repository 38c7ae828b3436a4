-- ===== src/Tests/Publishing.antt =====
-- publisher.go and tracing.go: examples.
use bunmq.Base.{ℕ, suc, String, true, some, List, [], ◌∷◌, Option}
use bunmq.Errors.{ok}
use bunmq.Amqp.Table.{empty}
use bunmq.Options.{PublishOption, new_options, with_delivery_mode_persistent, with_headers, build}
use bunmq.Publisher.{Outside}
use bunmq.Tests.{order_type}

-- Messages are their own JSON, with an active span.
abbrev shop_outside : Outside ℕ String
shop_outside = record {
  type_of = λ m. some order_type;
  marshal = λ m. ok m;
  trace_fields = λ w. ("traceparent", "00-1-2-01") ∷ [];
  new_id = λ w. ("id", suc w);
  wait_context = λ c w. (ok true, w);
}

abbrev sales : String
sales = "sales"

abbrev orders_queue : String
orders_queue = "orders"

abbrev some_options : List (Option PublishOption)
some_options = build (with_delivery_mode_persistent (with_headers (some empty) new_options))
