-- ===== src/Tests/Registering.antt =====
-- dispatcher.go, registering, choosing a consumer and reading a delivery: examples.
use bunmq.Base.{
  ℕ, ◌≡◌, ◌↔◌, ◌≢◌, refl, String, true, false, not, none, some, List, [], ◌∷◌, arith, eq_iff,
  Option,
}
use bunmq.Errors.{ok}
use bunmq.Amqp.Table.{
  Values, nil, cons, table, entry, int64, str, empty, lookup, as_table, as_values, last_or,
  as_string,
}
use bunmq.Amqp.Channel.{Delivery}
use bunmq.Queue.{new_queue, set_dlq, set_retry}
use bunmq.Dispatcher.{DeliveryMetadata, ConsumerDefinition, by_type, new_dispatcher}
use bunmq.Dispatcher.Registry.{consumers_of, register_by_type}
use bunmq.Dispatcher.Registry.Append.{
  Registration, for_type, for_exchange, for_exchange_routing_key, register,
}
use bunmq.Dispatcher.Registry.Called.{Answers, register-Answers}
use bunmq.Dispatcher.Registry.Invariant.{IsValid, register_all, register_all-IsValid}
use bunmq.Dispatcher.Select.{evaluate_def_by_received_msg}
use bunmq.Dispatcher.Select.FirstMatch.{IsFirstMatch, evaluate-first}
use bunmq.Tests.{orders, shop, order_type, take_order, message}

abbrev order_call : Registration ℕ String
order_call = for_type "orders" (some order_type) (some take_order)

abbrev bare_call : Registration ℕ String
bare_call = for_exchange "orders" none "sales" (some take_order)

abbrev sale_call : Registration ℕ String
sale_call = for_exchange_routing_key "orders" (some order_type) "sales" "new" (some take_order)

register-Answers_example : Answers sale_call shop (register sale_call shop)
register-Answers_example = register-Answers sale_call shop

register_all-IsValid_example :
    IsValid (register_all (order_call ∷ bare_call ∷ sale_call ∷ []) (new_dispatcher (orders ∷ [])))
register_all-IsValid_example =
    register_all-IsValid (orders ∷ []) (order_call ∷ bare_call ∷ sale_call ∷ [])

abbrev order : ConsumerDefinition ℕ String
order = record {
  typ = by_type;
  queue = "orders";
  exchange = "";
  routing_key = "";
  msg_type = "shop.Order";
  reflect = order_type;
  handler = some take_order;
}

abbrev fresh : DeliveryMetadata
fresh = record {
  message_id = "1";
  x_count = bunmq.Base.Int.pos 0;
  typ = "Order";
  origin_exchange = "";
  routing_key = "orders";
  headers = empty;
}

evaluate-first_example :
    (evaluate_def_by_received_msg shop orders fresh ≡ ok order)
    ↔ IsFirstMatch fresh (consumers_of "orders" shop) order
unfolding new_queue set_dlq set_retry new_dispatcher register_by_type
evaluate-first_example = evaluate-first shop orders fresh order (tt, tt)

abbrev first_death : Values
first_death = cons (table (entry "exchange" (str "sales") empty)) nil

abbrev latest_death : bunmq.Amqp.Table.Value
latest_death = table (entry "count" (int64 (bunmq.Base.Int.pos 2)) empty)

abbrev died_twice : Delivery
died_twice =
    message (entry "x-death" (bunmq.Amqp.Table.array (cons latest_death first_death)) empty) "tea"
