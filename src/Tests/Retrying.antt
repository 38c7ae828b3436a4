-- ===== src/Tests/Retrying.antt =====
-- dispatcher.go and the broker: a message that is retried until it is given up.
use bunmq.Base.{ℕ, String, ◌≡◌, refl, some}
use bunmq.Base.Int.{pos}
use bunmq.Errors.{sentinel, retryable, errors_is}
use bunmq.Amqp.Channel.{Delivery}
use bunmq.Queue.{new_queue, set_dlq, set_retry}
use bunmq.Dispatcher.{DeliveryMetadata, new_dispatcher, by_type, ConsumerDefinition}
use bunmq.Dispatcher.Registry.{register_by_type}
use bunmq.Dispatcher.Metadata.{returned, extract_metadata, metadata}
use bunmq.Dispatcher.Select.{evaluate_def_by_received_msg}
use bunmq.Dispatcher.Lifetime.{IsHistory, lifetime}
use bunmq.Dispatcher.Lifetime.Bounded.{Counts, retries_bounded}
use bunmq.Tests.{shop_channel, online, parse, take_order, order_type, orders, shop, message, died}

abbrev again : ℕ → Delivery
again n = message (died n) "later"

abbrev told : ℕ → DeliveryMetadata
told n = record {
  message_id = "1";
  x_count = pos n;
  typ = "shop.Order";
  origin_exchange = "";
  routing_key = "orders";
  headers = died n;
}

abbrev consumer : ConsumerDefinition ℕ String
consumer = record {
  typ = by_type;
  queue = "orders";
  exchange = "";
  routing_key = "";
  msg_type = "shop.Order";
  reflect = order_type;
  handler = some take_order;
}

again-IsHistory : IsHistory again told
unfolding extract_metadata metadata
again-IsHistory = record {
  read = λ n. refl;
  counted = λ n. refl;
  same_typ = λ n. refl;
  same_exchange = λ n. refl;
  same_key = λ n. refl;
  same_body = λ n. refl;
}

retries_bounded_example :
    let (r, acts, w') = lifetime online parse shop orders again 4 0 0 in
    (r ≡ returned tt) × Counts 3 3 1 1 acts
unfolding new_queue set_dlq set_retry new_dispatcher register_by_type evaluate_def_by_received_msg
    errors_is
retries_bounded_example =
    retries_bounded online parse shop orders again told again-IsHistory 3 {c = consumer} refl refl
      refl refl refl (λ n w. (sentinel retryable, refl, refl)) (λ w. (shop_channel, refl)) 0
