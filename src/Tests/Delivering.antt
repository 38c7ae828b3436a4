-- ===== src/Tests/Delivering.antt =====
-- publisher.go and dispatcher.go: a text on its way to its handler.
use bunmq.Base.{
  ℕ, suc, String, ◌≡◌, ◌↔◌, false, refl, sym, inl, inr, none, some, [], ◌∷◌, arith, eq_iff,
}
use bunmq.Base.Int.{pos}
use bunmq.Base.Lists.{only, IsIn}
use bunmq.Errors.{Result, ok}
use bunmq.GoType.{GoType, builtin, pointer}
use bunmq.Queue.{new_queue, set_dlq, set_retry, set_durable, set_max_length, set_dlq_max_length}
use bunmq.Amqp.Table.{empty, entry, str}
use bunmq.Amqp.Channel.{Delivery}
use bunmq.Dispatcher.{new_dispatcher}
use bunmq.Dispatcher.Registry.{register_by_type}
use bunmq.Dispatcher.Metadata.{returned, panicked, metadata}
use bunmq.Dispatcher.Process.{ack, handle, process_received_message}
use bunmq.Dispatcher.Process.Settlement.{handles}
use bunmq.Options.Found.{options_lookup}
use bunmq.Publisher.{Outside, Sent, json_content_type, publish_queue}
use bunmq.Publisher.Captured.Methods.{queue, run}
use bunmq.Tracing.{inject, set, get, to_lower}
use bunmq.Tracing.Span.{new_consumer_span}
use bunmq.Example.{queue_def, my_custom_message, main}
use bunmq.Example.Serving.{IsSetUp, main-IsSetUp}
use bunmq.Delivered.Unheard.{sent-unheard}
use bunmq.Delivered.Traced.{sent-continues}
use bunmq.Delivered.{Arrives, sent-handles}
use bunmq.Tests.{shop_network, online, orders, take_order}

abbrev text_type : GoType
text_type = builtin "string"

abbrev texts : Outside ℕ String
texts = record {
  type_of = λ m. some text_type;
  marshal = λ m. ok m;
  trace_fields = λ w. [];
  new_id = λ w. ("id", suc w);
  wait_context = λ c w. (ok false, w);
}

abbrev read_back : String → GoType → Result String
read_back body t = ok body

abbrev tea_sent : Sent
tea_sent = record {
  exchange = "";
  key = "orders";
  mandatory = false;
  immediate = false;
  deferred = false;
  publishing = record {
    headers = empty;
    typ = "string";
    content_type = json_content_type;
    delivery_mode = 0;
    message_id = "id";
    user_id = "";
    app_id = "shop";
    body = "tea";
  };
}

abbrev tea_arrived : Delivery
tea_arrived = record {
  headers = empty;
  typ = "string";
  content_type = json_content_type;
  message_id = "id";
  user_id = "";
  app_id = "shop";
  exchange = "";
  routing_key = "orders";
  body = "tea";
}

sent-handles_example :
    let md = metadata tea_arrived (pos 0) "" "orders" in
    let shop =
      (register_by_type "orders"
        (some (pointer text_type))
        (some take_order)
        (new_dispatcher (orders ∷ []))).1 in
    let (r, acts, v') = process_received_message online read_back shop orders tea_arrived 0 in
    ((r ≡ panicked) ↔ ((take_order "tea" md 0).0 ≡ panicked))
    × (only handles acts ≡ handle "tea" md ∷ [])
unfolding new_queue set_dlq set_retry publish_queue options_lookup
sent-handles_example =
    sent-handles "shop" online texts online read_back (queue "orders" []) "tea" 0 tea_sent
      tea_arrived orders text_type (pointer text_type) take_order "tea" 0 (inl refl)
      (record {
        same_headers = refl;
        same_typ = refl;
        same_body = refl;
        same_exchange = refl;
        same_key = refl;
        alive = refl;
      })
      refl refl refl (λ body e. sym e) (λ e. ground (arith, eq_iff "orders" "")) (inr (omega arith))

-- Orders of the example program's type, with an active span.
abbrev customs : Outside ℕ String
customs = record texts {
  type_of = λ m. some (pointer my_custom_message);
  trace_fields = λ w. ("Traceparent", "00-1-2-01") ∷ [];
}

abbrev custom_sent : Sent
custom_sent = record tea_sent {
  publishing = record tea_sent.publishing {
    headers = entry "traceparent" (str "00-1-2-01") empty;
    typ = "MyCustomMessage";
  };
}

abbrev custom_arrived : Delivery
custom_arrived = record tea_arrived {
  headers = entry "traceparent" (str "00-1-2-01") empty;
  typ = "MyCustomMessage";
}

custom-Arrives : Arrives custom_sent custom_arrived
custom-Arrives = record {
  same_headers = refl;
  same_typ = refl;
  same_body = refl;
  same_exchange = refl;
  same_key = refl;
  alive = ground (arith, eq_iff "traceparent" "x-death");
}

custom-IsIn : IsIn custom_sent (run "shop" online customs (queue "orders" []) "tea" 0).1
unfolding publish_queue options_lookup inject set to_lower
custom-IsIn = inl refl

-- The queue and the registration of the example program.
sent-unheard_example :
    let r =
      register_by_type "my-queue"
        (some (pointer my_custom_message))
        (some take_order)
        (new_dispatcher (queue_def ∷ [])) in
    (r.0 ≡ none)
    × (process_received_message online read_back r.1 queue_def custom_arrived 0
        ≡ (returned tt, ack false ∷ [], 0))
unfolding queue_def new_queue set_dlq set_retry set_durable set_max_length set_dlq_max_length
sent-unheard_example =
    sent-unheard "shop" online customs online read_back (queue "orders" []) "tea" 0 custom_sent
      custom_arrived queue_def (pointer my_custom_message) (some take_order) 0 custom-IsIn
      custom-Arrives refl (ground (arith, eq_iff "MyCustomMessage" ""))
      (λ e. ground (arith, e, eq_iff "my-queue" ""))

-- A propagator that reads one key, and spans that are named by their context.
sent-continues_example :
    new_consumer_span
      (λ read. read "traceparent")
      (λ ctx name. (ctx, name))
      custom_arrived.headers
      "MyCustomMessage"
    ≡ ("00-1-2-01", "consume.MyCustomMessage")
unfolding options_lookup to_lower get
sent-continues_example =
    sent-continues "shop" online customs (λ read. read "traceparent") (λ ctx name. (ctx, name))
      (queue "orders" []) "tea" 0 custom_sent custom_arrived custom-IsIn custom-Arrives

main-IsSetUp_example : IsSetUp String shop_network 0 (main shop_network 0)
main-IsSetUp_example = main-IsSetUp String shop_network 0
