-- ===== src/Tests.antt =====
-- A small shop as test data for all parts: its outside, queues, consumers and messages. The
-- children hold the examples of each part.
pub mod Processing
pub mod Registering
pub mod Declaring
pub mod Connecting
pub mod Consuming
pub mod Publishing
pub mod Retrying
pub mod Mocking
pub mod Tagging
pub mod Delivering
pub mod Reconnected
use bunmq.Base.{
  ℕ, suc, ◌+◌, String, ◌==◌, Bool, true, false, Option, none, some, List, [], ◌∷◌, if◌then◌else◌,
}
use bunmq.Base.Int.{ℤ, pos}
use bunmq.Errors.{Error, sentinel, foreign, retryable, Result, ok, err}
use bunmq.GoType.{GoType, named, pointer}
use bunmq.Amqp.Table.{Table, str, int64, array, table, nil, cons, empty, entry}
use bunmq.Amqp.Channel.{AmqpChannel, Delivery}
use bunmq.Queue.{QueueDefinition, new_queue, set_dlq, set_retry}
use bunmq.Connection.{Network}
use bunmq.Dispatcher.{Manager, ConsumerHandler, Dispatcher, new_dispatcher}
use bunmq.Dispatcher.Metadata.{returned, panicked}
use bunmq.Dispatcher.Registry.{register_by_type}

abbrev pub message : Table → String → Delivery
message h body = record {
  headers = h;
  typ = "shop.Order";
  content_type = "application/json";
  message_id = "1";
  user_id = "";
  app_id = "shop";
  exchange = "";
  routing_key = "orders";
  body = body;
}

-- The x-death header of a message that has died so often.
abbrev pub died : ℕ → Table
died n =
    entry "x-death"
      (array (cons (table (entry "count" (int64 (pos n)) (entry "exchange" (str "") empty))) nil))
      empty

-- The outside counts what is done to it. Two messages wait in every queue.
abbrev pub shop_channel : AmqpChannel ℕ
shop_channel = record {
  declare = λ x w. (none, suc w);
  publish = λ x k m i p w. (none, suc w);
  publish_with_deferred_confirm = λ x k m i p w. (ok (some w), suc w);
  consume =
      λ q c a e l n t w. (ok (message (died 2) "tea" ∷ message (died 3) "tea" ∷ [], true), suc w);
  qos = λ n z g w. (none, suc w);
}

-- A connection manager that hands the channel out, and one that is closed.
abbrev pub online : Manager ℕ
online = record { get_channel = λ w. (ok shop_channel, w) }

abbrev pub offline : Manager ℕ
offline = record { get_channel = λ w. (err (foreign "closed"), w) }

-- Handles are the counts at which they were made, and nothing is ever closed from outside.
abbrev pub shop_network : Network ℕ
shop_network = record {
  dial = λ a c w. (ok w, suc w);
  open_channel = λ c w. (ok w, suc w);
  connection_is_closed = λ c w. false;
  channel_is_closed = λ c w. false;
  close_connection = λ c w. (none, suc w);
  close_channel = λ c w. (none, suc w);
  channel = λ c. shop_channel;
}

abbrev pub order_type : GoType
order_type = named "shop" "Order"

-- A handler that panics on every message.
abbrev pub drops_order : ConsumerHandler ℕ String
drops_order p md w = (panicked, w)

-- An empty body is no JSON.
abbrev pub parse : String → GoType → Result String
parse body t = if body == "" then err (foreign "unexpected end of JSON input") else ok body

abbrev pub take_order : ConsumerHandler ℕ String
take_order p md w = (returned (if p == "later" then some (sentinel retryable) else none), suc w)

abbrev pub orders : QueueDefinition
orders = set_retry (pos 1_000_000_000) (pos 3) (set_dlq (new_queue "orders"))

-- Retry without dead-lettering.
abbrev pub returns : QueueDefinition
returns = set_retry (pos 1_000_000_000) (pos 3) (new_queue "returns")

abbrev pub shop : Dispatcher ℕ String
shop =
    (register_by_type "orders" (some (pointer order_type)) (some take_order)
      (new_dispatcher (orders ∷ returns ∷ []))).1

-- The shop with the handler that panics.
abbrev pub failing_shop : Dispatcher ℕ String
failing_shop =
    (register_by_type "orders" (some order_type) (some drops_order)
      (new_dispatcher (orders ∷ returns ∷ []))).1

abbrev pub returns_desk : Dispatcher ℕ String
returns_desk =
    (register_by_type "returns" (some order_type) (some take_order)
      (new_dispatcher (orders ∷ returns ∷ []))).1
