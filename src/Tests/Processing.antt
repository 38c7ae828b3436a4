-- ===== src/Tests/Processing.antt =====
-- dispatcher.go, `processReceivedMessage` and `consume`: examples.
use bunmq.Base.{ℕ, String, ◌≡◌, ◌≤◌, refl, ◌⊎◌, ◌↔◌, inr, false, some, [], ◌∷◌, arith}
use bunmq.Base.Int.{pos}
use bunmq.Base.Lists.{count_by, only, All}
use bunmq.Errors.{errors_is}
use bunmq.Queue.{new_queue, set_dlq, set_retry}
use bunmq.Queue.Built.{new, retry, dlq}
use bunmq.Dispatcher.{ConsumerDefinition, DeliveryMetadata, by_type, new_dispatcher}
use bunmq.Dispatcher.Registry.{register_by_type}
use bunmq.Dispatcher.Metadata.{panicked, metadata, extract_metadata}
use bunmq.Dispatcher.Select.{evaluate_def_by_received_msg}
use bunmq.Dispatcher.Process.{
  nack, publish, dlq_publishing, process_received_message, publish_to_dlq,
}
use bunmq.Dispatcher.Process.Settlement.{
  settles, handles, publishes, IsPermitted, process-IsPermitted, process-settles,
}
use bunmq.Dispatcher.Process.Fate.{IsDue, HandlesDue, process-HandlesDue}
use bunmq.Dispatcher.Process.Declared.{FindsQueue, process-FindsQueue}
use bunmq.Dispatcher.Process.Answer.{process-answers}
use bunmq.Dispatcher.Process.Loss.{exhausted-nowhere}
use bunmq.Dispatcher.Process.Panics.{MeetsPanic, process-panics}
use bunmq.Amqp.Channel.{Delivery}
use bunmq.Tests.{
  online, parse, take_order, orders, returns, shop, failing_shop, returns_desk, message, died,
  order_type,
}

-- What is read of a message that has died so often.
abbrev pub tells : ℕ → DeliveryMetadata
tells n = record {
  message_id = "1";
  x_count = pos n;
  typ = "shop.Order";
  origin_exchange = "";
  routing_key = "orders";
  headers = died n;
}

abbrev pub tea : Delivery
tea = message (died 2) "tea"

abbrev pub late : Delivery
late = message (died 2) "later"

abbrev worn : Delivery
worn = message (died 3) "tea"

abbrev pub consumer : String → ConsumerDefinition ℕ String
consumer q = record {
  typ = by_type;
  queue = q;
  exchange = "";
  routing_key = "";
  msg_type = "shop.Order";
  reflect = order_type;
  handler = some take_order;
}

pub tea-IsDue : IsDue parse shop orders tea (consumer "orders") "tea" (tells 2)
unfolding evaluate_def_by_received_msg extract_metadata metadata new_queue set_dlq set_retry
    new_dispatcher register_by_type
tea-IsDue = record { read = refl; chosen = refl; decoded = refl; fresh = inr (ground arith) }

pub late-IsDue : IsDue parse returns_desk returns late (consumer "returns") "later" (tells 2)
unfolding evaluate_def_by_received_msg extract_metadata metadata new_queue set_dlq set_retry
    new_dispatcher register_by_type
late-IsDue = record { read = refl; chosen = refl; decoded = refl; fresh = inr (ground arith) }

process-settles_example :
    let acts = (process_received_message online parse shop orders tea 0).1 in
    (count_by settles acts ≡ 1)
    ⊎ ((count_by settles acts ≡ 2) × (orders.with_dlq ≡ false) × (count_by handles acts ≡ 1))
unfolding process_received_message publish_to_dlq evaluate_def_by_received_msg extract_metadata
    metadata new_queue set_dlq set_retry new_dispatcher register_by_type
process-settles_example = process-settles online parse shop orders tea 0 refl

process-answers_example :
    only settles (process_received_message online parse returns_desk returns late 0).1
    ≡ nack false false ∷ []
unfolding process_received_message publish_to_dlq evaluate_def_by_received_msg extract_metadata
    metadata new_queue set_dlq set_retry new_dispatcher register_by_type errors_is
process-answers_example = process-answers online parse returns_desk returns late 0 late-IsDue refl

process-HandlesDue_example :
    All
      (HandlesDue parse shop orders tea)
      (process_received_message online parse shop orders tea 0).1
process-HandlesDue_example = process-HandlesDue online parse shop orders tea 0

process-panics_example :
    ((process_received_message online parse failing_shop orders tea 0).0 ≡ panicked)
    ↔ ((extract_metadata tea ≡ panicked) ⊎ MeetsPanic online parse failing_shop orders tea 0)
process-panics_example = process-panics online parse failing_shop orders tea 0

process-IsPermitted_example :
    let acts = (process_received_message online parse shop orders worn 0).1 in
    (count_by handles acts ≤ 1) × (count_by publishes acts ≤ 1) × All (IsPermitted orders worn) acts
process-IsPermitted_example = process-IsPermitted online parse shop orders worn 0

exhausted-nowhere_example :
    only publishes (process_received_message online parse returns_desk returns worn 0).1
    ≡ publish "" "" false false (dlq_publishing worn) ∷ []
unfolding evaluate_def_by_received_msg extract_metadata metadata new_queue set_dlq set_retry
    new_dispatcher register_by_type
exhausted-nowhere_example =
    exhausted-nowhere online parse returns_desk returns worn 0 {md = tells 3}
      {c = consumer "returns"} (retry _ _ (new _)) refl refl refl refl refl (ground arith) refl

process-FindsQueue_example :
    All (FindsQueue orders) (process_received_message online parse shop orders worn 0).1
unfolding set_dlq set_retry
process-FindsQueue_example =
    process-FindsQueue online parse shop orders worn 0 (retry _ _ (dlq (new "orders"))) refl
