-- ===== src/Dispatcher/Metadata.antt =====
-- dispatcher.go: `extractMetadata`, with the panic of its unchecked index.
pub mod Deaths
use bunmq.Base.{String, Option, none, some}
use bunmq.Base.Int.{ℤ, pos}
pub use bunmq.Base.Runs.{Run, returned, panicked}
use bunmq.Errors.{Result, ok}
use bunmq.Amqp.Table.{
  Value, Values, Table, str, int64, nil, cons, lookup, as_table, as_values, as_string, last_or,
}
use bunmq.Amqp.Channel.{Delivery}
use bunmq.Dispatcher.{DeliveryMetadata}

-- `count, _ := lastTable["count"].(int64)`
abbrev pub as_int64 : Option Value → ℤ
as_int64 (some (int64 n)) = n
as_int64 _ = pos 0

-- The routing key of an entry of x-death: the first of its `routing-keys`, if that is there and is
-- a string; otherwise the delivery's own.
abbrev first_key : Values → String → String
first_key (cons (str k) _) own = k
first_key _ own = own

abbrev pub death_routing_key : Table → String → String
death_routing_key t own = elim (lookup "routing-keys" t) [
  | none ↦ own
  | some v ↦ first_key (as_values v) own
]

unfoldable pub metadata : Delivery → ℤ → String → String → DeliveryMetadata
metadata d count exchange key = record {
  message_id = d.message_id;
  x_count = count;
  typ = d.typ;
  origin_exchange = exchange;
  routing_key = key;
  headers = d.headers;
}

-- `tables[0]` is the latest death and `tables[len-1]` the first; with one entry they are the same.
-- An x-death that is no `[]any`, or an empty one, makes `tables[0]` panic.
from_deaths : Delivery → Values → Run (Result DeliveryMetadata)
unfolding metadata
from_deaths d nil = panicked
from_deaths d (cons latest nil) =
    let t = as_table latest in
    returned (
      ok (
        metadata d (as_int64 (lookup "count" t)) (as_string (lookup "exchange" t))
          (death_routing_key t d.routing_key)))
from_deaths d (cons latest (cons v vs)) =
    let first = as_table (last_or v vs) in
    returned (
      ok (
        metadata d (as_int64 (lookup "count" (as_table latest)))
          (as_string (lookup "exchange" first)) (death_routing_key first d.routing_key)))

unfoldable pub extract_metadata : Delivery → Run (Result DeliveryMetadata)
unfolding from_deaths metadata
extract_metadata d = elim (lookup "x-death" d.headers) [
  | none ↦ returned (ok (metadata d (pos 0) d.exchange d.routing_key))
  | some v ↦ from_deaths d (as_values v)
]
