-- ===== src/Dispatcher/Metadata/Deaths.antt =====
-- dispatcher.go, `extractMetadata`: what it reads from the headers, stated over the list of deaths.
use bunmq.Base.{◌∙◌, ◌≡◌, ◌≢◌, ◌↔◌, refl, Option, none, some, arith}
use bunmq.Base.Int.{pos}
use bunmq.Errors.{Error, ok, err}
use bunmq.Amqp.Table.{Value, Values, nil, cons, lookup, as_table, as_values, as_string, last_or}
use bunmq.Amqp.Channel.{Delivery}
use bunmq.Dispatcher.{DeliveryMetadata}
use bunmq.Dispatcher.Metadata.{
  returned, panicked, as_int64, death_routing_key, metadata, from_deaths, extract_metadata,
}

-- The header x-death as a slice; no slice and an empty one read alike.
abbrev pub deaths_of : Delivery → Option Values
deaths_of d = elim (lookup "x-death" d.headers) [ none ↦ none | some v ↦ some (as_values v) ]

-- The metadata of a delivery that has died: the count is that of the latest death, the origin is
-- that of the first.
pub record TellsDeaths (d : Delivery) (latest : Value) (earlier : Values) (md : DeliveryMetadata)
    : Type 0 where
  pub same_id : md.message_id ≡ d.message_id
  pub same_typ : md.typ ≡ d.typ
  pub same_headers : md.headers ≡ d.headers
  pub counted : md.x_count ≡ as_int64 (lookup "count" (as_table latest))
  pub origin :
      md.origin_exchange ≡ as_string (lookup "exchange" (as_table (last_or latest earlier)))
  pub key : md.routing_key ≡ death_routing_key (as_table (last_or latest earlier)) d.routing_key

extract-eq-from_deaths :
    (d : Delivery) (vs : Values) → deaths_of d ≡ some vs → extract_metadata d ≡ from_deaths d vs
unfolding extract_metadata
extract-eq-from_deaths d vs h = ground arith

from_deaths-tells :
    (d : Delivery) (latest : Value) (earlier : Values)
    → (md : DeliveryMetadata) × (from_deaths d (cons latest earlier) ≡ returned (ok md))
      × TellsDeaths d latest earlier md
unfolding from_deaths
from_deaths-tells d latest nil = (
  metadata d (as_int64 (lookup "count" (as_table latest)))
      (as_string (lookup "exchange" (as_table latest)))
      (death_routing_key (as_table latest) d.routing_key),
  refl,
  ground arith,
)
from_deaths-tells d latest (cons v vs) = (
  metadata d (as_int64 (lookup "count" (as_table latest)))
      (as_string (lookup "exchange" (as_table (last_or v vs))))
      (death_routing_key (as_table (last_or v vs)) d.routing_key),
  refl,
  ground arith,
)

-- Where x-death has an entry, the metadata is read: the count from the latest death, the origin
-- exchange and the routing key from the first, however many there are.
pub extract-deaths :
    (d : Delivery) {latest : Value} {earlier : Values}
    → deaths_of d ≡ some (cons latest earlier)
    → (md : DeliveryMetadata) × (extract_metadata d ≡ returned (ok md))
      × TellsDeaths d latest earlier md
extract-deaths d {latest} {earlier} h =
    let (md, e, tells) = from_deaths-tells d latest earlier in
    (md, extract-eq-from_deaths d (cons latest earlier) h ∙ e, tells)

-- Without x-death the metadata is the delivery's own, and the count is zero.
pub extract_alive :
    (d : Delivery)
    → deaths_of d ≡ none
    → extract_metadata d ≡ returned (ok (metadata d (pos 0) d.exchange d.routing_key))
unfolding extract_metadata
extract_alive d h = ground arith

-- Reading the metadata panics exactly if there is an x-death and it is no slice, or an empty one.
pub extract-panics : (d : Delivery) → (extract_metadata d ≡ panicked) ↔ (deaths_of d ≡ some nil)
unfolding extract_metadata
extract-panics d = (λ h. ground arith, λ h. ground arith)

-- No delivery gives an error.
pub extract-ne-err : (d : Delivery) (e : Error) → extract_metadata d ≢ returned (err e)
unfolding extract_metadata
extract-ne-err d e h = ground arith
