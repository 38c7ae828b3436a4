-- ===== src/Tracing.antt =====
-- tracing.go: `AMQPHeader`, the carrier through which the trace context is written to and read
-- from the headers of a message.
pub mod Carrier
pub mod Keys
pub mod Span
use Prim.Native.Char.{Char, code}
use Prim.Native.String.{[], ◌∷◌}
use mathlib.Core.List
use bunmq.Base.{String, Option, none, some, List, ℕ, Bool, if◌then◌else◌}
use bunmq.Base.{eqb}
use bunmq.Amqp.Table.{Value, Table, str, lookup, insert}

-- `strings.ToLower` on ASCII, the letters of header keys: a letter's place in the first text gives
-- its small letter in the second.
lower_in : String → String → Char → Char
lower_in (u ∷ us) (l ∷ ls) c = if eqb (code u) (code c) then l else lower_in us ls c
lower_in _ _ c = c

unfoldable pub to_lower : String → String
unfolding lower_in
to_lower [] = []
to_lower (c ∷ s) = lower_in "ABCDEFGHIJKLMNOPQRSTUVWXYZ" "abcdefghijklmnopqrstuvwxyz" c ∷ to_lower s

-- A write to a nil map panics, so its result is `none`.
unfoldable pub set : (key val : String) → Option Table → Option Table
set key val none = none
set key val (some h) = some (insert (to_lower key) (str val) h)

unfoldable pub get : (key : String) → Table → String
get key h = elim (lookup (to_lower key) h) [ none ↦ "" | some (str s) ↦ s | some _ ↦ "" ]

-- What `AMQPPropagator.Inject` does with a carrier: it sets the fields that the propagators give,
-- in order.
unfoldable pub inject : List (String × String) → Option Table → Option Table
unfolding set
inject List.[] h = h
inject (List.◌∷◌ (k, v) fields) h = inject fields (set k v h)
