-- ===== src/Options/Found.antt =====
-- publisher.go, `optionsLookup`: what a list of options gives.
pub mod Last
use bunmq.Base.{ℕ, String, Option, none, some, List, [], ◌∷◌, ◌==◌, if◌then◌else◌}
use bunmq.Amqp.Table.{Table, empty}
use bunmq.Options.{
  OptionValue, byte, headers, PublishOption, option_delivery_mode_key, option_headers_key,
}

-- What `optionsLookup` has found so far.
pub record Found : Type 0 where
  pub delivery_mode : ℕ
  pub headers : Option Table

-- One round of the loop of `optionsLookup`.
abbrev take_mode : OptionValue → Found → Found
take_mode (byte n) f = record f { delivery_mode = n }
take_mode _ f = f

abbrev take_headers : OptionValue → Found → Found
take_headers (headers h) f = record f { headers = h }
take_headers _ f = f

abbrev take_option : Option PublishOption → Found → Found
take_option none f = f
take_option (some o) f =
    if o.key == option_delivery_mode_key
    then take_mode o.value f
    else if o.key == option_headers_key
    then take_headers o.value f
    else f

options_from : List (Option PublishOption) → Found → Found
options_from [] f = f
options_from (o ∷ os) f = options_from os (take_option o f)

unfoldable pub options_lookup : List (Option PublishOption) → Found
unfolding options_from
options_lookup os = options_from os (record { delivery_mode = 0; headers = some empty })
