-- ===== src/Options.antt =====
-- options.go: the options of a publication and their builder.
pub mod Found
use bunmq.Base.{ℕ, String, Option, List, [], ◌∷◌, ◌++◌}
use bunmq.Amqp.Table.{Table, Value}

-- `Option.Value`, an `any`, as far as `optionsLookup` asserts it: a byte, a map (`none` is a nil
-- one), or any other value.
pub data OptionValue : Type 0 where
  byte : ℕ → OptionValue
  headers : Option Table → OptionValue
  other : Value → OptionValue

-- `OptionKey`, a string type; the two constants.
abbrev pub option_delivery_mode_key : String
option_delivery_mode_key = "DeliveryMode"

abbrev pub option_headers_key : String
option_headers_key = "Headers"

pub record PublishOption : Type 0 where
  pub key : String
  pub value : OptionValue

-- The builder holds a slice of pointers, of which any may be nil, `none`.
pub record OptionsBuilder : Type 0 where
  pub options : List (Option PublishOption)

abbrev append : Option PublishOption → OptionsBuilder → OptionsBuilder
append o b = record { options = b.options ++ o ∷ [] }

-- `amqp091.Transient` and `amqp091.Persistent`
abbrev pub transient : ℕ
transient = 1

abbrev pub persistent : ℕ
persistent = 2

unfoldable pub new_options : OptionsBuilder
new_options = record { options = [] }

unfoldable pub with_option : Option PublishOption → OptionsBuilder → OptionsBuilder
with_option o b = append o b

unfoldable pub with_delivery_mode : ℕ → OptionsBuilder → OptionsBuilder
with_delivery_mode n b =
    append (Option.some (record { key = option_delivery_mode_key; value = byte n })) b

unfoldable pub with_delivery_mode_transient : OptionsBuilder → OptionsBuilder
with_delivery_mode_transient b =
    append (Option.some (record { key = option_delivery_mode_key; value = byte transient })) b

unfoldable pub with_delivery_mode_persistent : OptionsBuilder → OptionsBuilder
with_delivery_mode_persistent b =
    append (Option.some (record { key = option_delivery_mode_key; value = byte persistent })) b

unfoldable pub with_headers : Option Table → OptionsBuilder → OptionsBuilder
with_headers h b = append (Option.some (record { key = option_headers_key; value = headers h })) b

unfoldable pub build : OptionsBuilder → List (Option PublishOption)
build b = b.options
