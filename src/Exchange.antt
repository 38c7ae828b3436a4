-- ===== src/Exchange.antt =====
-- exchange.go: the definition of an exchange, its constructors and its builder methods.
use bunmq.Base.{String, Bool, true, false, List, [], ◌∷◌, ◌++◌}
use bunmq.Amqp.Table.{Table, empty}

-- A named string type, whose `String()` is the string.
abbrev pub ExchangeKind : Type 0
ExchangeKind = String

abbrev pub fanout_exchange : ExchangeKind
fanout_exchange = "fanout"

abbrev pub direct_exchange : ExchangeKind
direct_exchange = "direct"

abbrev pub topic_exchange : ExchangeKind
topic_exchange = "topic"

abbrev pub headers_exchange : ExchangeKind
headers_exchange = "headers"

abbrev pub x_delayed_message_exchange : ExchangeKind
x_delayed_message_exchange = "x-delayed-message"

pub record ExchangeDefinition : Type 0 where
  pub name : String
  pub durable : Bool
  pub delete : Bool
  pub kind : ExchangeKind
  pub params : Table

unfoldable pub default_exchange : String → ExchangeKind → ExchangeDefinition
default_exchange n k = record { name = n; durable = true; delete = false; kind = k; params = empty }

unfoldable pub new_direct_exchange : String → ExchangeDefinition
unfolding default_exchange
new_direct_exchange n = default_exchange n direct_exchange

unfoldable pub new_fanout_exchange : String → ExchangeDefinition
unfolding default_exchange
new_fanout_exchange n = default_exchange n fanout_exchange

-- The loop that both list constructors share, with what it has built so far.
append_exchanges : ExchangeKind → List ExchangeDefinition → List String → List ExchangeDefinition
append_exchanges k built [] = built
append_exchanges k built (n ∷ ns) = append_exchanges k (built ++ default_exchange n k ∷ []) ns

unfoldable pub new_direct_exchanges : List String → List ExchangeDefinition
unfolding append_exchanges
new_direct_exchanges ns = append_exchanges direct_exchange [] ns

unfoldable pub new_fanout_exchanges : List String → List ExchangeDefinition
unfolding append_exchanges
new_fanout_exchanges ns = append_exchanges fanout_exchange [] ns

unfoldable pub set_durable : Bool → ExchangeDefinition → ExchangeDefinition
set_durable d e = record e { durable = d }

unfoldable pub set_delete : Bool → ExchangeDefinition → ExchangeDefinition
set_delete d e = record e { delete = d }

unfoldable pub set_params : Table → ExchangeDefinition → ExchangeDefinition
set_params p e = record e { params = p }
