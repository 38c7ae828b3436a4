-- ===== src/Mocks/Channel.antt =====
-- mocks.go, `MockAMQPChannel`: its fields and its methods, but for those that notify (World).
pub mod Setters
use bunmq.Base.{ℕ, String, Bool, true, false, Option, none, some, List, [], ◌∷◌, ◌++◌}
use bunmq.Base.Dict
use bunmq.Base.Dict.{Dict}
use bunmq.Base.Int.{ℤ, pos}
use bunmq.Errors.{Error, foreign, Result, ok, err}
use bunmq.Amqp.Table.{Table}
use bunmq.Amqp.Channel.{Publishing, Incoming}

-- `amqp.Queue`
pub record AmqpQueue : Type 0 where
  pub name : String
  pub messages : ℤ
  pub consumers : ℤ

pub record PublishedMessage : Type 0 where
  pub exchange : String
  pub key : String
  pub mandatory : Bool
  pub immediate : Bool
  pub publishing : Publishing

-- Go channels and confirmations are pointers. `consume_channel` is what will be received from the
-- Go channel, and whether it is closed behind that. A nil map of arguments reads as an empty one.
pub record MockChannel : Type 0 where
  pub exchange_declare_error : Option Error
  pub exchange_bind_error : Option Error
  pub queue_declare_error : Option Error
  pub queue_declare_queue : AmqpQueue
  pub queue_bind_error : Option Error
  pub consume_error : Option Error
  pub consume_channel : Incoming
  pub deferred_confirmation : Option ℕ
  pub publish_error : Option Error
  pub qos_error : Option Error
  pub closed : Bool
  pub close_error : Option Error
  pub notify_close_channels : List (Option ℕ)
  pub notify_cancel_channels : List (Option ℕ)
  pub declared_args : Dict Table
  pub published_messages : List PublishedMessage

-- The Go channel for deliveries is closed at once, so nothing will be received.
unfoldable pub new_mock_amqp_channel : MockChannel
new_mock_amqp_channel = record {
  exchange_declare_error = none;
  exchange_bind_error = none;
  queue_declare_error = none;
  queue_declare_queue = record { name = "test-queue"; messages = pos 0; consumers = pos 0 };
  queue_bind_error = none;
  consume_error = none;
  consume_channel = ([], true);
  deferred_confirmation = none;
  publish_error = none;
  qos_error = none;
  closed = false;
  close_error = none;
  notify_close_channels = [];
  notify_cancel_channels = [];
  declared_args = [];
  published_messages = [];
}

abbrev pub exchange_declare :
    (name kind : String) (durable auto_delete internal no_wait : Bool) (args : Table)
    → MockChannel
    → Option Error
exchange_declare name kind durable auto_delete internal no_wait args m = m.exchange_declare_error

abbrev pub exchange_bind :
    (destination key source : String) (no_wait : Bool) (args : Table) → MockChannel → Option Error
exchange_bind destination key source no_wait args m = m.exchange_bind_error

-- The copy of the arguments is their value at the call.
abbrev pub queue_declare :
    (name : String) (durable auto_delete exclusive no_wait : Bool) (args : Table)
    → MockChannel
    → Result AmqpQueue × MockChannel
queue_declare name durable auto_delete exclusive no_wait args m = elim m.queue_declare_error [
  | some e ↦ (err e, m)
  | none ↦ (
    ok (record m.queue_declare_queue { name = name }),
    record m { declared_args = Dict.insert name args m.declared_args },
  )
]

abbrev pub queue_bind :
    (name key exchange : String) (no_wait : Bool) (args : Table) → MockChannel → Option Error
queue_bind name key exchange no_wait args m = m.queue_bind_error

abbrev pub consume :
    (queue consumer : String) (auto_ack exclusive no_local no_wait : Bool) (args : Table)
    → MockChannel
    → Result Incoming
consume queue consumer auto_ack exclusive no_local no_wait args m = elim m.consume_error [
  | some e ↦ err e
  | none ↦ ok m.consume_channel
]

abbrev pub captured :
    (exchange key : String) (mandatory immediate : Bool) → Publishing → PublishedMessage
captured exchange key mandatory immediate msg = record {
  exchange = exchange;
  key = key;
  mandatory = mandatory;
  immediate = immediate;
  publishing = msg;
}

abbrev capture : PublishedMessage → MockChannel → MockChannel
capture p m = record m { published_messages = m.published_messages ++ p ∷ [] }

-- The message is captured whether or not an error is returned.
abbrev pub publish :
    (exchange key : String) (mandatory immediate : Bool)
    → Publishing
    → MockChannel
    → Option Error × MockChannel
publish exchange key mandatory immediate msg m =
    (m.publish_error, capture (captured exchange key mandatory immediate msg) m)

-- A confirmation that was set, or an error.
abbrev confirmation : Option ℕ → Result (Option ℕ)
confirmation none = err (foreign "no deferred confirmation available - mock broker not running")
confirmation (some c) = ok (some c)

-- The message is captured only where no publish error is set.
abbrev pub publish_with_deferred_confirm :
    (exchange key : String) (mandatory immediate : Bool)
    → Publishing
    → MockChannel
    → Result (Option ℕ) × MockChannel
publish_with_deferred_confirm exchange key mandatory immediate msg m = elim m.publish_error [
  | some e ↦ (err e, m)
  | none ↦ (
    confirmation m.deferred_confirmation,
    capture (captured exchange key mandatory immediate msg) m,
  )
]

abbrev pub is_closed : MockChannel → Bool
is_closed m = m.closed

unfoldable pub close : MockChannel → Option Error × MockChannel
close m = (m.close_error, record m { closed = true })

-- The answer is the Go channel that was given.
unfoldable pub notify_close : Option ℕ → MockChannel → Option ℕ × MockChannel
notify_close receiver m =
    (receiver, record m { notify_close_channels = m.notify_close_channels ++ receiver ∷ [] })

unfoldable pub notify_cancel : Option ℕ → MockChannel → Option ℕ × MockChannel
notify_cancel receiver m =
    (receiver, record m { notify_cancel_channels = m.notify_cancel_channels ++ receiver ∷ [] })

abbrev pub qos : ℤ → ℤ → Bool → MockChannel → Option Error
qos prefetch_count prefetch_size global m = m.qos_error
