-- ===== src/Mocks/World.antt =====
-- mocks.go: the mocks by pointer, as the library's code meets them. A test and a mock manager hold
-- the same pointers, so what the code does through the manager is seen in the channel's mock.
use bunmq.Base.{ℕ, String, true, Option, none, some, []}
use bunmq.Errors.{Error, Result, ok, err}
use bunmq.Amqp.Channel.{
  AmqpChannel, Declaration, Incoming, exchange_declare, exchange_bind, queue_declare, queue_bind,
}
use bunmq.Dispatcher.{Manager}
use bunmq.Mocks.Notify.{Store, update, notify_all}
use bunmq.Mocks.Channel
use bunmq.Mocks.Channel.{MockChannel, new_mock_amqp_channel}
use bunmq.Mocks.Connection.{MockConnection, new_mock_rmq_connection}
use bunmq.Mocks.Manager.{MockConnectionManager, new_mock_connection_manager, get_channel}

-- `closes` and `cancels` hold the Go channels of the types `chan *amqp.Error` and `chan string`.
pub record World (Tls : Type 0) : Type 0 where
  pub manager : MockConnectionManager
  pub connections : ℕ → MockConnection Tls
  pub channels : ℕ → MockChannel
  pub closes : Store (Option Error)
  pub cancels : Store String

abbrev pub error_of : {A : Type 0} → Result A → Option Error
error_of (ok a) = none
error_of (err e) = some e

-- What the caller receives is gone from the Go channel afterwards.
abbrev drained : Result Incoming → MockChannel → MockChannel
drained (err e) m = m
drained (ok (ds, closes)) m = record m { consume_channel = ([], closes) }

module _ {Tls : Type 0} where
  -- `NewMockConnectionManager`, at the pointers to what it makes.
  unfoldable pub new_manager : (zero : Tls) (connection channel : ℕ) → World Tls → World Tls
  unfolding new_mock_connection_manager new_mock_rmq_connection new_mock_amqp_channel
  new_manager zero connection channel w = record w {
    manager = new_mock_connection_manager connection channel;
    connections = update w.connections connection (new_mock_rmq_connection zero);
    channels = update w.channels channel new_mock_amqp_channel;
  }

  -- A method of the mock at `p`.
  abbrev pub on_channel :
      {A : Type 0} → ℕ → (MockChannel → A × MockChannel) → World Tls → A × World Tls
  on_channel p f w =
      let (a, m) = f (w.channels p) in (a, record w { channels = update w.channels p m })

  abbrev pub reading : {A : Type 0} → ℕ → (MockChannel → A) → World Tls → A × World Tls
  reading p f w = (f (w.channels p), w)

  -- The queue that `QueueDeclare` answers is dropped by the code.
  abbrev pub declare : ℕ → Declaration → World Tls → Option Error × World Tls
  declare p (exchange_declare n k d a i nw args) w =
      reading p (Channel.exchange_declare n k d a i nw args) w
  declare p (exchange_bind d k s nw args) w = reading p (Channel.exchange_bind d k s nw args) w
  declare p (queue_bind n k x nw args) w = reading p (Channel.queue_bind n k x nw args) w
  declare p (queue_declare n d a e nw args) w =
      let (r, w') = on_channel p (Channel.queue_declare n d a e nw args) w in (error_of r, w')

  abbrev pub mock_channel : ℕ → AmqpChannel (World Tls)
  mock_channel p = record {
    declare = declare p;
    publish = λ x k m i msg. on_channel p (Channel.publish x k m i msg);
    publish_with_deferred_confirm =
        λ x k m i msg. on_channel p (Channel.publish_with_deferred_confirm x k m i msg);
    consume = λ q c a e l n t.
        on_channel p (λ m. let r = Channel.consume q c a e l n t m in (r, drained r m));
    qos = λ n z g. reading p (Channel.qos n z g);
  }

  abbrev handed : Result ℕ → Result (AmqpChannel (World Tls))
  handed (err e) = err e
  handed (ok p) = ok (mock_channel p)

  -- The mock manager as the dispatcher and the publisher see it.
  unfoldable pub service : Manager (World Tls)
  unfolding get_channel
  service = record { get_channel = λ w. (handed (get_channel w.manager), w) }

  -- `TriggerClose` of a channel: a panic, `none`, comes before `closed` is set.
  abbrev channel_closed : ℕ → World Tls → Option (Store (Option Error)) → Option (World Tls)
  channel_closed p w none = none
  channel_closed p w (some st) = some (record w {
    closes = st;
    channels = update w.channels p (record (w.channels p) { closed = true });
  })

  unfoldable pub trigger_channel_close : ℕ → Option Error → World Tls → Option (World Tls)
  trigger_channel_close p e w =
      channel_closed p w (notify_all e (w.channels p).notify_close_channels w.closes)

  abbrev consumer_cancelled : World Tls → Option (Store String) → Option (World Tls)
  consumer_cancelled w none = none
  consumer_cancelled w (some st) = some (record w { cancels = st })

  unfoldable pub trigger_cancel : ℕ → String → World Tls → Option (World Tls)
  trigger_cancel p consumer w =
      consumer_cancelled w (notify_all consumer (w.channels p).notify_cancel_channels w.cancels)

  -- `TriggerClose` of a connection.
  abbrev connection_closed : ℕ → World Tls → Option (Store (Option Error)) → Option (World Tls)
  connection_closed p w none = none
  connection_closed p w (some st) = some (record w {
    closes = st;
    connections = update w.connections p (record (w.connections p) { closed = true });
  })

  unfoldable pub trigger_connection_close : ℕ → Option Error → World Tls → Option (World Tls)
  trigger_connection_close p e w =
      connection_closed p w (notify_all e (w.connections p).notify_channels w.closes)
