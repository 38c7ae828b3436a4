-- ===== src/Connection.antt =====
-- connection.go and channel.go: connections and channels as handles on what the AMQP client library
-- keeps, and `NewConnection`.
use bunmq.Base.{ℕ, String, Bool, Option}
use bunmq.Errors.{Error, Result, ok, err, rabbit_mq_dial_error, get_channel_error}
use bunmq.Amqp.Channel.{AmqpChannel}

-- The client library, over its state `W`: `dial` and the methods of `RMQConnection` and
-- `AMQPChannel` that the code calls, on handles. `channel` gives the calls of an open channel.
pub record Network (W : Type 0) : Type 0 where
  pub dial : (app_name connection_string : String) → W → Result ℕ × W
  pub open_channel : ℕ → W → Result ℕ × W
  pub connection_is_closed : ℕ → W → Bool
  pub channel_is_closed : ℕ → W → Bool
  pub close_connection : ℕ → W → Option Error × W
  pub close_channel : ℕ → W → Option Error × W
  pub channel : ℕ → AmqpChannel W

module _ {W : Type 0} (net : Network W) where
  -- The second half of `NewConnection`, on a connection that was dialled.
  abbrev with_channel : ℕ → Result ℕ × W → Result (ℕ × ℕ) × W
  with_channel conn (err e, w) = (err (get_channel_error e), w)
  with_channel conn (ok ch, w) = (ok (conn, ch), w)

  abbrev dialled : Result ℕ × W → Result (ℕ × ℕ) × W
  dialled (err e, w) = (err (rabbit_mq_dial_error e), w)
  dialled (ok conn, w) = with_channel conn (net.open_channel conn w)

  unfoldable pub new_connection : (app_name connection_string : String) → W → Result (ℕ × ℕ) × W
  new_connection a c w = dialled (net.dial a c w)
