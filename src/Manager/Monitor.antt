-- ===== src/Manager/Monitor.antt =====
-- connection_manager.go: the goroutine `monitor` with `handleChannelFailure` and
-- `handleConnectionFailure`, as a machine. It takes the manager's lock for short stretches, and
-- between two of them other goroutines may call the manager, so each phase is the place where it
-- stands between two stretches, and `step` runs the next one.
pub mod Reach
pub mod Shut
pub mod Progress
pub mod Reconnect
use bunmq.Base.{ℕ, suc, ◌+◌, Bool, true, false, ◌&&◌, Option, none, some, List, if◌then◌else◌}
use bunmq.Base.Int.{ℤ, pos, leb_ℤ, ltb_ℤ}
use bunmq.Errors.{Error, Result, ok, err}
use bunmq.Amqp.Channel.{AmqpChannel}
use bunmq.Queue.{QueueDefinition}
use bunmq.Connection.{Network}
use bunmq.Topology.{Topology}
use bunmq.Topology.Declare.{declare_and_bindings}
use bunmq.Manager.{
  ConnectionManager, connect, conn_available, run_callback, setup_channel_notifications,
}

-- `watching` is the `select` of `monitor`, `stopped` its return, and `crashed` a nil dereference.
-- `notifying` and `failing` stand behind the unlocking in `handleChannelFailure`, before the
-- callback and before `handleConnectionFailure`. The others stand in the loop of
-- `handleConnectionFailure`, with `attempt` and `delay`: at its head, at the wait before an
-- attempt, behind a successful `connect`, behind `closed = false`, and behind a topology that
-- could not be declared.
pub data Phase : Type 0 where
  watching stopped crashed notifying failing : Phase
  retrying waiting opened redeclaring closing : (attempt : ℕ) (delay : ℤ) → Phase

-- What a `select` receives: the end of the context, an event of a notification channel, or the
-- timer.
pub data Signal : Type 0 where
  done timer consumer_cancelled : Signal
  connection_closed channel_closed : Option Error → Signal

-- `min(time.Duration(float64(delay)*1.5), max)`, over what the floats make of a delay.
abbrev pub next_delay : (ℤ → ℤ) → ℤ → ℤ → ℤ
next_delay scale d cap = if ltb_ℤ (scale d) cap then scale d else cap

-- `maxReconnectAttempts > 0 && attempt > maxReconnectAttempts`
abbrev pub is_exceeded : ℤ → ℕ → Bool
is_exceeded limit n = ltb_ℤ (pos 0) limit && ltb_ℤ limit (pos n)

abbrev pub State : Type 0 → Type 0
State W = Phase × ConnectionManager W × W

module _ {W : Type 0} where
  -- The first lines of `handleConnectionFailure`.
  abbrev pub begin_failure : ConnectionManager W → W → State W
  begin_failure m w = (retrying 0 m.reconnect_delay, record m { closed = true }, w)

  -- The head of the loop: `attempt` is counted, then tested.
  abbrev pub at_head : ℕ → ℤ → ConnectionManager W → W → State W
  at_head n d m w =
      if m.cancelled
      then (watching, m, w)
      else if is_exceeded m.max_reconnect_attempts (suc n)
      then (watching, m, w)
      else (waiting (suc n) d, m, w)

module _ {W : Type 0} (net : Network W) (scale : ℤ → ℤ) where
  -- A channel that was opened anew on the old connection, or not.
  abbrev with_new_channel : ℕ → ConnectionManager W → Result ℕ × W → State W
  with_new_channel conn m (err e, w) = (failing, m, w)
  with_new_channel conn m (ok ch, w) =
      (notifying, record (setup_channel_notifications ch m) { ch = some ch }, w)

  abbrev on_connection : Option ℕ → ConnectionManager W → W → State W
  on_connection none m w = (failing, m, w)
  on_connection (some conn) m w = with_new_channel conn m (net.open_channel conn w)

  unfoldable pub handle_channel_failure : ConnectionManager W → W → State W
  handle_channel_failure m w =
      if m.closed
      then (watching, m, w)
      else if conn_available net m w
      then on_connection m.conn m w
      else (failing, m, w)

  -- The attempt itself.
  abbrev reconnected : ℕ → ℤ → Option Error × ConnectionManager W × W → State W
  reconnected n d (some e, m, w) = (retrying n (next_delay scale d m.reconnect_backoff_max), m, w)
  reconnected n d (none, m, w) = (opened n d, m, w)

  abbrev channel_of : ConnectionManager W → Option (AmqpChannel W)
  channel_of m = elim m.ch [ none ↦ none | some c ↦ some (net.channel c) ]

  abbrev redeclared : ℕ → ℤ → ConnectionManager W → Option Error → W → State W
  redeclared n d m none w = (watching, m, w)
  redeclared n d m (some e) w = (closing n d, m, w)

  abbrev redeclare :
      ℕ → ℤ → Option Topology → List QueueDefinition → ConnectionManager W → W → State W
  redeclare n d none order m w = (watching, m, w)
  redeclare n d (some t) order m w =
      let (e, ds, w') = declare_and_bindings (channel_of m) order t w in redeclared n d m e w'

  -- `cm.conn.Close()`, and `closed = true` where it gave no error.
  abbrev reclosed : ℕ → ℤ → ConnectionManager W → Option Error × W → State W
  reclosed n d m (some e, w) = (watching, m, w)
  reclosed n d m (none, w) = (retrying n d, record m { closed = true }, w)

  abbrev close_again : ℕ → ℤ → Option ℕ → ConnectionManager W → W → State W
  close_again n d none m w = (crashed, m, w)
  close_again n d (some conn) m w = reclosed n d m (net.close_connection conn w)

  abbrev watch : Signal → ConnectionManager W → W → State W
  watch done m w = if m.cancelled then (stopped, m, w) else (watching, m, w)
  watch timer m w = (watching, m, w)
  watch consumer_cancelled m w = handle_channel_failure m w
  watch (connection_closed none) m w = (watching, m, w)
  watch (connection_closed (some e)) m w = begin_failure m w
  watch (channel_closed none) m w = (watching, m, w)
  watch (channel_closed (some e)) m w = handle_channel_failure m w

  -- The wait: the context is only found done if it is.
  abbrev wait : Signal → ℕ → ℤ → ConnectionManager W → W → State W
  wait done n d m w = if m.cancelled then (watching, m, w) else (waiting n d, m, w)
  wait timer n d m w = reconnected n d (connect net m w)
  wait _ n d m w = (waiting n d, m, w)

  -- The goroutine's next stretch. `signal` is what a `select` receives, `order` how Go ranges over
  -- the topology's queues; a phase that needs neither ignores them.
  unfoldable pub step : (signal : Signal) → (order : List QueueDefinition) → State W → State W
  unfolding handle_channel_failure connect
  step s order (watching, m, w) = watch s m w
  step s order (stopped, m, w) = (stopped, m, w)
  step s order (crashed, m, w) = (crashed, m, w)
  step s order (notifying, m, w) = (watching, m, run_callback m.reconnect_callback m.conn m.ch w)
  step s order (failing, m, w) = begin_failure m w
  step s order (retrying n d, m, w) = at_head n d m w
  step s order (waiting n d, m, w) = wait s n d m w
  step s order (opened n d, m, w) = (redeclaring n d, record m { closed = false }, w)
  step s order (redeclaring n d, m, w) = redeclare n d m.topology order m w
  step s order (closing n d, m, w) = close_again n d m.conn m w
