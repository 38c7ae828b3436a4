-- ===== src/Manager.antt =====
-- connection_manager.go: the state of the connection manager and its methods. Each holds the
-- manager's lock while it runs, so it is one step. Its monitor goroutine is in the child Monitor.
pub mod Monitor
pub mod Health
pub mod Service
pub mod Contract
use bunmq.Base.{
  ℕ, String, Bool, true, false, ◌&&◌, not, Option, none, some, List, [], ◌∷◌, if◌then◌else◌,
}
use bunmq.Base.Int.{ℤ, pos}
use bunmq.Errors.{Error, bun_mq_error, Result, ok, err}
use bunmq.Amqp.Channel.{AmqpChannel}
use bunmq.Connection.{Network, new_connection}
use bunmq.Topology.{Topology}

pub record ReconnectionConfig : Type 0 where
  pub max_attempts : ℤ
  pub initial_delay : ℤ  -- nanoseconds
  pub backoff_max : ℤ  -- nanoseconds

-- `BackoffFactor` is never read, so it is left out.
abbrev pub default_reconnection_config : ReconnectionConfig
default_reconnection_config = record {
  max_attempts = pos 0;
  initial_delay = pos 2_000_000_000;
  backoff_max = pos 300_000_000_000;
}

-- A reconnect callback gets the connection and the channel, each of which may be nil, `none`.
abbrev pub Callback : Type 0 → Type 0
Callback W = Option ℕ → Option ℕ → W → W

-- `watched_conn`, `watched_ch` and `watched_cancel` stand for the three notification channels: the
-- handle whose events they report.
pub record ConnectionManager (W : Type 0) : Type 0 where
  pub connection_string : String
  pub app_name : String
  pub conn : Option ℕ
  pub ch : Option ℕ
  pub closed : Bool
  pub reconnect_callback : Option (Callback W)
  pub max_reconnect_attempts : ℤ
  pub reconnect_delay : ℤ
  pub reconnect_backoff_max : ℤ
  pub watched_conn : Option ℕ
  pub watched_ch : Option ℕ
  pub watched_cancel : Option ℕ
  pub cancelled : Bool
  pub topology : Option Topology

-- The variadic argument: the first configuration counts.
abbrev pub chosen_config : List ReconnectionConfig → ReconnectionConfig
chosen_config [] = default_reconnection_config
chosen_config (c ∷ _) = c

unfoldable pub initial_manager :
    {W : Type 0}
    → (app_name connection_string : String) → List ReconnectionConfig
    → ConnectionManager W
initial_manager a c cfgs =
    let cfg = chosen_config cfgs in
    record {
      connection_string = c;
      app_name = a;
      conn = none;
      ch = none;
      closed = false;
      reconnect_callback = none;
      max_reconnect_attempts = cfg.max_attempts;
      reconnect_delay = cfg.initial_delay;
      reconnect_backoff_max = cfg.backoff_max;
      watched_conn = none;
      watched_ch = none;
      watched_cancel = none;
      cancelled = false;
      topology = none;
    }

-- The last error of a sequence of calls.
abbrev pub last_error : Option Error → Option Error → Option Error
last_error e none = e
last_error e (some f) = some f

module _ {W : Type 0} where
  -- `setupNotificationChannels`, for a connection and a channel of the client library.
  abbrev pub setup_notification_channels : ℕ → ℕ → ConnectionManager W → ConnectionManager W
  setup_notification_channels conn ch m = record m {
    watched_conn = some conn;
    watched_ch = some ch;
    watched_cancel = some ch;
  }

  abbrev pub setup_channel_notifications : ℕ → ConnectionManager W → ConnectionManager W
  setup_channel_notifications ch m = record m { watched_ch = some ch; watched_cancel = some ch }

  abbrev pub run_callback : Option (Callback W) → Option ℕ → Option ℕ → W → W
  run_callback none conn ch w = w
  run_callback (some f) conn ch w = f conn ch w

  -- `connect` by the result of `NewConnection`.
  abbrev connected :
      ConnectionManager W → Result (ℕ × ℕ) × W → Option Error × ConnectionManager W × W
  connected m (err e, w) = (some e, m, w)
  connected m (ok (conn, ch), w) = (
    none,
    record (setup_notification_channels conn ch m) { conn = some conn; ch = some ch },
    run_callback m.reconnect_callback (some conn) (some ch) w,
  )

module _ {W : Type 0} (net : Network W) where
  unfoldable pub connect : ConnectionManager W → W → Option Error × ConnectionManager W × W
  connect m w = connected m (new_connection net m.app_name m.connection_string w)

  abbrev started : Option Error × ConnectionManager W × W → Result (ConnectionManager W) × W
  started (some e, m, w) = (err e, w)
  started (none, m, w) = (ok m, w)

  -- `NewConnectionManager`; the monitor goroutine that it starts is the machine of Monitor.
  unfoldable pub new_connection_manager :
      (app_name connection_string : String)
      → List ReconnectionConfig
      → W
      → Result (ConnectionManager W) × W
  unfolding connect initial_manager
  new_connection_manager a c cfgs w = started (connect (initial_manager a c cfgs) w)

  abbrev pub conn_available : ConnectionManager W → W → Bool
  conn_available m w = elim m.conn [ none ↦ false | some c ↦ not (net.connection_is_closed c w) ]

  abbrev pub ch_available : ConnectionManager W → W → Bool
  ch_available m w = elim m.ch [ none ↦ false | some c ↦ not (net.channel_is_closed c w) ]

  abbrev or_unavailable : {A : Type 0} → Bool → Option A → String → Result A
  or_unavailable false h text = err (bun_mq_error text)
  or_unavailable true none text = err (bun_mq_error text)
  or_unavailable true (some a) text = ok a

  unfoldable pub get_connection : ConnectionManager W → W → Result ℕ
  get_connection m w =
      if m.closed
      then err (bun_mq_error "connection manager is closed")
      else or_unavailable (conn_available m w) m.conn "connection is not available"

  unfoldable pub get_channel : ConnectionManager W → W → Result ℕ
  get_channel m w =
      if m.closed
      then err (bun_mq_error "connection manager is closed")
      else or_unavailable (ch_available m w) m.ch "channel is not available"

  unfoldable pub is_healthy : ConnectionManager W → W → Bool
  is_healthy m w = if m.closed then false else conn_available m w && ch_available m w

  -- `Close`: the channel and then the connection, each if it is still open; the last error counts.
  abbrev close_open_channel : ConnectionManager W → W → Option Error × W
  close_open_channel m w = elim m.ch [
    | none ↦ (none, w)
    | some c ↦ if net.channel_is_closed c w then (none, w) else net.close_channel c w
  ]

  abbrev close_open_connection : ConnectionManager W → W → Option Error × W
  close_open_connection m w = elim m.conn [
    | none ↦ (none, w)
    | some c ↦ if net.connection_is_closed c w then (none, w) else net.close_connection c w
  ]

  unfoldable pub close : ConnectionManager W → W → Option Error × ConnectionManager W × W
  close m w =
      if m.closed
      then (none, m, w)
      else let (e, w') = close_open_channel m w in
        let (f, w'') = close_open_connection m w' in
        (last_error e f, record m { closed = true; cancelled = true }, w'')

  unfoldable pub qos : ℤ → ℤ → Bool → ConnectionManager W → W → Option Error × W
  qos count size global m w =
      if m.closed
      then (some (bun_mq_error "connection manager is closed"), w)
      else elim (or_unavailable (ch_available m w) m.ch "channel is not available") [
        | err e ↦ (some e, w)
        | ok c ↦ (net.channel c).qos count size global w
      ]

module _ {W : Type 0} where
  unfoldable pub get_connection_string : ConnectionManager W → String
  get_connection_string m = if m.closed then "" else m.connection_string

  unfoldable pub set_reconnect_callback :
      Option (Callback W) → ConnectionManager W → ConnectionManager W
  set_reconnect_callback f m = record m { reconnect_callback = f }

  -- The argument is an interface; a value of another type than `*topology` is ignored, `none`.
  unfoldable pub set_topology : Option Topology → ConnectionManager W → ConnectionManager W
  set_topology none m = m
  set_topology (some t) m = record m { topology = some t }
