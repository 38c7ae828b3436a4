-- ===== src/Mocks/Manager.antt =====
-- mocks.go, `MockConnectionManager`: its fields and its methods. The connection and the channel are
-- pointers to mocks; a nil interface, which `SetConnection` and `SetChannel` would take too, is left
-- out. A callback is held and never called, so it is a pointer as well.
use bunmq.Base.{ℕ, String, Bool, true, false, Option, none, some}
use bunmq.Base.Int.{ℤ}
use bunmq.Errors.{Error, Result, ok, err}
use bunmq.Topology.{Topology}

pub record MockConnectionManager : Type 0 where
  pub connection : ℕ
  pub channel : ℕ
  pub connection_string : String
  pub closed : Bool
  pub healthy : Bool
  pub get_connection_err : Option Error
  pub get_channel_err : Option Error
  pub close_err : Option Error
  pub reconnect_callback : Option ℕ
  pub topology : Option Topology

-- The pointers are those of the connection and the channel that it makes.
unfoldable pub new_mock_connection_manager : (connection channel : ℕ) → MockConnectionManager
new_mock_connection_manager connection channel = record {
  connection = connection;
  channel = channel;
  connection_string = "amqp://test";
  closed = false;
  healthy = true;
  get_connection_err = none;
  get_channel_err = none;
  close_err = none;
  reconnect_callback = none;
  topology = none;
}

abbrev or_error : Option Error → ℕ → Result ℕ
or_error (some e) p = err e
or_error none p = ok p

unfoldable pub get_connection : MockConnectionManager → Result ℕ
get_connection m = or_error m.get_connection_err m.connection

unfoldable pub get_channel : MockConnectionManager → Result ℕ
get_channel m = or_error m.get_channel_err m.channel

unfoldable pub get_connection_string : MockConnectionManager → String
get_connection_string m = m.connection_string

unfoldable pub close : MockConnectionManager → Option Error × MockConnectionManager
close m = (m.close_err, record m { closed = true })

unfoldable pub is_healthy : MockConnectionManager → Bool
is_healthy m = m.healthy

unfoldable pub set_reconnect_callback : Option ℕ → MockConnectionManager → MockConnectionManager
set_reconnect_callback callback m = record m { reconnect_callback = callback }

-- The argument is an interface; for a value of another type than `*topology`, `none`, the assertion
-- panics, `none`.
unfoldable pub set_topology : Option Topology → MockConnectionManager → Option MockConnectionManager
set_topology none m = none
set_topology (some t) m = some (record m { topology = some t })

unfoldable pub set_connection : ℕ → MockConnectionManager → MockConnectionManager
set_connection conn m = record m { connection = conn }

unfoldable pub set_channel : ℕ → MockConnectionManager → MockConnectionManager
set_channel ch m = record m { channel = ch }

unfoldable pub set_connection_string : String → MockConnectionManager → MockConnectionManager
set_connection_string cs m = record m { connection_string = cs }

unfoldable pub set_healthy : Bool → MockConnectionManager → MockConnectionManager
set_healthy healthy m = record m { healthy = healthy }

unfoldable pub set_get_connection_error :
    Option Error → MockConnectionManager → MockConnectionManager
set_get_connection_error e m = record m { get_connection_err = e }

unfoldable pub set_get_channel_error : Option Error → MockConnectionManager → MockConnectionManager
set_get_channel_error e m = record m { get_channel_err = e }

unfoldable pub set_close_error : Option Error → MockConnectionManager → MockConnectionManager
set_close_error e m = record m { close_err = e }

unfoldable pub qos : ℤ → ℤ → Bool → MockConnectionManager → Option Error
qos prefetch_count prefetch_size global m = none
