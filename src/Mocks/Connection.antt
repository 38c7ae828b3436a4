-- ===== src/Mocks/Connection.antt =====
-- mocks.go, `MockRMQConnection`: its fields and its methods, but for the one that notifies (World).
-- What `ConnectionState` answers is a value of crypto/tls, handed back unread: any type `Tls`.
use bunmq.Base.{ℕ, Bool, true, false, Option, none, some, List, [], ◌∷◌, ◌++◌}
use bunmq.Errors.{Error, Result, ok, err}

pub record MockConnection (Tls : Type 0) : Type 0 where
  pub channels : List ℕ
  pub connection_state : Tls
  pub closed : Bool
  pub close_error : Option Error
  pub channel_error : Option Error
  pub notify_channels : List (Option ℕ)

module _ {Tls : Type 0} where
  -- `zero` is the zero value of the type.
  unfoldable pub new_mock_rmq_connection : (zero : Tls) → MockConnection Tls
  new_mock_rmq_connection zero = record {
    channels = [];
    connection_state = zero;
    closed = false;
    close_error = none;
    channel_error = none;
    notify_channels = [];
  }

  -- `fresh` is the pointer to the channel that is made, an empty one of the client library.
  unfoldable pub channel : (fresh : ℕ) → MockConnection Tls → Result ℕ × MockConnection Tls
  channel fresh m = elim m.channel_error [
    | some e ↦ (err e, m)
    | none ↦ (ok fresh, record m { channels = m.channels ++ fresh ∷ [] })
  ]

  abbrev pub connection_state : MockConnection Tls → Tls
  connection_state m = m.connection_state

  abbrev pub is_closed : MockConnection Tls → Bool
  is_closed m = m.closed

  unfoldable pub close : MockConnection Tls → Option Error × MockConnection Tls
  close m = (m.close_error, record m { closed = true })

  unfoldable pub notify_close : Option ℕ → MockConnection Tls → Option ℕ × MockConnection Tls
  notify_close receiver m =
      (receiver, record m { notify_channels = m.notify_channels ++ receiver ∷ [] })

  unfoldable pub set_channel_error : Option Error → MockConnection Tls → MockConnection Tls
  set_channel_error e m = record m { channel_error = e }

  unfoldable pub set_close_error : Option Error → MockConnection Tls → MockConnection Tls
  set_close_error e m = record m { close_error = e }

  unfoldable pub set_connection_state : Tls → MockConnection Tls → MockConnection Tls
  set_connection_state state m = record m { connection_state = state }
