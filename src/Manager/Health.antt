-- ===== src/Manager/Health.antt =====
-- connection_manager.go: what the manager's methods promise about each other.
use bunmq.Base.{ℕ, Bool, true, false, ◌≡◌, ◌↔◌, none, some, arith}
use bunmq.Base.Int.{ℤ}
use bunmq.Errors.{bun_mq_error, ok, err, is_ok}
use bunmq.Connection.{Network}
use bunmq.Manager.{
  ConnectionManager, get_connection, get_channel, is_healthy, close, qos, get_connection_string,
}

module _ {W : Type 0} (net : Network W) (m : ConnectionManager W) (w : W) where
  -- The manager is healthy exactly if both a connection and a channel can be had from it.
  pub healthy_iff :
      (is_healthy net m w ≡ true)
      ↔ ((is_ok (get_connection net m w) ≡ true) × (is_ok (get_channel net m w) ≡ true))
  unfolding is_healthy get_connection get_channel
  healthy_iff = (λ h. ground arith, λ h. ground arith)

  -- What is handed out is the manager's own handle, open at that moment, and only while the
  -- manager is not closed.
  pub get_channel-open :
      (c : ℕ)
      → (get_channel net m w ≡ ok c)
        ↔ ((m.closed ≡ false) × (m.ch ≡ some c) × (net.channel_is_closed c w ≡ false))
  unfolding get_channel
  get_channel-open c = (λ h. ground arith, λ h. ground arith)

  pub get_connection-open :
      (c : ℕ)
      → (get_connection net m w ≡ ok c)
        ↔ ((m.closed ≡ false) × (m.conn ≡ some c) × (net.connection_is_closed c w ≡ false))
  unfolding get_connection
  get_connection-open c = (λ h. ground arith, λ h. ground arith)

-- What a closed manager answers: no connection, channel or connection string is handed out, `Qos`
-- fails and leaves the outside alone, the manager is not healthy, and `Close` does nothing and
-- reports no error.
pub record IsShut {W : Type 0} (net : Network W) (m : ConnectionManager W) (v : W) : Type 0 where
  pub no_connection : get_connection net m v ≡ err (bun_mq_error "connection manager is closed")
  pub no_channel : get_channel net m v ≡ err (bun_mq_error "connection manager is closed")
  pub no_string : get_connection_string m ≡ ""
  pub unhealthy : is_healthy net m v ≡ false
  pub no_qos :
      (count size : ℤ) (global : Bool)
      → qos net count size global m v ≡ (some (bun_mq_error "connection manager is closed"), v)
  pub close_idle : close net m v ≡ (none, m, v)

pub closed-IsShut :
    {W : Type 0} (net : Network W) (m : ConnectionManager W) (v : W)
    → m.closed ≡ true
    → IsShut net m v
unfolding close get_connection get_channel get_connection_string is_healthy qos
closed-IsShut net m v e = record {
  no_connection = ground arith;
  no_channel = ground arith;
  no_string = ground arith;
  unhealthy = ground arith;
  no_qos = λ c s g. ground arith;
  close_idle = ground arith;
}

close-closed :
    {W : Type 0} (net : Network W) (m : ConnectionManager W) (w : W)
    → (close net m w).1.closed ≡ true
unfolding close
close-closed net m w = ground arith

-- After `Close`, whatever the broker answered to it and whatever happens outside since, the manager
-- is shut: every later call is refused, and another `Close` does nothing.
pub close-IsShut :
    {W : Type 0} (net : Network W) (m : ConnectionManager W) (w v : W)
    → IsShut net (close net m w).1 v
close-IsShut net m w v = closed-IsShut net (close net m w).1 v (close-closed net m w)
