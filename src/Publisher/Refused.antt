-- ===== src/Publisher/Refused.antt =====
-- publisher.go and connection_manager.go: what the publisher does while the manager reconnects.
use bunmq.Base.{String, true, ◌≡◌, List, [], arith, ◌==◌, if◌then◌else◌}
use bunmq.Base.Int.{ℤ}
use bunmq.Errors.{Error, foreign, bun_mq_error, ok}
use bunmq.Connection.{Network}
use bunmq.Manager.{ReconnectionConfig, ConnectionManager, new_connection_manager, get_channel}
use bunmq.Manager.Monitor.{
  Phase, watching, stopped, crashed, notifying, failing, retrying, waiting, opened, redeclaring,
  closing, State,
}
use bunmq.Manager.Monitor.Reach.{IsSound, Reach, monitored-IsSound}
use bunmq.Manager.Service.{service}
use bunmq.Publisher.{
  failed, Outside, publish, publish_deferred_confirm, simple_publish, publish_exchange,
  publish_deadline, publish_queue, publish_queue_deadline,
}
use bunmq.Publisher.Captured.Methods.{
  Method, simple, exchange, exchange_deadline, queue, queue_deadline, run,
}

-- The phases from a connection's failure to the end of an attempt that succeeds, in which the
-- manager is closed.
abbrev pub IsRetrying : Phase → Type 0
IsRetrying (retrying n d) = Unit
IsRetrying (waiting n d) = Unit
IsRetrying (opened n d) = Unit
IsRetrying _ = ⊥

retrying-closed :
    {W : Type 0} (p : Phase) (m : ConnectionManager W)
    → IsSound p m
    → IsRetrying p
    → m.closed ≡ true
retrying-closed (retrying n d) m v r = v.stands.0
retrying-closed (waiting n d) m v r = v.stands.0
retrying-closed (opened n d) m v r = v.stands.0
retrying-closed watching m v r = absurd r
retrying-closed stopped m v r = absurd r
retrying-closed crashed m v r = absurd r
retrying-closed notifying m v r = absurd r
retrying-closed failing m v r = absurd r
retrying-closed (redeclaring n d) m v r = absurd r
retrying-closed (closing n d) m v r = absurd r

abbrev pub is_closed : Error
is_closed = bun_mq_error "connection manager is closed"

abbrev unless_empty : String → String → Error
unless_empty name text = if name == "" then foreign text else is_closed

-- The error of a method while the manager is closed.
abbrev pub refusal : Method → Error
refusal (simple t) = is_closed
refusal (exchange x k os) = unless_empty x "exchange cannot be empty"
refusal (exchange_deadline x k os) = unless_empty x "exchange cannot be empty"
refusal (queue q os) = unless_empty q "queue cannot be empty"
refusal (queue_deadline q os) = unless_empty q "queue cannot be empty"

module _ {W Msg : Type 0} (net : Network W) (app : String)
    (out : Outside (ConnectionManager W × W) Msg) (msg : Msg) where
  closed-refuses :
      (m : ConnectionManager W) (w : W) (c : Method)
      → m.closed ≡ true
      → run app (service net) out c msg (m, w) ≡ (failed (refusal c), [], (m, w))
  unfolding service get_channel publish publish_deferred_confirm simple_publish publish_exchange
      publish_deadline publish_queue publish_queue_deadline
  closed-refuses m w (simple t) e = ground arith
  closed-refuses m w (exchange x k os) e = ground arith
  closed-refuses m w (exchange_deadline x k os) e = ground arith
  closed-refuses m w (queue q os) e = ground arith
  closed-refuses m w (queue_deadline q os) e = ground arith

  -- In every state that is reached from a new manager in which its goroutine is reconnecting, from
  -- the failure of the connection until an attempt has succeeded, each method of the publisher
  -- returns an error, that of an empty name or that the manager is closed, sends nothing, and
  -- changes neither the manager nor the outside.
  pub retrying-refuses :
      (scale : ℤ → ℤ) (a c : String) (cfgs : List ReconnectionConfig) (w v : W)
      {m : ConnectionManager W} {b : State W} (method : Method)
      → (new_connection_manager net a c cfgs w).0 ≡ ok m
      → Reach net scale (watching, m, v) b
      → IsRetrying b.0
      → run app (service net) out method msg (b.1, b.2) ≡ (failed (refusal method), [], (b.1, b.2))
  retrying-refuses scale a c cfgs w v {b = b} method e r h =
      closed-refuses b.1 b.2 method
        (retrying-closed b.0 b.1 (monitored-IsSound net scale a c cfgs w v e r) h)
