-- ===== src/Manager/Monitor/Reconnect.antt =====
-- connection_manager.go, `handleConnectionFailure`: an attempt that succeeds.
use bunmq.Base.{ℕ, false, ◌≡◌, ◌⊎◌, inl, inr, none, some, List, arith}
use bunmq.Base.Int.{ℤ}
use bunmq.Errors.{ok}
use bunmq.Queue.{QueueDefinition}
use bunmq.Connection.{Network, new_connection}
use bunmq.Topology.{Topology}
use bunmq.Topology.Declare.{declare_and_bindings}
use bunmq.Manager.{ConnectionManager, connect, run_callback}
use bunmq.Manager.Monitor.{watching, waiting, step}
use bunmq.Manager.Monitor.Progress.{run_timers}

module _ {W : Type 0} (net : Network W) (scale : ℤ → ℤ) (order : List QueueDefinition) where
  -- The topology, if there is one, can be declared on the channel of this handle.
  abbrev pub Redeclares : ConnectionManager W → ℕ → W → Type 0
  Redeclares m h w =
      (m.topology ≡ none)
      ⊎ ((t : Topology) × (m.topology ≡ some t)
          × ((declare_and_bindings (some (net.channel h)) order t w).0 ≡ none))

  -- From the wait before an attempt, a connection that can be made and a topology that can be
  -- declared on its channel, after the callback, bring the goroutine back to its `select` in three
  -- stretches, with the manager open and holding the new connection and channel.
  pub reconnect-opens :
      (n : ℕ) (d : ℤ) (m : ConnectionManager W) (w : W) (c h : ℕ) (v : W)
      → new_connection net m.app_name m.connection_string w ≡ (ok (c, h), v)
      → Redeclares m h (run_callback m.reconnect_callback (some c) (some h) v)
      → let (p', m', w') = run_timers net scale 3 order (waiting n d, m, w) in
        (p' ≡ watching)
        × (m'.closed ≡ false)
        × (m'.conn ≡ some c)
        × (m'.ch ≡ some h)
        × (m'.topology ≡ m.topology)
  unfolding run_timers step connect
  reconnect-opens n d m w c h v e (inl absent) = ground arith
  reconnect-opens n d m w c h v e (inr (t, has, fine)) = ground arith
