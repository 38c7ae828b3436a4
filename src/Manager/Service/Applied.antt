-- ===== src/Manager/Service/Applied.antt =====
-- topology.go, `Apply`: what a success means; and the manager's service to the dispatcher.
use bunmq.Base.{false, ◌≡◌, ◌≢◌, refl, subst, Option, none, some, List, arith, ℕ}
use bunmq.Errors.{Error, Result, ok, err}
use bunmq.Amqp.Channel.{Declaration}
use bunmq.Queue.{QueueDefinition}
use bunmq.Connection.{Network, new_connection}
use bunmq.Topology.{Topology}
use bunmq.Topology.Declare.Plan.{plan}
use bunmq.Topology.Declare.Order.{completed-all, declare-Ended}
use bunmq.Manager.{
  ConnectionManager, new_connection_manager, initial_manager, connect, connected, started,
  get_channel, set_topology,
}
use bunmq.Manager.Service.{
  lift_channel, service, apply, Applying, declared, with_channel, with_manager,
}

module _ {W : Type 0} where
  -- A manager that is open, with a connection and a channel.
  abbrev IsOpen : ConnectionManager W → Type 0
  IsOpen m = (m.closed ≡ false) × (m.conn ≢ none) × (m.ch ≢ none)

  IsFresh : Result (ConnectionManager W) → Type 0
  IsFresh (err e) = Unit
  IsFresh (ok m) = IsOpen m

  IsDeclared : (order : List QueueDefinition) → Topology → Applying W → Type 0
  IsDeclared order t (err e, ds, w) = Unit
  IsDeclared order t (ok m, ds, w) = (ds ≡ plan order t) × (m.topology ≡ some t) × IsOpen m

  module _ (order : List QueueDefinition) (t : Topology) where
    declared-IsDeclared :
        (m : ConnectionManager W) (r : Option Error × List Declaration × W)
        → IsOpen m
        → (r.0 ≡ none → r.1 ≡ plan order t)
        → IsDeclared order t (declared t m r)
    unfolding IsDeclared set_topology
    declared-IsDeclared m (some e, ds, w) o d = tt
    declared-IsDeclared m (none, ds, w) o d = (d refl, refl, o)

module _ {W : Type 0} (net : Network W) where
  connected-IsFresh :
      (m : ConnectionManager W) (r : Result (ℕ × ℕ) × W)
      → m.closed ≡ false
      → IsFresh (started net (connected m r)).0
  unfolding IsFresh
  connected-IsFresh m (err e, w) p = tt
  connected-IsFresh m (ok (c, h), w) p = (p, (λ q. ground arith), (λ q. ground arith))

  with_channel-IsDeclared :
      (order : List QueueDefinition) (t : Topology) (m : ConnectionManager W) (w : W) (r : Result ℕ)
      → IsOpen m
      → IsDeclared order t (with_channel net order t m w r)
  unfolding IsDeclared
  with_channel-IsDeclared order t m w (err e) o = tt
  with_channel-IsDeclared order t m w (ok c) o =
      declared-IsDeclared order t m _ o
        (completed-all (net.channel c) (declare-Ended (net.channel c) order t w))

  with_manager-IsDeclared :
      (order : List QueueDefinition) (t : Topology) (r : Result (ConnectionManager W) × W)
      → IsFresh r.0
      → IsDeclared order t (with_manager net order t r)
  unfolding IsDeclared IsFresh
  with_manager-IsDeclared order t (err e, w) f = tt
  with_manager-IsDeclared order t (ok m, w) f =
      with_channel-IsDeclared order t m w (get_channel net m w) f

  apply-IsDeclared :
      (order : List QueueDefinition) (t : Topology) (w : W)
      → IsDeclared order t (apply net order t w)
  unfolding apply new_connection_manager connect initial_manager
  apply-IsDeclared order t w =
      with_manager-IsDeclared order t _ (connected-IsFresh _ (new_connection net _ _ w) refl)

  ok-IsDeclared :
      (order : List QueueDefinition) (t : Topology) (r : Applying W) {m : ConnectionManager W}
      → IsDeclared order t r
      → r.0 ≡ ok m
      → (r.1 ≡ plan order t) × (m.topology ≡ some t) × IsOpen m
  unfolding IsDeclared
  ok-IsDeclared order t (err e, ds, w) d p = ground arith
  ok-IsDeclared order t (ok n, ds, w) (d, q, o) p =
      let s =
        subst (λ r. elim r [ err _ ↦ Unit | ok k ↦ (k.topology ≡ some t) × IsOpen k ]) p (q, o) in
      (d, s.0, s.1)

  -- `Apply` returns a manager only with the topology's whole plan declared, in the plan's order;
  -- the manager then holds the topology for the next connection, is not closed, and has a
  -- connection and a channel.
  pub apply-declares :
      (order : List QueueDefinition) (t : Topology) (w : W) {m : ConnectionManager W}
      → (apply net order t w).0 ≡ ok m
      → ((apply net order t w).1 ≡ plan order t)
        × (m.topology ≡ some t)
        × (m.closed ≡ false)
        × (m.conn ≢ none)
        × (m.ch ≢ none)
  apply-declares order t w e =
      let (d, q, (c, n, h)) =
        ok-IsDeclared order t (apply net order t w) (apply-IsDeclared order t w) e in
      (d, q, c, n, h)

  -- When the manager hands out a channel, the dispatcher gets that channel from it, and asking
  -- changes neither the manager nor what is outside.
  pub service-hands :
      (m : ConnectionManager W) (w : W) (c : ℕ)
      → get_channel net m w ≡ ok c
      → (service net).get_channel (m, w) ≡ (ok (lift_channel (net.channel c)), (m, w))
  unfolding service
  service-hands m w c e = ground arith
