-- ===== src/Manager/Service.antt =====
-- connection_manager.go and topology.go: the connection manager as the dispatcher and the
-- publisher see it, and `Apply`, which makes a manager whose topology is declared.
pub mod Applied
use bunmq.Base.{ℕ, String, Option, none, some, List, [], ◌∷◌}
use bunmq.Errors.{Error, Result, ok, err}
use bunmq.Amqp.Channel.{AmqpChannel, Declaration}
use bunmq.Queue.{QueueDefinition}
use bunmq.Connection.{Network}
use bunmq.Topology.{Topology}
use bunmq.Topology.Declare.{declare_and_bindings}
use bunmq.Dispatcher.{Manager}
use bunmq.Manager.{ConnectionManager, new_connection_manager, get_channel, set_topology}

module _ {W M : Type 0} where
  -- A channel's calls leave what stands beside the outside state alone.
  abbrev beside : {A : Type 0} → M → A × W → A × (M × W)
  beside m (a, w) = (a, (m, w))

  abbrev pub lift_channel : AmqpChannel W → AmqpChannel (M × W)
  lift_channel ch = record {
    declare = λ x (m, w). beside m (ch.declare x w);
    publish = λ x k a b p (m, w). beside m (ch.publish x k a b p w);
    publish_with_deferred_confirm =
        λ x k a b p (m, w). beside m (ch.publish_with_deferred_confirm x k a b p w);
    consume = λ q c a b d e t (m, w). beside m (ch.consume q c a b d e t w);
    qos = λ n z g (m, w). beside m (ch.qos n z g w);
  }

abbrev pub Applying : Type 0 → Type 0
Applying W = Result (ConnectionManager W) × List Declaration × W

module _ {W : Type 0} where
  abbrev declared :
      Topology → ConnectionManager W → Option Error × List Declaration × W → Applying W
  declared t m (some e, ds, w) = (err e, ds, w)
  declared t m (none, ds, w) = (ok (set_topology (some t) m), ds, w)

module _ {W : Type 0} (net : Network W) where
  abbrev handed : Result ℕ → Result (AmqpChannel (ConnectionManager W × W))
  handed (err e) = err e
  handed (ok c) = ok (lift_channel (net.channel c))

  -- The manager's `GetChannel`, over a state that holds the manager beside the outside. It changes
  -- nothing.
  unfoldable pub service : Manager (ConnectionManager W × W)
  service = record { get_channel = λ (m, w). (handed (get_channel net m w), (m, w)) }

  abbrev with_channel :
      List QueueDefinition → Topology → ConnectionManager W → W → Result ℕ → Applying W
  with_channel order t m w (err e) = (err e, [], w)
  with_channel order t m w (ok c) =
      declared t m (declare_and_bindings (some (net.channel c)) order t w)

  abbrev with_manager :
      List QueueDefinition → Topology → Result (ConnectionManager W) × W → Applying W
  with_manager order t (err e, w) = (err e, [], w)
  with_manager order t (ok m, w) = with_channel order t m w (get_channel net m w)

  -- `Apply`, with the order in which Go ranges over the topology's queues. A manager that was made
  -- is not closed where a later call fails.
  unfoldable pub apply : (order : List QueueDefinition) → Topology → W → Applying W
  unfolding set_topology
  apply order t w =
      with_manager order t (new_connection_manager net t.app_name t.connection_string [] w)
