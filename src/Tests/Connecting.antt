-- ===== src/Tests/Connecting.antt =====
-- connection_manager.go, and `Apply` of topology.go: examples.
use bunmq.Base.{ℕ, String, ◌≡◌, ◌≢◌, ◌*◌, ◌+◌, refl, inl, inr, true, false, none, some, [], ◌∷◌}
use bunmq.Base.Int.{ℤ, pos}
use bunmq.Errors.{ok, foreign}
use bunmq.Queue.{new_queue, set_dlq, set_retry}
use bunmq.Connection.{new_connection}
use bunmq.Topology.{Topology, new_topology, add_queues}
use bunmq.Topology.Declare.{
  declare_and_bindings, declare_exchanges, declare_queues, bind_queues, bind_exchanges,
}
use bunmq.Topology.Declare.Plan.{plan}
use bunmq.Manager.{ConnectionManager, initial_manager, new_connection_manager, connect, get_channel}
use bunmq.Manager.Health.{IsShut}
use bunmq.Manager.Monitor.{failing, watching, retrying, connection_closed, step}
use bunmq.Manager.Monitor.Reach.{IsSound, here, next, monitors, changes, monitored-IsSound}
use bunmq.Manager.Monitor.Shut.{cancelled-IsShut}
use bunmq.Manager.Monitor.Progress.{run_timers, failure-ends}
use bunmq.Manager.Service.{service, lift_channel, apply}
use bunmq.Manager.Service.Applied.{apply-declares, service-hands}
use bunmq.Manager.Contract.{Honours, manager_api, manager-Honours}
use bunmq.Publisher.{Outside, failed}
use bunmq.Publisher.Captured.Methods.{exchange, run}
use bunmq.Publisher.Refused.{refusal, retrying-refuses}
use bunmq.Tests.{shop_channel, shop_network, orders, returns}

-- A manager that is connected, with two attempts at most, and the same while it reconnects.
abbrev live : ConnectionManager ℕ
live = record {
  connection_string = "amqp://localhost";
  app_name = "shop";
  conn = some 0;
  ch = some 1;
  closed = false;
  reconnect_callback = none;
  max_reconnect_attempts = pos 2;
  reconnect_delay = pos 2;
  reconnect_backoff_max = pos 300;
  watched_conn = some 0;
  watched_ch = some 1;
  watched_cancel = some 1;
  cancelled = false;
  topology = none;
}

abbrev pub down : ConnectionManager ℕ
down = record live { closed = true }

abbrev shut : ConnectionManager ℕ
shut = record live { closed = true; cancelled = true }

-- Delays that do not grow.
abbrev pub constantly : ℤ → ℤ
constantly d = d

monitored-IsSound_example : IsSound (retrying 0 (pos 2)) (record down {
  reconnect_backoff_max = pos 300_000_000_000;
  max_reconnect_attempts = pos 0;
  reconnect_delay = pos 2;
})
unfolding new_connection_manager new_connection connect initial_manager step
monitored-IsSound_example =
    monitored-IsSound shop_network constantly "shop" "amqp://localhost"
      (record { max_attempts = pos 0; initial_delay = pos 2; backoff_max = pos 300_000_000_000 }
        ∷ [])
      0 2 refl (next here (monitors (connection_closed (some (foreign "reset"))) [] refl))

cancelled-IsShut_example : IsShut shop_network shut 9
unfolding step
cancelled-IsShut_example =
    cancelled-IsShut shop_network constantly {a = (watching, shut, 3)} {b = (watching, shut, 9)}
      (record { has_conn = refl; has_ch = refl; shut = inr refl; stands = tt }) refl
      (next (next here (monitors (connection_closed none) [] refl)) (changes 9 refl))

failure-ends_example :
    (run_timers shop_network constantly (6 * (1 + 1) + 5) [] (failing, live, 2)).0 ≡ watching
failure-ends_example =
    failure-ends shop_network constantly 1 [] failing live 2 refl refl
      (record { has_conn = refl; has_ch = refl; shut = inl refl; stands = tt })

abbrev shop_topology : Topology
shop_topology = add_queues (orders ∷ returns ∷ []) (new_topology "shop" "amqp://localhost")

-- What `Apply` makes of it.
abbrev applied : ConnectionManager ℕ
applied = record {
  connection_string = "amqp://localhost";
  app_name = "shop";
  conn = some 0;
  ch = some 1;
  closed = false;
  reconnect_callback = none;
  max_reconnect_attempts = pos 0;
  reconnect_delay = pos 2_000_000_000;
  reconnect_backoff_max = pos 300_000_000_000;
  watched_conn = some 0;
  watched_ch = some 1;
  watched_cancel = some 1;
  cancelled = false;
  topology = some shop_topology;
}

apply-declares_example :
    ((apply shop_network (orders ∷ returns ∷ []) shop_topology 0).1
      ≡ plan (orders ∷ returns ∷ []) shop_topology)
    × (applied.topology ≡ some shop_topology)
    × (applied.closed ≡ false)
    × (applied.conn ≢ none)
    × (applied.ch ≢ none)
unfolding apply new_connection_manager new_connection get_channel declare_and_bindings
    declare_exchanges add_queues new_topology declare_queues set_retry set_dlq new_queue bind_queues
    bind_exchanges
apply-declares_example =
    apply-declares shop_network (orders ∷ returns ∷ []) shop_topology 0 {m = applied} refl

service-hands_example :
    (service shop_network).get_channel (live, 5) ≡ (ok (lift_channel shop_channel), (live, 5))
unfolding get_channel
service-hands_example = service-hands shop_network live 5 1 refl

-- Packages over a manager and what is outside it.
abbrev wires : Outside (ConnectionManager ℕ × ℕ) String
wires = record {
  type_of = λ m. none;
  marshal = λ m. ok m;
  trace_fields = λ w. [];
  new_id = λ w. ("id", w);
  wait_context = λ i w. (ok true, w);
}

-- The connection has been lost, and the manager waits for its first attempt.
abbrev lost : ConnectionManager ℕ
lost = record applied { closed = true; reconnect_delay = pos 2; topology = none }

retrying-refuses_example :
    run "shop" (service shop_network) wires (exchange "events" "paid" []) "hello" (lost, 2)
    ≡ (failed (refusal (exchange "events" "paid" [])), [], (lost, 2))
unfolding new_connection_manager new_connection connect initial_manager step
retrying-refuses_example =
    retrying-refuses shop_network "shop" wires "hello" constantly "shop" "amqp://localhost"
      (record { max_attempts = pos 0; initial_delay = pos 2; backoff_max = pos 300_000_000_000 }
        ∷ [])
      0 2 {m = record applied { reconnect_delay = pos 2; topology = none }}
      {b = (retrying 0 (pos 2), lost, 2)} (exchange "events" "paid" []) refl
      (next here (monitors (connection_closed (some (foreign "reset"))) [] refl)) tt

manager-Honours_example :
    Honours (manager_api shop_network) (λ c s. false) (λ c s. false) (λ s t. t.0 ≡ s.0)
manager-Honours_example = manager-Honours shop_network
