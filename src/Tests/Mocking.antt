-- ===== src/Tests/Mocking.antt =====
-- mocks.go: examples.
use bunmq.Base.{ℕ, String, ◌≡◌, true, false, refl, Option, none, some, List, [], ◌∷◌, arith, subst}
use bunmq.Errors.{foreign, ok}
use bunmq.Queue.{new_queue, set_dlq, set_retry}
use bunmq.Topology.{Topology, new_topology, add_queues}
use bunmq.Topology.Declare.{declare_and_bindings}
use bunmq.Topology.Declare.Plan.{plan}
use bunmq.Topology.Declare.Mocked.{Captures, first_error, declare-Captures}
use bunmq.Dispatcher.{
  DeliveryMetadata, ConsumerHandler, ConsumerDefinition, Dispatcher, new_dispatcher,
}
use bunmq.Dispatcher.Metadata.{returned}
use bunmq.Dispatcher.Process.{process_received_message}
use bunmq.Dispatcher.Process.Mocked.{Enters}
use bunmq.Dispatcher.Process.Mocked.Entered
use bunmq.Dispatcher.Process.Mocked.Entered.{Leaves, process-Enters}
use bunmq.Dispatcher.Registry.{register_by_type}
use bunmq.Dispatcher.Select.{evaluate_def_by_received_msg}
use bunmq.Publisher.{Outside}
use bunmq.Publisher.Captured.{Records}
use bunmq.Publisher.Captured.Methods.{LeavesMocks, Method, exchange, run, run-Records}
use bunmq.Mocks.Notify.{GoChan, Store, notify_all}
use bunmq.Mocks.Notify.Delivered.{Notifies, notify_all-Notifies}
use bunmq.Mocks.Channel.{new_mock_amqp_channel}
use bunmq.Mocks.Channel.Setters.{set_queue_declare_error}
use bunmq.Mocks.Connection.{new_mock_rmq_connection}
use bunmq.Mocks.Manager.{new_mock_connection_manager}
use bunmq.Mocks.World.{World, service, mock_channel}
use bunmq.Tests.{order_type, parse, message, orders, returns, died}

-- A Go channel of one place, as the manager makes them, empty.
abbrev mailbox : {A : Type 0} → GoChan A
mailbox = record { capacity = 1; buffer = []; waiting = 0; taken = []; closed = false }

-- A mock manager with its mocks at 0.
abbrev bench : World ℕ
bench = record {
  manager = new_mock_connection_manager 0 0;
  connections = λ p. new_mock_rmq_connection 0;
  channels = λ p. new_mock_amqp_channel;
  closes = λ p. mailbox;
  cancels = λ p. mailbox;
}

-- The second of two equal registrations gets nothing, and a nil channel is passed over.
abbrev receivers : List (Option ℕ)
receivers = some 3 ∷ none ∷ some 3 ∷ some 4 ∷ []

abbrev mailboxes : Store ℕ
mailboxes p = mailbox

notify_all-Notifies_example : Notifies 7 receivers mailboxes (notify_all 7 receivers mailboxes)
notify_all-Notifies_example = notify_all-Notifies 7 receivers mailboxes

-- Packages that do not touch the mocks.
abbrev packages : Outside (World ℕ) String
packages = record {
  type_of = λ m. some order_type;
  marshal = λ m. ok m;
  trace_fields = λ w. [];
  new_id = λ w. ("id", w);
  wait_context = λ c w. (ok true, w);
}

packages-LeavesMocks : LeavesMocks packages
packages-LeavesMocks = record {
  id_manager = λ w. refl;
  id_channels = λ w. refl;
  wait_manager = λ c w. refl;
  wait_channels = λ c w. refl;
}

abbrev sale : Method
sale = exchange "sales" "new" []

run-Records_example :
    let (r, sent, w') = run "shop" service packages sale "tea" bench in Records 0 sent bench w'
run-Records_example = run-Records "shop" packages sale "tea" bench 0 packages-LeavesMocks

abbrev shop_topology : Topology
shop_topology = add_queues (orders ∷ returns ∷ []) (new_topology "shop" "amqp://localhost")

abbrev refusing : World ℕ
refusing = record bench {
  channels = λ p. set_queue_declare_error (some (foreign "refused")) new_mock_amqp_channel;
}

declare-Captures_example :
    let (e, ds, w') =
      declare_and_bindings (some (mock_channel 0)) (orders ∷ returns ∷ []) shop_topology refusing in
    (e ≡ first_error (refusing.channels 0) (plan (orders ∷ returns ∷ []) shop_topology))
    × Captures "orders"
        (plan (orders ∷ returns ∷ []) shop_topology)
        (refusing.channels 0)
        (w'.channels 0)
declare-Captures_example =
    declare-Captures 0 "orders" (orders ∷ returns ∷ []) shop_topology refusing

-- A handler that asks for nothing.
abbrev accept : ConsumerHandler (World ℕ) String
accept x md w = (returned none, w)

accept-LeavesMocks : Entered.LeavesMocks accept
accept-LeavesMocks = record { same_manager = λ x md w. refl; same_channels = λ x md w. refl }

abbrev mocked_shop : Dispatcher (World ℕ) String
mocked_shop =
    (register_by_type "orders" (some order_type) (some accept) (new_dispatcher (orders ∷ []))).1

mocked_shop-Leaves :
    (md : DeliveryMetadata) (k : ConsumerDefinition (World ℕ) String)
    → evaluate_def_by_received_msg mocked_shop orders md ≡ ok k
    → Leaves parse 0 k.handler
unfolding evaluate_def_by_received_msg register_by_type new_dispatcher new_queue set_dlq set_retry
mocked_shop-Leaves md k e =
    subst (Leaves parse 0) {x = some accept} (ground (arith, e)) accept-LeavesMocks

process-Enters_example :
    let (r, acts, w') =
      process_received_message service parse mocked_shop orders (message (died 3) "tea") bench in
    Enters 0 0 acts bench w'
unfolding new_mock_connection_manager
process-Enters_example =
    process-Enters parse 0 mocked_shop orders (message (died 3) "tea") bench mocked_shop-Leaves
