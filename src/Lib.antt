-- ===== src/Lib.antt =====
-- Verification library of bunmq, a Go library over RabbitMQ: queues and exchanges are defined, declared as
-- a topology, consumed through a dispatcher and fed by a publisher, on a connection that is kept alive.
--
-- The parts, by file of the repository's root:
--   errors.go             Errors      the package errors, their wrapping, `errors.Is`, results
--   queue.go              Queue       QueueDefinition and its builder; Names, Built
--   exchange.go           Exchange    ExchangeDefinition and its builder
--   binding.go            Binding     both binding definitions and their builders
--   channel.go            Amqp        AMQPChannel, messages and tables (Amqp/Channel, Amqp/Table);
--                                     NewConnection is in Connection
--   connection.go         Connection  RMQConnection and the client library as a record of calls
--   topology.go           Topology    the store; Declare has DeclareAndBindings and its loops, with the
--                                     plan that they carry out (Plan, Order) and the arguments of the
--                                     queues (Arguments); `Apply` is in Manager/Service
--   connection_manager.go Manager     the methods; Monitor has the goroutine `monitor` with
--                                     handleChannelFailure and handleConnectionFailure
--   dispatcher.go         Dispatcher  Registry (Register...), Metadata (extractMetadata), Select
--                                     (evaluateDefByReceivedMsg), Process (processReceivedMessage,
--                                     publishToDlq), Consume (consume, QoS), System (ConsumeBlocking and
--                                     the interleaved goroutines of consume), Lifetime (the deliveries
--                                     of one message that is retried)
--   options.go            Options     the publish options and their builder; Found has optionsLookup
--   tracing.go            Tracing     the header carrier: Set, Get, Keys, the writes of an injection;
--                                     Span has NewConsumerSpan
--   publisher.go          Publisher   all methods of the publisher
--   mocks.go              Mocks       the four mocks (Channel, Connection, Manager, Acknowledger), the Go
--                                     channels that they notify (Notify), and all of them by pointer (World)
--   examples/main.go      Example     the example program
-- GoType is the part of Go's reflect that is used, Base the shared helpers, Tests the examples.
-- Delivered follows a message from the publisher through the broker to its handler, and its trace.
-- Reconnecting has the goroutines of `consume` over a manager that reconnects, the stretches of the
-- monitor being changes outside, and Publisher/Refused the publisher over such a manager. Publisher/Captured,
-- Topology/Declare/Mocked and Dispatcher/Process/Mocked run the publisher, the declarations and the
-- dispatcher on the mocks. Dispatcher/Tags has the delivery tags of a channel. Manager/Contract writes down
-- the interface ConnectionManager with what its users rely on; Mocks/Breach is about the mock manager
-- under it.
--
-- How they interact. What is outside the library (the broker and its client, handlers, JSON, ids,
-- propagators) is a state of any type `W` with calls that read and change it, so nothing is assumed of
-- it. A handler may panic, and nothing recovers. A Go channel of deliveries is what comes through it
-- and whether it is closed behind that; one that stays open keeps its goroutine waiting. A deferred
-- confirmation may be nil. The dispatcher and the publisher see the connection manager through the record
-- Dispatcher.Manager; Manager/Service fills it with the manager's GetChannel. Topology declares on a
-- channel, Apply makes a manager and declares on its channel, and the monitor declares again after a
-- reconnection. Messages go from the publisher to the dispatcher through the broker only, by their
-- type, exchange and routing key: Publisher/TypeName and Delivered relate both ends. What the broker
-- documents stands in records: Delivered.Arrives for the first delivery of a message, the replies to
-- acknowledgements in Dispatcher/Tags.
--
-- Conventions. A builder returns the new definition where Go changes its receiver, and a topology holds
-- definitions as they were when added. Go's random order over a map is the argument `order`. A nil
-- value is `none`; a panic is a result. Sizes and durations are integers; what the code does with them
-- (comparisons, the back-off, milliseconds) does not depend on their width for the values in use, and the
-- product with 1.5 in floats is the argument `scale`. Letters are lowered in ASCII. A run of the monitor
-- is a sequence of stretches between which other goroutines may act; the callback of connect runs under
-- the lock, that of handleChannelFailure in a stretch of its own. In System each goroutine of consume has
-- a phase, a schedule lists whose turn it is, and the processing of one delivery is one turn. The loop
-- of `consume` reads its flag from a list, one entry for each pass, so that a list that is used up
-- stands for a loop that is still running; theorems about it hold for every list. The reconnection loop
-- needs no bound in `step`; run_timers counts stretches, and six for each attempt and five more are
-- enough.
--
-- Not modelled: log lines, the context and deadlines, the contents of spans, the pauses of `consume`, a
-- nil connection or channel in the mock manager, and the tests.
pub mod Base
pub mod Example
pub mod Errors
pub mod Queue
pub mod Amqp
pub mod GoType
pub mod Exchange
pub mod Binding
pub mod Topology
pub mod Connection
pub mod Manager
pub mod Dispatcher
pub mod Tracing
pub mod Options
pub mod Publisher
pub mod Delivered
pub mod Reconnecting
pub mod Mocks
pub mod Tests
