-- ===== src/Amqp.antt =====
-- The data of github.com/rabbitmq/amqp091-go that the code builds and reads: dynamic values,
-- tables, publishings and deliveries, and the interface `AMQPChannel` of channel.go.
pub mod Table
pub mod Channel
