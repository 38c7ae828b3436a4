-- ===== src/Mocks.antt =====
-- mocks.go: the test doubles of the AMQP channel, the connection, the connection manager and the
-- acknowledger. World holds them by pointer, together with the Go channels that they notify.
pub mod Notify
pub mod Channel
pub mod Connection
pub mod Manager
pub mod Acknowledger
pub mod World
pub mod Breach
