-- ===== src/Mocks/Channel/Setters.antt =====
-- mocks.go, `MockAMQPChannel`: the methods by which a test sets what the mock answers, and reads
-- what it captured.
use bunmq.Base.{ℕ, Option, none, some, List, [], ◌∷◌}
use bunmq.Errors.{Error}
use bunmq.Amqp.Channel.{Incoming}
use bunmq.Mocks.Channel.{AmqpQueue, PublishedMessage, MockChannel}

unfoldable pub set_exchange_declare_error : Option Error → MockChannel → MockChannel
set_exchange_declare_error e m = record m { exchange_declare_error = e }

unfoldable pub set_exchange_bind_error : Option Error → MockChannel → MockChannel
set_exchange_bind_error e m = record m { exchange_bind_error = e }

unfoldable pub set_queue_declare_error : Option Error → MockChannel → MockChannel
set_queue_declare_error e m = record m { queue_declare_error = e }

unfoldable pub set_queue_declare_queue : AmqpQueue → MockChannel → MockChannel
set_queue_declare_queue queue m = record m { queue_declare_queue = queue }

unfoldable pub set_queue_bind_error : Option Error → MockChannel → MockChannel
set_queue_bind_error e m = record m { queue_bind_error = e }

unfoldable pub set_consume_error : Option Error → MockChannel → MockChannel
set_consume_error e m = record m { consume_error = e }

unfoldable pub set_consume_channel : Incoming → MockChannel → MockChannel
set_consume_channel ch m = record m { consume_channel = ch }

unfoldable pub set_deferred_confirmation : Option ℕ → MockChannel → MockChannel
set_deferred_confirmation dc m = record m { deferred_confirmation = dc }

unfoldable pub set_publish_error : Option Error → MockChannel → MockChannel
set_publish_error e m = record m { publish_error = e }

unfoldable pub set_close_error : Option Error → MockChannel → MockChannel
set_close_error e m = record m { close_error = e }

unfoldable pub set_qos_error : Option Error → MockChannel → MockChannel
set_qos_error e m = record m { qos_error = e }

abbrev pub get_published_messages : MockChannel → List PublishedMessage
get_published_messages m = m.published_messages

abbrev pub last : List PublishedMessage → Option PublishedMessage
last [] = none
last (p ∷ []) = some p
last (p ∷ q ∷ ps) = last (q ∷ ps)

-- A pointer into the slice, read at once; nil for no message.
abbrev pub get_last_published_message : MockChannel → Option PublishedMessage
get_last_published_message m = last m.published_messages

unfoldable pub clear_published_messages : MockChannel → MockChannel
clear_published_messages m = record m { published_messages = [] }
