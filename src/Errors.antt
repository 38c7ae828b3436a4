-- ===== src/Errors.antt =====
-- errors.go: the library's error type and its package-level errors, and `errors.Is`.
use bunmq.Base.{String, Bool, true, false, ◌||◌}

-- The package variables. Each holds one pointer, so identity is the constructor.
pub data Sentinel : Type 0 where
  nullable_channel consumer_already_registered_for_the_message not_found_queue_definition : Sentinel
  invalid_dispatch_params queue_definition_not_found : Sentinel
  received_message_with_unformatted_header retryable : Sentinel

abbrev pub same_sentinel : Sentinel → Sentinel → Bool
same_sentinel nullable_channel nullable_channel = true
same_sentinel consumer_already_registered_for_the_message
      consumer_already_registered_for_the_message =
    true
same_sentinel not_found_queue_definition not_found_queue_definition = true
same_sentinel invalid_dispatch_params invalid_dispatch_params = true
same_sentinel queue_definition_not_found queue_definition_not_found = true
same_sentinel received_message_with_unformatted_header received_message_with_unformatted_header =
    true
same_sentinel retryable retryable = true
same_sentinel _ _ = false

-- The errors that code meets: a package variable, a fresh `NewBunMQError`, an error of another
-- package (`fmt.Errorf`, a client or broker error), and the two ways to wrap errors.
pub data Error : Type 0 where
  sentinel : Sentinel → Error
  bun_mq_error : String → Error
  foreign : String → Error
  wrapped : String → Error → Error
  joined : String → Error → Error → Error

abbrev pub sentinel_message : Sentinel → String
sentinel_message nullable_channel = "channel cant be null"
sentinel_message consumer_already_registered_for_the_message =
    "consumer already registered for the message"
sentinel_message not_found_queue_definition = "not found queue definition"
sentinel_message invalid_dispatch_params = "register dispatch with invalid parameters"
sentinel_message queue_definition_not_found = "any queue definition was founded to the given queue"
sentinel_message received_message_with_unformatted_header =
    "received message with unformatted headers"
sentinel_message retryable = "error to process this message, retry latter"

-- `Error()`
abbrev pub message : Error → String
message (sentinel s) = sentinel_message s
message (bun_mq_error m) = m
message (foreign m) = m
message (wrapped m e) = m
message (joined m e f) = m

-- `errors.Is(err, target)` for a package variable: the target itself, or one below in the tree.
unfoldable pub errors_is : Error → Sentinel → Bool
errors_is (sentinel s) t = same_sentinel s t
errors_is (bun_mq_error m) t = false
errors_is (foreign m) t = false
errors_is (wrapped m e) t = errors_is e t
errors_is (joined m e f) t = errors_is e t || errors_is f t

-- `rabbitMQDialError` and `getChannelError` keep the text and drop the chain.
unfoldable pub rabbit_mq_dial_error : Error → Error
rabbit_mq_dial_error e = bun_mq_error (message e)

unfoldable pub get_channel_error : Error → Error
get_channel_error e = bun_mq_error (message e)

-- A call's value and error: `(v, nil)` or `(nil, err)`.
pub data Result {ℓ} (A : Type ℓ) : Type ℓ where
  ok : A → Result A
  err : Error → Result A

abbrev pub is_ok {ℓ} : {A : Type ℓ} → Result A → Bool
is_ok (ok a) = true
is_ok (err e) = false
