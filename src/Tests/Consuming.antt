-- ===== src/Tests/Consuming.antt =====
-- dispatcher.go, `ConsumeBlocking`: examples.
use bunmq.Base.{ℕ, String, ◌≡◌, ◌≤◌, ◌⊎◌, refl, true, false, some, List, [], ◌∷◌, arith, eq_iff}
use bunmq.Queue.{new_queue, set_dlq, set_retry}
use bunmq.Dispatcher.System.{
  System, Event, turn, signal, change, checking, receiving, ended, start, run,
}
use bunmq.Dispatcher.System.Taken.{deliveries, taken}
use bunmq.Dispatcher.System.Settled.{SystemSettles, run-settles}
use bunmq.Dispatcher.System.Stored.{IsOrderly}
use bunmq.Dispatcher.System.Stored.Kept.{run-IsOrderly}
use bunmq.Dispatcher.System.Places.{thread_at}
use bunmq.Dispatcher.System.Shutdown.Fair.{stopped-ends}
use bunmq.Dispatcher.System.Shutdown.{busy, busy_bound}
use bunmq.Tests.{online, parse, shop, orders, returns, message, died}

-- Both goroutines connect, and one receives a message, before the signal comes.
abbrev schedule : List (Event ℕ)
schedule =
    turn 0 ∷ turn 1 ∷ turn 0 ∷ turn 0 ∷ turn 1 ∷ turn 0 ∷ turn 0 ∷ change 9 ∷ signal ∷ turn 1 ∷ []

run-settles_example :
    let y = run online parse shop schedule (start (orders ∷ returns ∷ []) [] 0) in
    (deliveries y.actions ≡ taken online parse shop schedule (start (orders ∷ returns ∷ []) [] 0))
    × SystemSettles y
run-settles_example = run-settles online parse shop (orders ∷ returns ∷ []) [] 0 schedule

run-IsOrderly_example :
    IsOrderly (run online parse shop schedule (start (orders ∷ returns ∷ []) [] 0))
unfolding new_queue set_dlq set_retry
run-IsOrderly_example =
    run-IsOrderly online parse shop (orders ∷ returns ∷ []) 0 schedule
      (((λ e. ground (arith, eq_iff "returns" "orders")), tt), (tt, tt))

-- The signal came while two messages waited in one Go channel.
abbrev stopping : System ℕ String
stopping = record {
  threads =
      (orders, receiving (message (died 1) "tea" ∷ message (died 2) "tea" ∷ []) true)
      ∷ (returns, checking)
      ∷ [];
  shared = record { consuming = false; channels = ("orders", ([], true)) ∷ []; outside = 0 };
  crashed = false;
  received = 0;
  actions = [];
}

busy_bound_example :
    busy online parse shop (turn 0 ∷ turn 0 ∷ turn 1 ∷ turn 0 ∷ turn 0 ∷ []) stopping ≤ 6
busy_bound_example =
    busy_bound online parse shop (turn 0 ∷ turn 0 ∷ turn 1 ∷ turn 0 ∷ turn 0 ∷ []) stopping
      (record { unset = refl; winding = (tt, (tt, tt)) })

-- The last turn of the first goroutine comes after everything else.
abbrev fair : List (Event ℕ)
fair = turn 0 ∷ turn 1 ∷ turn 0 ∷ change 7 ∷ turn 0 ∷ turn 0 ∷ turn 1 ∷ turn 0 ∷ []

stopped-ends_example :
    let y' = run online parse shop fair stopping in
    (y'.crashed ≡ true)
    ⊎ (thread_at 0 y'.threads ≡ some (orders, ended))
    ⊎ (thread_at 0 y'.threads ≡ some (orders, receiving [] false))
stopped-ends_example =
    stopped-ends online parse shop fair 0 orders
      (receiving (message (died 1) "tea" ∷ message (died 2) "tea" ∷ []) true) stopping refl refl tt
      (omega arith)
