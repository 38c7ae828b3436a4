-- ===== src/Tests/Reconnected.antt =====
-- dispatcher.go and connection_manager.go: examples of a reconnection.
use bunmq.Base.{ℕ, suc, String, ◌≡◌, true, false, refl, inl, some, List, [], ◌∷◌}
use bunmq.Base.Dict
use bunmq.Base.Int.{pos}
use bunmq.Queue.{new_queue, set_retry}
use bunmq.Connection.{new_connection}
use bunmq.Manager.{ConnectionManager}
use bunmq.Manager.Monitor.{State, watching, waiting}
use bunmq.Manager.Monitor.Progress.{run_timers}
use bunmq.Manager.Service.{service}
use bunmq.Dispatcher.{Dispatcher, new_dispatcher}
use bunmq.Dispatcher.System.{System, Event, turn, change, receiving, start, run}
use bunmq.Reconnecting.{IsUntouched, closed-IsUntouched}
use bunmq.Dispatcher.System.Places.{thread_at}
use bunmq.Reconnecting.Resumed.{reconnect-resumes}
use bunmq.Tests.{shop_network, orders, returns, parse, message, died}
use bunmq.Tests.Connecting.{down, constantly}

-- Two goroutines over a manager that reconnects.
abbrev waiting_shop : System (ConnectionManager ℕ × ℕ) String
waiting_shop = start (orders ∷ returns ∷ []) [] (down, 5)

abbrev no_handlers : Dispatcher (ConnectionManager ℕ × ℕ) String
no_handlers = new_dispatcher (orders ∷ returns ∷ [])

-- Turns of both, with an attempt that fails in between.
abbrev retried : List (Event (ConnectionManager ℕ × ℕ))
retried = turn 0 ∷ turn 1 ∷ turn 0 ∷ change (down, 9) ∷ turn 0 ∷ turn 1 ∷ []

closed-IsUntouched_example :
    IsUntouched shop_network parse no_handlers
      (down, 9)
      waiting_shop
      (run (service shop_network) parse no_handlers retried waiting_shop)
closed-IsUntouched_example =
    closed-IsUntouched shop_network parse no_handlers retried waiting_shop
      (tt, (tt, (tt, (refl, (tt, (tt, tt)))))) refl refl (tt, (tt, tt))

-- What three stretches of the goroutine leave.
abbrev after : State ℕ
after = run_timers shop_network constantly 3 [] (waiting 1 (pos 2), down, 5)

reconnect-resumes_example :
    let ds = message (died 2) "tea" ∷ message (died 3) "tea" ∷ [] in
    let z =
      run
        (service shop_network)
        parse
        no_handlers
        (change (after.1, after.2) ∷ turn 1 ∷ turn 1 ∷ turn 1 ∷ turn 1 ∷ [])
        waiting_shop in
    (after.0 ≡ watching)
    × (thread_at 1 z.threads ≡ some (returns, receiving ds true))
    × (Dict.lookup "returns" z.shared.channels ≡ some (ds, true))
    × (z.shared.outside ≡ (after.1, suc after.2))
    × (z.crashed ≡ false)
unfolding new_connection set_retry new_queue
reconnect-resumes_example =
    reconnect-resumes shop_network constantly parse no_handlers [] 1 (pos 2) down 5 5 6 7 refl
      (inl refl) after.0 after.1 after.2 refl refl 1 returns waiting_shop
      (message (died 2) "tea" ∷ message (died 3) "tea" ∷ []) true (suc after.2) refl refl refl refl
