-- ===== src/Dispatcher/System/Shutdown.antt =====
-- dispatcher.go, `ConsumeBlocking`: what is left to do once the signal has come.
pub mod Bounds
pub mod Fair
use bunmq.Base.{
  ℕ, zero, suc, ◌+◌, ◌≤◌, String, Bool, true, false, ◌≡◌, refl, List, [], ◌∷◌, arith, if◌then◌else◌,
}
use bunmq.Base.Lists.{length}
use bunmq.Errors.{Result}
use bunmq.GoType.{GoType}
use bunmq.Queue.{QueueDefinition}
use bunmq.Amqp.Channel.{Delivery}
use bunmq.Dispatcher.{Manager, Dispatcher}
use bunmq.Dispatcher.Metadata.{Run, returned, panicked}
use bunmq.Dispatcher.Process.{Action, process_received_message}
use bunmq.Dispatcher.System.{
  Phase, checking, connecting, dropping, ended, opening, storing, receiving, Shared, Thread, Step,
  System, Event, turn, signal, change, onward, next_of_run, advance, advance_at, happen, took,
}

module _ {W : Type 0} where
  -- How many actions a goroutine has left once the flag is reset. One that has begun to connect is
  -- left out, since the number of deliveries that come is not known.
  abbrev pub pending : Phase W → ℕ
  pending ended = 0
  pending checking = 1
  pending dropping = 2
  pending (receiving ds true) = 3 + length ds
  pending (receiving ds false) = length ds
  pending (storing ds closes) = 4 + length ds
  pending connecting = 0
  pending (opening ch) = 0

  abbrev pub IsWinding : Phase W → Type 0
  IsWinding connecting = ⊥
  IsWinding (opening ch) = ⊥
  IsWinding _ = Unit

  abbrev pub total : List (Thread W) → ℕ
  total [] = 0
  total (t ∷ ts) = pending t.1 + total ts

  -- 0 for a goroutine that has ended, or that waits at an open Go channel, otherwise 1; and the same
  -- of the one at a place.
  abbrev pub live : Phase W → ℕ
  live ended = 0
  live (receiving [] false) = 0
  live _ = 1

  abbrev pub acts_at : ℕ → List (Thread W) → ℕ
  acts_at n [] = 0
  acts_at zero (t ∷ ts) = live t.1
  acts_at (suc n) (t ∷ ts) = acts_at n ts

  abbrev pub AreWinding : List (Thread W) → Type 0
  AreWinding [] = Unit
  AreWinding (t ∷ ts) = IsWinding t.1 × AreWinding ts

  acts_at_bound : (n : ℕ) (ts : List (Thread W)) → AreWinding ts → acts_at n ts ≤ total ts
  acts_at_bound n [] v = omega arith
  acts_at_bound zero ((q, checking) ∷ ts) v = omega arith
  acts_at_bound zero ((q, connecting) ∷ ts) v = absurd v.0
  acts_at_bound zero ((q, dropping) ∷ ts) v = omega arith
  acts_at_bound zero ((q, ended) ∷ ts) v = omega arith
  acts_at_bound zero ((q, opening ch) ∷ ts) v = absurd v.0
  acts_at_bound zero ((q, storing ds closes) ∷ ts) v = omega arith
  acts_at_bound zero ((q, receiving [] true) ∷ ts) v = omega arith
  acts_at_bound zero ((q, receiving [] false) ∷ ts) v = omega arith
  acts_at_bound zero ((q, receiving (d ∷ ds) true) ∷ ts) v = omega arith
  acts_at_bound zero ((q, receiving (d ∷ ds) false) ∷ ts) v = omega arith
  acts_at_bound (suc n) (t ∷ ts) v = omega (arith, acts_at_bound n ts v.1)

module _ {W Payload : Type 0} where
  -- An event's share of the actions of goroutines that have not ended.
  abbrev pub event_acts : Event W → System W Payload → ℕ
  event_acts (turn n) y = if y.crashed then 0 else acts_at n y.threads
  event_acts _ y = 0

  abbrev pub left : System W Payload → ℕ
  left y = if y.crashed then 0 else total y.threads

  -- The signal has come, and no goroutine has begun to connect.
  pub record IsStopping (y : System W Payload) : Type 0 where
    pub unset : y.shared.consuming ≡ false
    pub winding : AreWinding y.threads

  abbrev pub StepWinds : Phase W → Step W Payload (Phase W) → Type 0
  StepWinds p (returned p', n, acts, h) =
      IsWinding p' × (live p + pending p' ≤ pending p) × (h.consuming ≡ false)
  StepWinds p (panicked, n, acts, h) = h.consuming ≡ false

  -- The action of a place brings the total down.
  abbrev PlaceWinds : ℕ → List (Thread W) → Step W Payload (List (Thread W)) → Type 0
  PlaceWinds place ts (returned ts', n, acts, h) =
      AreWinding ts' × (acts_at place ts + total ts' ≤ total ts) × (h.consuming ≡ false)
  PlaceWinds place ts (panicked, n, acts, h) = h.consuming ≡ false

  next_of_run-StepWinds :
      (d : Delivery) (ds : List Delivery) (closes : Bool)
      (r : Run (Unit {0}) × List (Action Payload) × W) (h : Shared W)
      → h.consuming ≡ false
      → StepWinds (receiving (d ∷ ds) closes) (next_of_run d ds closes r h)
  next_of_run-StepWinds d ds true (returned _, acts, w) h e = (tt, omega arith, e)
  next_of_run-StepWinds d ds false (returned _, acts, w) h e = (tt, omega arith, e)
  next_of_run-StepWinds d ds closes (panicked, acts, w) h e = e

  at_head-PlaceWinds :
      (q : QueueDefinition) (p : Phase W) (ts : List (Thread W)) (r : Step W Payload (Phase W))
      → AreWinding ts
      → StepWinds p r
      → PlaceWinds 0 ((q, p) ∷ ts) (onward (λ p'. (q, p') ∷ ts) r)
  at_head-PlaceWinds q p ts (returned p', n, acts, h) v k = ((k.0, v), omega (arith, k.1), k.2)
  at_head-PlaceWinds q p ts (panicked, n, acts, h) v k = k

  behind-PlaceWinds :
      (place : ℕ) (t : Thread W) (ts : List (Thread W)) (r : Step W Payload (List (Thread W)))
      → IsWinding t.1
      → PlaceWinds place ts r
      → PlaceWinds (suc place) (t ∷ ts) (onward (λ ts'. t ∷ ts') r)
  behind-PlaceWinds place t ts (returned ts', n, acts, h) v k = ((v, k.0), omega (arith, k.1), k.2)
  behind-PlaceWinds place t ts (panicked, n, acts, h) v k = k

module _ {W Payload : Type 0} (manager : Manager W) (unmarshal : String → GoType → Result Payload)
    (s : Dispatcher W Payload) where
  pub advance-StepWinds :
      (q : QueueDefinition) (p : Phase W) (h : Shared W)
      → h.consuming ≡ false
      → IsWinding p
      → StepWinds p (advance manager unmarshal s q p h)
  unfolding advance
  advance-StepWinds q checking h e v = rw e (tt, omega arith, refl)
  advance-StepWinds q connecting h e v = absurd v
  advance-StepWinds q (opening ch) h e v = absurd v
  advance-StepWinds q (storing ds true) h e v = (tt, omega arith, e)
  advance-StepWinds q (storing ds false) h e v = (tt, omega arith, e)
  advance-StepWinds q (receiving [] true) h e v = (tt, omega arith, e)
  advance-StepWinds q (receiving [] false) h e v = (tt, omega arith, e)
  advance-StepWinds q (receiving (d ∷ ds) closes) h e v =
      next_of_run-StepWinds d ds closes (process_received_message manager unmarshal s q d h.outside)
        h e
  advance-StepWinds q dropping h e v = (tt, omega arith, e)
  advance-StepWinds q ended h e v = (tt, omega arith, e)

  advance_at-PlaceWinds :
      (n : ℕ) (ts : List (Thread W)) (h : Shared W)
      → h.consuming ≡ false
      → AreWinding ts
      → PlaceWinds n ts (advance_at manager unmarshal s n ts h)
  unfolding advance_at
  advance_at-PlaceWinds n [] h e v = (tt, omega arith, e)
  advance_at-PlaceWinds zero ((q, p) ∷ ts) h e v =
      at_head-PlaceWinds q p ts (advance manager unmarshal s q p h) v.1
        (advance-StepWinds q p h e v.0)
  advance_at-PlaceWinds (suc n) (t ∷ ts) h e v =
      behind-PlaceWinds n t ts (advance_at manager unmarshal s n ts h) v.0
        (advance_at-PlaceWinds n ts h e v.1)

  -- What an event does to a stopping system.
  abbrev Winds : ℕ → ℕ → System W Payload → Type 0
  Winds acted before y = IsStopping y × (acted + left y ≤ before)

  took-Winds :
      (place : ℕ) (y : System W Payload) (r : Step W Payload (List (Thread W)))
      → y.crashed ≡ false
      → IsStopping y
      → PlaceWinds place y.threads r
      → Winds (acts_at place y.threads) (total y.threads) (took manager unmarshal s y r)
  took-Winds place y (returned ts, n, acts, h) c v k =
      (record { unset = k.2; winding = k.0 }, rw c (omega (arith, k.1)))
  took-Winds place y (panicked, n, acts, h) c v k = (
    record { unset = k; winding = v.winding },
    omega (arith, acts_at_bound place y.threads v.winding),
  )

  turn-Winds :
      (place : ℕ) (y : System W Payload) (b : Bool)
      → y.crashed ≡ b
      → IsStopping y
      → Winds (if b then 0 else acts_at place y.threads) (left y) (
          if b
          then y
          else took manager unmarshal s y (advance_at manager unmarshal s place y.threads y.shared))
  turn-Winds place y true e v = (v, omega arith)
  turn-Winds place y false e v =
      let (stopping, less) =
        took-Winds place y _ e v
          (advance_at-PlaceWinds place y.threads y.shared v.unset v.winding) in
      let same : left y ≡ total y.threads = rw e refl in (stopping, omega (arith, less, same))

  happen-Winds :
      (e : Event W) (y : System W Payload)
      → IsStopping y
      → Winds (event_acts e y) (left y) (happen manager unmarshal s e y)
  unfolding happen
  happen-Winds (turn n) y v = turn-Winds n y y.crashed refl v
  happen-Winds signal y v = (record { unset = refl; winding = v.winding }, omega arith)
  happen-Winds (change w) y v = (record { unset = v.unset; winding = v.winding }, omega arith)

  -- The number of actions of goroutines that have not ended, in a run.
  unfoldable pub busy : List (Event W) → System W Payload → ℕ
  unfolding happen
  busy [] y = 0
  busy (e ∷ es) y = event_acts e y + busy es (happen manager unmarshal s e y)

  -- After the signal, where no goroutine has begun to connect, goroutines that have not ended act
  -- at most as often, in every schedule, as there are actions left: for each goroutine its
  -- remaining deliveries and at most four more.
  pub busy_bound : (es : List (Event W)) (y : System W Payload) → IsStopping y → busy es y ≤ left y
  unfolding busy
  busy_bound [] y v = omega arith
  busy_bound (e ∷ es) y v =
      let (stopping, less) = happen-Winds e y v in
      omega (arith, less, busy_bound es (happen manager unmarshal s e y) stopping)
