-- ===== src/Dispatcher/System.antt =====
-- dispatcher.go: `ConsumeBlocking` and the goroutines that it starts, one for each queue,
-- interleaved. Each runs the loop of `consume`; a phase is the place where it stands between two
-- actions that others can see. The processing of a delivery is one action here, and the pauses are
-- left out.
pub mod Stored
pub mod Places
pub mod Taken
pub mod Settled
pub mod Shutdown
use bunmq.Base.{
  ℕ, String, zero, suc, ◌+◌, Bool, true, false, List, [], ◌∷◌, ◌++◌, map, if◌then◌else◌,
}
use bunmq.Base.Dict
use bunmq.Errors.{Result, ok, err}
use bunmq.GoType.{GoType}
use bunmq.Queue.{QueueDefinition}
use bunmq.Amqp.Table.{empty}
use bunmq.Amqp.Channel.{AmqpChannel, Delivery, Incoming}
use bunmq.Dispatcher.{Manager, Dispatcher}
use bunmq.Dispatcher.Metadata.{Run, returned, panicked}
use bunmq.Dispatcher.Process.{Action, process_received_message}
use bunmq.Dispatcher.Consume.{Channels}

-- Where a goroutine stands: before it reads the flag, before `GetChannel`, before `Consume` on a
-- channel, before it stores the Go channel of the deliveries, at the receiving of the rest of
-- them, behind the end of the Go channel, and behind its return. With no delivery left it waits
-- where the Go channel stays open.
pub data Phase (W : Type 0) : Type 0 where
  checking connecting dropping ended : Phase W
  opening : AmqpChannel W → Phase W
  storing receiving : List Delivery → (closes : Bool) → Phase W

-- What the goroutines share: `consuming`, `consumeChannels` and the outside.
pub record Shared (W : Type 0) : Type 0 where
  pub consuming : Bool
  pub channels : Channels
  pub outside : W

abbrev pub Thread : Type 0 → Type 0
Thread W = QueueDefinition × Phase W

-- What an action came to, with how many deliveries it received and what was sent for each.
abbrev pub Step : Type 0 → Type 0 → Type 0 → Type 0
Step W Payload A = Run A × ℕ × List (Delivery × List (Action Payload)) × Shared W

pub record System (W Payload : Type 0) : Type 0 where
  pub threads : List (Thread W)
  pub shared : Shared W
  pub crashed : Bool
  pub received : ℕ
  pub actions : List (Delivery × List (Action Payload))

-- What happens next: a goroutine acts, by its place, the signal comes, or something changes
-- outside.
pub data Event (W : Type 0) : Type 0 where
  turn : ℕ → Event W
  signal : Event W
  change : W → Event W

module _ {W Payload : Type 0} where
  -- `ConsumeBlocking` up to the wait for the signal; `order` is the order over the map of queues.
  abbrev pub start : (order : List QueueDefinition) → Channels → W → System W Payload
  start order chans w = record {
    threads = map (λ q. (q, checking)) order;
    shared = record { consuming = true; channels = chans; outside = w };
    crashed = false;
    received = 0;
    actions = [];
  }

  -- Its last lines.
  abbrev pub stop : System W Payload → System W Payload
  stop y = record y { shared = record y.shared { consuming = false } }

  abbrev pub onward : {A B : Type 0} → (A → B) → Step W Payload A → Step W Payload B
  onward f (returned a, n, acts, h) = (returned (f a), n, acts, h)
  onward f (panicked, n, acts, h) = (panicked, n, acts, h)

  abbrev pub next_of_channel : Result (AmqpChannel W) × W → Shared W → Step W Payload (Phase W)
  next_of_channel (err e, w) h = (returned checking, 0, [], record h { outside = w })
  next_of_channel (ok ch, w) h = (returned (opening ch), 0, [], record h { outside = w })

  abbrev pub next_of_deliveries : Result Incoming × W → Shared W → Step W Payload (Phase W)
  next_of_deliveries (err e, w) h = (returned checking, 0, [], record h { outside = w })
  next_of_deliveries (ok (ds, closes), w) h =
      (returned (storing ds closes), 0, [], record h { outside = w })

  abbrev pub next_of_run :
      Delivery
      → List Delivery
      → (closes : Bool) → Run (Unit {0}) × List (Action Payload) × W
      → Shared W
      → Step W Payload (Phase W)
  next_of_run d ds closes (returned _, acts, w) h =
      (returned (receiving ds closes), 1, (d, acts) ∷ [], record h { outside = w })
  next_of_run d ds closes (panicked, acts, w) h =
      (panicked, 1, (d, acts) ∷ [], record h { outside = w })

module _ {W Payload : Type 0} (manager : Manager W) (unmarshal : String → GoType → Result Payload)
    (s : Dispatcher W Payload) where
  -- The next action of the goroutine of a queue.
  unfoldable pub advance : QueueDefinition → Phase W → Shared W → Step W Payload (Phase W)
  advance q checking h = (returned (if h.consuming then connecting else ended), 0, [], h)
  advance q connecting h = next_of_channel (manager.get_channel h.outside) h
  advance q (opening ch) h =
      next_of_deliveries (ch.consume q.name "" false false false false empty h.outside) h
  advance q (storing ds closes) h = (
    returned (receiving ds closes),
    0,
    [],
    record h { channels = Dict.insert q.name (ds, closes) h.channels },
  )
  advance q (receiving [] true) h = (returned dropping, 0, [], h)
  advance q (receiving [] false) h = (returned (receiving [] false), 0, [], h)
  advance q (receiving (d ∷ ds) closes) h =
      next_of_run d ds closes (process_received_message manager unmarshal s q d h.outside) h
  advance q dropping h =
      (returned checking, 0, [], record h { channels = Dict.erase q.name h.channels })
  advance q ended h = (returned ended, 0, [], h)

  -- The same of the goroutine at a place in the list; there may be none.
  unfoldable pub advance_at : ℕ → List (Thread W) → Shared W → Step W Payload (List (Thread W))
  unfolding advance
  advance_at n [] h = (returned [], 0, [], h)
  advance_at zero ((q, p) ∷ ts) h = onward (λ p'. (q, p') ∷ ts) (advance q p h)
  advance_at (suc n) (t ∷ ts) h = onward (λ ts'. t ∷ ts') (advance_at n ts h)

  -- A panic in a goroutine ends the program.
  abbrev pub took : System W Payload → Step W Payload (List (Thread W)) → System W Payload
  took y (returned ts, n, acts, h) = record y {
    threads = ts;
    shared = h;
    received = y.received + n;
    actions = y.actions ++ acts;
  }
  took y (panicked, n, acts, h) = record y {
    shared = h;
    crashed = true;
    received = y.received + n;
    actions = y.actions ++ acts;
  }

  unfoldable pub happen : Event W → System W Payload → System W Payload
  unfolding advance_at
  happen (turn n) y = if y.crashed then y else took y (advance_at n y.threads y.shared)
  happen signal y = stop y
  happen (change w) y = record y { shared = record y.shared { outside = w } }

  -- A schedule: the events of a run, in order.
  unfoldable pub run : List (Event W) → System W Payload → System W Payload
  unfolding happen
  run [] y = y
  run (e ∷ es) y = run es (happen e y)
