-- ===== src/Dispatcher/Consume.antt =====
-- dispatcher.go: the goroutine `consume` of a queue, and `QoS`. `ConsumeBlocking` sets the flag
-- that the goroutines read, starts one for each queue, and resets the flag at a signal.
pub mod Complete
use bunmq.Base.{ℕ, suc, ◌+◌, String, Bool, true, false, Option, none, some, List, [], ◌∷◌, ◌++◌}
use bunmq.Base.Dict
use bunmq.Base.Dict.{Dict}
use bunmq.Base.Int.{ℤ}
use bunmq.Base.Lists.{length}
use bunmq.Errors.{Error, Result, ok, err}
use bunmq.GoType.{GoType}
use bunmq.Queue.{QueueDefinition}
use bunmq.Amqp.Table.{empty}
use bunmq.Amqp.Channel.{AmqpChannel, Delivery, Incoming}
use bunmq.Dispatcher.{Manager, Dispatcher}
use bunmq.Dispatcher.Metadata.{Run, returned, panicked}
use bunmq.Dispatcher.Process.{Action, process_received_message}

-- `consumeChannels`, by queue.
abbrev pub Channels : Type 0
Channels = Dict Incoming

-- `running` is a run whose list of flags is used up, or that waits at an open Go channel.
pub data Ending : Type 0 where
  running stopped crashed : Ending

pub record Consumed (W Payload : Type 0) : Type 0 where
  pub ending : Ending
  pub received : ℕ
  pub actions : List (Action Payload)
  pub channels : Channels
  pub outside : W

-- How the deliveries of a pass were dealt with, how many were received, and the actions.
abbrev pub Batch : Type 0 → Type 0 → Type 0
Batch W Payload = Run (Unit {0}) × ℕ × List (Action Payload) × W

-- One round of `for received := range delivery`: a panic ends the program, and the deliveries
-- behind it are not received.
abbrev pub behind :
    {W Payload : Type 0}
    → Run (Unit {0}) × List (Action Payload) × W
    → (W → Batch W Payload)
    → Batch W Payload
behind (panicked, acts, w) rest = (panicked, 1, acts, w)
behind (returned _, acts, w) rest = let (r, n, acts', w') = rest w in (r, suc n, acts ++ acts', w')

module _ {W Payload : Type 0} (manager : Manager W) (unmarshal : String → GoType → Result Payload)
    (s : Dispatcher W Payload) (q : QueueDefinition) where
  unfoldable pub process_all : List Delivery → W → Batch W Payload
  process_all [] w = (returned tt, 0, [], w)
  process_all (d ∷ ds) w =
      behind (process_received_message manager unmarshal s q d w) (process_all ds)

  abbrev open_consumer : Result (AmqpChannel W) × W → Result Incoming × W
  open_consumer (err e, w) = (err e, w)
  open_consumer (ok ch, w) = ch.consume q.name "" false false false false empty w

  -- What comes behind the deliveries of one pass, by whether their Go channel is closed then.
  abbrev after :
      Channels
      → (Channels → W → Consumed W Payload)
      → (closes : Bool) → Batch W Payload
      → Consumed W Payload
  after chans rest closes (panicked, n, acts, w) = record {
    ending = crashed;
    received = n;
    actions = acts;
    channels = chans;
    outside = w;
  }
  after chans rest false (returned _, n, acts, w) = record {
    ending = running;
    received = n;
    actions = acts;
    channels = chans;
    outside = w;
  }
  after chans rest true (returned _, n, acts, w) =
      let more = rest (Dict.erase q.name chans) w in
      record more { received = n + more.received; actions = acts ++ more.actions }

  abbrev pass :
      Channels → (Channels → W → Consumed W Payload) → Result Incoming × W → Consumed W Payload
  pass chans rest (err e, w) = rest chans w
  pass chans rest (ok (ds, closes), w) =
      after (Dict.insert q.name (ds, closes) chans) rest closes (process_all ds w)

  -- The loop. `flags` lists what it reads in `d.consuming` at the head of each pass; the pauses
  -- between two passes are left out.
  unfoldable pub consume : (flags : List Bool) → Channels → W → Consumed W Payload
  unfolding process_all
  consume [] chans w = record {
    ending = running;
    received = 0;
    actions = [];
    channels = chans;
    outside = w;
  }
  consume (false ∷ flags) chans w = record {
    ending = stopped;
    received = 0;
    actions = [];
    channels = chans;
    outside = w;
  }
  consume (true ∷ flags) chans w =
      pass chans (consume flags) (open_consumer (manager.get_channel w))

module _ {W : Type 0} (manager : Manager W) where
  abbrev set_on : ℤ → ℤ → Bool → Result (AmqpChannel W) × W → Option Error × W
  set_on count size global (err e, w) = (some e, w)
  set_on count size global (ok ch, w) = ch.qos count size global w

  unfoldable pub qos : ℤ → ℤ → Bool → W → Option Error × W
  qos count size global w = set_on count size global (manager.get_channel w)
