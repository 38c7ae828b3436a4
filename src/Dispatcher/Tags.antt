-- ===== src/Dispatcher/Tags.antt =====
-- dispatcher.go and the broker: what the settlements of deliveries do to the AMQP channel that they
-- came on. How a broker keeps delivery tags is documented, and is a parameter here.
pub mod InOrder
pub mod Shared
use bunmq.Base.{
  ℕ, suc, String, Bool, true, false, ◌&&◌, not, ◌≡◌, List, [], ◌∷◌, eqb, leb, if◌then◌else◌,
}
use bunmq.Errors.{Result}
use bunmq.GoType.{GoType}
use bunmq.Queue.{QueueDefinition}
use bunmq.Amqp.Channel.{Delivery}
use bunmq.Dispatcher.{Manager, Dispatcher}
use bunmq.Dispatcher.Metadata.{Run, returned, panicked}
use bunmq.Dispatcher.Process.{
  Action, ack, nack, publish, handle, span_start, span_ok, span_end, record_error,
  process_received_message,
}

-- The tags that a settlement of `tag` is for: up to it, or it alone.
abbrev pub covers : (multiple : Bool) (tag : ℕ) → ℕ → Bool
covers true tag t = leb t tag
covers false tag t = eqb t tag

-- A channel at the broker. The settlement of a tag that is not outstanding is a channel error; a
-- channel that is closed stays closed.
pub record Broker : Type 1 where
  pub Channel : Type 0
  pub is_open : Channel → Bool
  pub outstanding : ℕ → Channel → Bool
  pub settle : (tag : ℕ) (multiple : Bool) → Channel → Channel
  pub closed_stays :
      (tag : ℕ) (multiple : Bool) (c : Channel)
      → is_open c ≡ false
      → is_open (settle tag multiple c) ≡ false
  pub unknown_closes :
      (tag : ℕ) (multiple : Bool) (c : Channel)
      → outstanding tag c ≡ false
      → is_open (settle tag multiple c) ≡ false
  pub known_stays :
      (tag : ℕ) (multiple : Bool) (c : Channel)
      → is_open c ≡ true
      → outstanding tag c ≡ true
      → is_open (settle tag multiple c) ≡ true
  pub settled :
      (tag : ℕ) (multiple : Bool) (t : ℕ) (c : Channel)
      → outstanding tag c ≡ true
      → outstanding t (settle tag multiple c) ≡ (outstanding t c && not (covers multiple tag t))

module _ (broker : Broker) {Payload : Type 0} where
  -- What the actions of one delivery do to its channel.
  abbrev act : ℕ → Action Payload → broker.Channel → broker.Channel
  act tag (ack multiple) c = broker.settle tag multiple c
  act tag (nack multiple requeue) c = broker.settle tag multiple c
  act tag (publish x k m i msg) c = c
  act tag (handle p md) c = c
  act tag span_start c = c
  act tag span_ok c = c
  act tag span_end c = c
  act tag (record_error e) c = c

  abbrev pub replay : ℕ → List (Action Payload) → broker.Channel → broker.Channel
  replay tag [] c = c
  replay tag (a ∷ acts) c = replay tag acts (act tag a c)

module _ (broker : Broker) {W Payload : Type 0} (manager : Manager W)
    (unmarshal : String → GoType → Result Payload) (s : Dispatcher W Payload)
    (q : QueueDefinition) where
  -- The deliveries of one Go channel, in order, with consecutive tags from `tag` on.
  pub replay_all : (tag : ℕ) → List Delivery → W → broker.Channel → broker.Channel
  replay_all tag [] w c = c
  replay_all tag (d ∷ ds) w c =
      let (r, acts, w') = process_received_message manager unmarshal s q d w in
      elim r [
        | returned _ ↦ replay_all (suc tag) ds w' (replay broker tag acts c)
        | panicked ↦ replay broker tag acts c
      ]
