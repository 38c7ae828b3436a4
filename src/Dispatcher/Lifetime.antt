-- ===== src/Dispatcher/Lifetime.antt =====
-- dispatcher.go and the broker: the deliveries of one message on a queue with retry. What the
-- broker does with a message that is rejected is documented, and is a parameter here: the sequence
-- of the deliveries of the message, with what x-death tells of each.
pub mod Bounded
use bunmq.Base.{
  ℕ, zero, suc, String, Bool, true, false, ◌≡◌, List, [], ◌∷◌, ◌++◌, ltb, if◌then◌else◌,
}
use bunmq.Base.Int.{pos}
use bunmq.Base.Lists.{count_by}
use bunmq.Errors.{Result, ok}
use bunmq.GoType.{GoType}
use bunmq.Queue.{QueueDefinition}
use bunmq.Amqp.Channel.{Delivery}
use bunmq.Dispatcher.{DeliveryMetadata, Manager, Dispatcher}
use bunmq.Dispatcher.Metadata.{Run, returned, panicked, extract_metadata}
use bunmq.Dispatcher.Process.{Action, ack, nack, process_received_message}

-- The deliveries of one message, the first at 0: the count of its latest death is the number of
-- times that it was rejected and came back, and the rest is the same each time.
pub record IsHistory (d : ℕ → Delivery) (md : ℕ → DeliveryMetadata) : Type 0 where
  pub read : (n : ℕ) → extract_metadata (d n) ≡ returned (ok (md n))
  pub counted : (n : ℕ) → (md n).x_count ≡ pos n
  pub same_typ : (n : ℕ) → (md n).typ ≡ (md 0).typ
  pub same_exchange : (n : ℕ) → (md n).origin_exchange ≡ (md 0).origin_exchange
  pub same_key : (n : ℕ) → (md n).routing_key ≡ (md 0).routing_key
  pub same_body : (n : ℕ) → (d n).body ≡ (d 0).body

module _ {Payload : Type 0} where
  abbrev pub rejects : Action Payload → Bool
  rejects (nack _ _) = true
  rejects _ = false

  abbrev pub acknowledges : Action Payload → Bool
  acknowledges (ack _) = true
  acknowledges _ = false

module _ {W Payload : Type 0} (manager : Manager W) (unmarshal : String → GoType → Result Payload)
    (s : Dispatcher W Payload) (q : QueueDefinition) (d : ℕ → Delivery) where
  -- The `n`-th delivery is processed, and the next one where the message was rejected, for so many
  -- rounds at most.
  unfoldable pub lifetime : (rounds n : ℕ) → W → Run (Unit {0}) × List (Action Payload) × W
  lifetime zero n w = (returned tt, [], w)
  lifetime (suc k) n w =
      let (r, acts, w') = process_received_message manager unmarshal s q (d n) w in
      let (r', acts', w'') = lifetime k (suc n) w' in
      if ltb 0 (count_by rejects acts) then (r', acts ++ acts', w'') else (r, acts, w')
