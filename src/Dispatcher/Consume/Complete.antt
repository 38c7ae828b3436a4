-- ===== src/Dispatcher/Consume/Complete.antt =====
-- dispatcher.go, `consume`: every delivery that is received is settled.
use bunmq.Base.{ℕ, suc, ◌+◌, ◌*◌, ◌≤◌, String, Bool, true, false, List, [], ◌∷◌, ◌++◌, arith}
use bunmq.Base.Dict
use bunmq.Base.Dict.{Dict, lookup-insert, lookup-erase}
use bunmq.Base.Lists.{count_by, count_by-append}
use bunmq.Errors.{Result, ok, err}
use bunmq.GoType.{GoType}
use bunmq.Queue.{QueueDefinition}
use bunmq.Amqp.Channel.{Delivery, Incoming}
use bunmq.Dispatcher.{Manager, Dispatcher}
use bunmq.Dispatcher.Metadata.{Run, returned, panicked}
use bunmq.Dispatcher.Process.{Action, publish_to_dlq, process_received_message}
use bunmq.Dispatcher.Process.Settlement.{settles}
use bunmq.Dispatcher.Consume.{
  Channels, Ending, crashed, Consumed, Batch, behind, process_all, after, pass, open_consumer,
  consume,
}

-- How the number of settlements goes with the number of deliveries received: each is settled once
-- or twice, but the one at which the program panics may not be.
abbrev pub Tally : Run (Unit {0}) → ℕ → ℕ → Type 0
Tally (returned _) n k = (n ≤ k) × (k ≤ 2 * n)
Tally panicked n k = (n ≤ k + 1) × (k ≤ 2 * n)

abbrev pub EndingTally : Ending → ℕ → ℕ → Type 0
EndingTally crashed n k = (n ≤ k + 1) × (k ≤ 2 * n)
EndingTally _ n k = (n ≤ k) × (k ≤ 2 * n)

module _ {Payload : Type 0} where
  batch_cons :
      (acts : List (Action Payload)) (r : Run (Unit {0})) (n : ℕ) (acts' : List (Action Payload))
      → (1 ≤ count_by settles acts) × (count_by settles acts ≤ 2 * 1)
      → Tally r n (count_by settles acts')
      → Tally r (suc n) (count_by settles (acts ++ acts'))
  batch_cons acts (returned _) n acts' h k = omega (arith, h, k, count_by-append settles acts acts')
  batch_cons acts panicked n acts' h k = omega (arith, h, k, count_by-append settles acts acts')

  after_joined :
      (e : Ending) (n m : ℕ) (xs ys : List (Action Payload))
      → (n ≤ count_by settles xs) × (count_by settles xs ≤ 2 * n)
      → EndingTally e m (count_by settles ys)
      → EndingTally e (n + m) (count_by settles (xs ++ ys))
  after_joined crashed n m xs ys h k = omega (arith, h, k, count_by-append settles xs ys)
  after_joined _ n m xs ys h k = omega (arith, h, k, count_by-append settles xs ys)

module _ {W Payload : Type 0} where
  abbrev BatchTally : Batch W Payload → Type 0
  BatchTally (r, n, acts, w) = Tally r n (count_by settles acts)

  behind-Tally :
      (one : Run (Unit {0}) × List (Action Payload) × W) (rest : W → Batch W Payload)
      → Tally one.0 1 (count_by settles one.1)
      → ((w : W) → BatchTally (rest w))
      → BatchTally (behind one rest)
  behind-Tally (panicked, acts, w) rest h k = h
  behind-Tally (returned _, acts, w) rest h k =
      batch_cons acts (rest w).0 (rest w).1 (rest w).2 h (k w)

  -- What a whole run came to.
  abbrev pub ConsumedTally : Consumed W Payload → Type 0
  ConsumedTally c = EndingTally c.ending c.received (count_by settles c.actions)

module _ {W Payload : Type 0} (manager : Manager W) (unmarshal : String → GoType → Result Payload)
    (s : Dispatcher W Payload) (q : QueueDefinition) where
  pub process-Tally :
      (d : Delivery) (w : W)
      → let (r, acts, w') = process_received_message manager unmarshal s q d w in
        Tally r 1 (count_by settles acts)
  unfolding process_received_message publish_to_dlq
  process-Tally d w = ground arith

  process_all-Tally :
      (ds : List Delivery) (w : W) → BatchTally (process_all manager unmarshal s q ds w)
  unfolding process_all
  process_all-Tally [] w = omega arith
  process_all-Tally (d ∷ ds) w =
      behind-Tally (process_received_message manager unmarshal s q d w)
        (process_all manager unmarshal s q ds) (process-Tally d w) (process_all-Tally ds)

  after-Tally :
      (chans : Channels) (rest : Channels → W → Consumed W Payload) (closes : Bool)
      (b : Batch W Payload)
      → BatchTally b
      → ((c : Channels) (w : W) → ConsumedTally (rest c w))
      → ConsumedTally (after manager unmarshal s q chans rest closes b)
  after-Tally chans rest closes (panicked, n, acts, w) h k = h
  after-Tally chans rest false (returned _, n, acts, w) h k = h
  after-Tally chans rest true (returned _, n, acts, w) h k =
      after_joined (rest (Dict.erase q.name chans) w).ending n _ acts _ h
        (k (Dict.erase q.name chans) w)

  pass-Tally :
      (chans : Channels) (rest : Channels → W → Consumed W Payload) (r : Result Incoming × W)
      → ((c : Channels) (w : W) → ConsumedTally (rest c w))
      → ConsumedTally (pass manager unmarshal s q chans rest r)
  pass-Tally chans rest (err e, w) k = k chans w
  pass-Tally chans rest (ok (ds, closes), w) k =
      after-Tally (Dict.insert q.name (ds, closes) chans) rest closes
        (process_all manager unmarshal s q ds w) (process_all-Tally ds w) k

  -- However often the goroutine of a queue has to connect anew, and whatever the handlers, the
  -- manager and the broker answer, every delivery that it receives is settled once or twice; where
  -- the program panics, that holds of every delivery but the last.
  pub consume-settles :
      (flags : List Bool) (chans : Channels) (w : W)
      → let c = consume manager unmarshal s q flags chans w in
        EndingTally c.ending c.received (count_by settles c.actions)
  unfolding consume
  consume-settles [] chans w = omega arith
  consume-settles (false ∷ flags) chans w = omega arith
  consume-settles (true ∷ flags) chans w =
      pass-Tally chans (consume manager unmarshal s q flags)
        (open_consumer manager unmarshal s q (manager.get_channel w)) (consume-settles flags)
