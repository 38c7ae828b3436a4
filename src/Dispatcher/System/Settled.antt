-- ===== src/Dispatcher/System/Settled.antt =====
-- dispatcher.go, `ConsumeBlocking`: every delivery that any goroutine receives is settled.
use bunmq.Base.{
  ℕ, zero, suc, ◌≤◌, Bool, true, false, ◌≡◌, refl, sym, ap, List, [], ◌∷◌, ◌++◌, arith, if_lem,
  subst, String,
}
use bunmq.Base.Lists.{length, length-append, All, All-append, count_by}
use bunmq.Errors.{Result, ok, err}
use bunmq.GoType.{GoType}
use bunmq.Queue.{QueueDefinition}
use bunmq.Amqp.Channel.{AmqpChannel, Delivery, Incoming}
use bunmq.Dispatcher.{Manager, Dispatcher}
use bunmq.Dispatcher.Metadata.{Run, returned, panicked}
use bunmq.Dispatcher.Process.{Action, publish_to_dlq, process_received_message}
use bunmq.Dispatcher.Process.Settlement.{settles}
use bunmq.Dispatcher.Consume.{Channels}
use bunmq.Dispatcher.System.Taken.{deliveries, taken, run-deliveries}
use bunmq.Dispatcher.System.{
  Phase, checking, connecting, dropping, ended, opening, storing, receiving, Shared, Thread, Step,
  System, Event, turn, signal, change, start, onward, next_of_run, next_of_channel,
  next_of_deliveries, advance, advance_at, happen, took, run,
}

module _ {Payload : Type 0} where
  -- How often a delivery is settled by what was sent for it.
  abbrev pub times : Delivery × List (Action Payload) → ℕ
  times (d, acts) = count_by settles acts

  abbrev pub IsSettled : Delivery × List (Action Payload) → Type 0
  IsSettled g = (1 ≤ times g) × (times g ≤ 2)

  -- What was sent for each of the deliveries received so far: every one is settled once or twice;
  -- where the program has crashed, all but the last one, which is not settled.
  abbrev pub AreSettled : (crashed : Bool) → List (Delivery × List (Action Payload)) → Type 0
  AreSettled false gs = All IsSettled gs
  AreSettled true gs =
      (before : List (Delivery × List (Action Payload))) × (last : Delivery × List (Action Payload))
      × (gs ≡ before ++ last ∷ [])
      × All IsSettled before
      × (times last ≡ 0)

module _ {W Payload : Type 0} where
  abbrev StepSettles : {A : Type 0} → Step W Payload A → Type 0
  StepSettles (returned _, n, gs, h) = (length gs ≡ n) × All IsSettled gs
  StepSettles (panicked, n, gs, h) =
      (length gs ≡ n)
      × (last : Delivery × List (Action Payload)) × (gs ≡ last ∷ [])
      × (times last ≡ 0)

  pub record SystemSettles (y : System W Payload) : Type 0 where
    pub each : length y.actions ≡ y.received
    pub settled : AreSettled y.crashed y.actions

  onward-StepSettles :
      {A B : Type 0} (f : A → B) (r : Step W Payload A) → StepSettles r → StepSettles (onward f r)
  onward-StepSettles f (returned a, n, gs, h) t = t
  onward-StepSettles f (panicked, n, gs, h) t = t

  -- What the processing of one delivery has come to.
  abbrev RunSettles : Run (Unit {0}) × List (Action Payload) × W → Type 0
  RunSettles (returned _, acts, w) = (1 ≤ count_by settles acts) × (count_by settles acts ≤ 2)
  RunSettles (panicked, acts, w) = count_by settles acts ≡ 0

  next_of_run-StepSettles :
      (d : Delivery) (ds : List Delivery) (closes : Bool)
      (r : Run (Unit {0}) × List (Action Payload) × W) (h : Shared W)
      → RunSettles r
      → StepSettles (next_of_run d ds closes r h)
  next_of_run-StepSettles d ds closes (returned _, acts, w) h t = (refl, (t, tt))
  next_of_run-StepSettles d ds closes (panicked, acts, w) h t = (refl, (d, acts), refl, t)

module _ {W : Type 0} (Payload : Type 0) where
  next_of_channel-StepSettles :
      (r : Result (AmqpChannel W) × W) (h : Shared W)
      → StepSettles (next_of_channel {Payload = Payload} r h)
  next_of_channel-StepSettles (err e, w) h = (refl, tt)
  next_of_channel-StepSettles (ok ch, w) h = (refl, tt)

  next_of_deliveries-StepSettles :
      (r : Result Incoming × W) (h : Shared W)
      → StepSettles (next_of_deliveries {Payload = Payload} r h)
  next_of_deliveries-StepSettles (err e, w) h = (refl, tt)
  next_of_deliveries-StepSettles (ok (ds, closes), w) h = (refl, tt)

module _ {W Payload : Type 0} (manager : Manager W) (unmarshal : String → GoType → Result Payload)
    (s : Dispatcher W Payload) where
  process-RunSettles :
      (q : QueueDefinition) (d : Delivery) (w : W)
      → RunSettles (process_received_message manager unmarshal s q d w)
  unfolding process_received_message publish_to_dlq
  process-RunSettles q d w = ground arith

  advance-StepSettles :
      (q : QueueDefinition) (p : Phase W) (h : Shared W)
      → StepSettles (advance manager unmarshal s q p h)
  unfolding advance
  advance-StepSettles q checking h = (refl, tt)
  advance-StepSettles q connecting h =
      next_of_channel-StepSettles Payload (manager.get_channel h.outside) h
  advance-StepSettles q (opening ch) h = next_of_deliveries-StepSettles Payload _ h
  advance-StepSettles q (storing ds closes) h = (refl, tt)
  advance-StepSettles q (receiving [] true) h = (refl, tt)
  advance-StepSettles q (receiving [] false) h = (refl, tt)
  advance-StepSettles q (receiving (d ∷ ds) closes) h =
      next_of_run-StepSettles d ds closes
        (process_received_message manager unmarshal s q d h.outside) h
        (process-RunSettles q d h.outside)
  advance-StepSettles q dropping h = (refl, tt)
  advance-StepSettles q ended h = (refl, tt)

  advance_at-StepSettles :
      (n : ℕ) (ts : List (Thread W)) (h : Shared W)
      → StepSettles (advance_at manager unmarshal s n ts h)
  unfolding advance_at
  advance_at-StepSettles n [] h = (refl, tt)
  advance_at-StepSettles zero ((q, p) ∷ ts) h =
      onward-StepSettles _ (advance manager unmarshal s q p h) (advance-StepSettles q p h)
  advance_at-StepSettles (suc n) (t ∷ ts) h =
      onward-StepSettles _ (advance_at manager unmarshal s n ts h) (advance_at-StepSettles n ts h)

  took-SystemSettles :
      (y : System W Payload) (r : Step W Payload (List (Thread W)))
      → y.crashed ≡ false
      → SystemSettles y
      → StepSettles r
      → SystemSettles (took manager unmarshal s y r)
  took-SystemSettles y (returned ts, n, gs, h) c v t = record {
    each = omega (arith, length-append y.actions gs, v.each, t.0);
    settled =
        subst (λ b. AreSettled b (y.actions ++ gs)) (sym c)
          (All-append IsSettled y.actions gs (subst (λ b. AreSettled b y.actions) c v.settled) t.1);
  }
  took-SystemSettles y (panicked, n, gs, h) c v (e, last, only_one, zero_times) = record {
    each = omega (arith, length-append y.actions gs, v.each, e);
    settled = (
      y.actions,
      last,
      ap (λ l. y.actions ++ l) only_one,
      subst (λ b. AreSettled b y.actions) c v.settled,
      zero_times,
    );
  }

  happen-SystemSettles :
      (e : Event W) (y : System W Payload)
      → SystemSettles y
      → SystemSettles (happen manager unmarshal s e y)
  unfolding happen
  happen-SystemSettles (turn n) y v =
      if_lem SystemSettles y.crashed (λ c. v)
        (λ c. took-SystemSettles y _ c v (advance_at-StepSettles n y.threads y.shared))
  happen-SystemSettles signal y v = record { each = v.each; settled = v.settled }
  happen-SystemSettles (change w) y v = record { each = v.each; settled = v.settled }

  run-SystemSettles :
      (es : List (Event W)) (y : System W Payload)
      → SystemSettles y
      → SystemSettles (run manager unmarshal s es y)
  unfolding run
  run-SystemSettles [] y v = v
  run-SystemSettles (e ∷ es) y v =
      run-SystemSettles es (happen manager unmarshal s e y) (happen-SystemSettles e y v)

  -- However the goroutines of all queues interleave, with any events and any changes outside: what
  -- was sent stands by deliveries, and these are, one for one and in their order, the ones that the
  -- goroutines took at their turns, each the first that was left in its Go channel. What was sent
  -- for a delivery settles it once or twice; where the program has panicked, it does for each but
  -- the last one, which is not settled.
  pub run-settles :
      (order : List QueueDefinition) (chans : Channels) (w : W) (es : List (Event W))
      → let y = run manager unmarshal s es (start order chans w) in
        (deliveries y.actions ≡ taken manager unmarshal s es (start order chans w))
        × SystemSettles y
  run-settles order chans w es = (
    run-deliveries manager unmarshal s es (start order chans w),
    run-SystemSettles es (start order chans w) (record { each = refl; settled = tt }),
  )
