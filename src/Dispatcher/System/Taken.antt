-- ===== src/Dispatcher/System/Taken.antt =====
-- dispatcher.go, `for received := range delivery`: which deliveries the goroutines take from their
-- Go channels in a run.
use mathlib.Core.List.{append-nil, append_assoc, map-append}
use bunmq.Base.{
  ℕ, zero, suc, String, Bool, true, false, ◌≡◌, refl, sym, ap, ◌∙◌, none, some, List, [], ◌∷◌, ◌++◌,
  map, if◌then◌else◌,
}
use bunmq.Errors.{Result, ok, err}
use bunmq.GoType.{GoType}
use bunmq.Queue.{QueueDefinition}
use bunmq.Amqp.Channel.{AmqpChannel, Delivery, Incoming}
use bunmq.Dispatcher.{Manager, Dispatcher}
use bunmq.Dispatcher.Metadata.{Run, returned, panicked}
use bunmq.Dispatcher.Process.{Action, process_received_message}
use bunmq.Dispatcher.System.Places.{thread_at}
use bunmq.Dispatcher.System.{
  Phase, checking, connecting, dropping, ended, opening, storing, receiving, Shared, Thread, Step,
  System, Event, turn, signal, change, onward, next_of_run, next_of_channel, next_of_deliveries,
  advance, advance_at, happen, took, run,
}

module _ {W : Type 0} where
  -- The delivery that a goroutine takes next: the first of those in its Go channel, if it stands
  -- at the head of the `range` over it.
  abbrev next_in : Phase W → List Delivery
  next_in (receiving (d ∷ ds) closes) = d ∷ []
  next_in _ = []

  abbrev next_at : ℕ → List (Thread W) → List Delivery
  next_at n ts = elim (thread_at n ts) [ none ↦ [] | some t ↦ next_in t.1 ]

module _ {Payload : Type 0} where
  -- The deliveries to which something has been sent.
  abbrev pub deliveries : List (Delivery × List (Action Payload)) → List Delivery
  deliveries gs = map (λ g. g.0) gs

module _ {W Payload : Type 0} where
  -- The deliveries of a step.
  abbrev StepTakes : {A : Type 0} → List Delivery → Step W Payload A → Type 0
  StepTakes ds (r, n, gs, h) = deliveries gs ≡ ds

  onward-StepTakes :
      {A B : Type 0} (f : A → B) (ds : List Delivery) (r : Step W Payload A)
      → StepTakes ds r
      → StepTakes ds (onward f r)
  onward-StepTakes f ds (returned a, n, gs, h) t = t
  onward-StepTakes f ds (panicked, n, gs, h) t = t

  next_of_run-StepTakes :
      (d : Delivery) (ds : List Delivery) (closes : Bool)
      (r : Run (Unit {0}) × List (Action Payload) × W) (h : Shared W)
      → StepTakes (d ∷ []) (next_of_run d ds closes r h)
  next_of_run-StepTakes d ds closes (returned _, acts, w) h = refl
  next_of_run-StepTakes d ds closes (panicked, acts, w) h = refl

module _ {W : Type 0} (Payload : Type 0) where
  next_of_channel-StepTakes :
      (r : Result (AmqpChannel W) × W) (h : Shared W)
      → StepTakes [] (next_of_channel {Payload = Payload} r h)
  next_of_channel-StepTakes (err e, w) h = refl
  next_of_channel-StepTakes (ok ch, w) h = refl

  next_of_deliveries-StepTakes :
      (r : Result Incoming × W) (h : Shared W)
      → StepTakes [] (next_of_deliveries {Payload = Payload} r h)
  next_of_deliveries-StepTakes (err e, w) h = refl
  next_of_deliveries-StepTakes (ok (ds, closes), w) h = refl

module _ {W Payload : Type 0} (manager : Manager W) (unmarshal : String → GoType → Result Payload)
    (s : Dispatcher W Payload) where
  advance-StepTakes :
      (q : QueueDefinition) (p : Phase W) (h : Shared W)
      → StepTakes (next_in p) (advance manager unmarshal s q p h)
  unfolding advance
  advance-StepTakes q checking h = refl
  advance-StepTakes q connecting h =
      next_of_channel-StepTakes Payload (manager.get_channel h.outside) h
  advance-StepTakes q (opening ch) h = next_of_deliveries-StepTakes Payload _ h
  advance-StepTakes q (storing ds closes) h = refl
  advance-StepTakes q (receiving [] true) h = refl
  advance-StepTakes q (receiving [] false) h = refl
  advance-StepTakes q (receiving (d ∷ ds) closes) h =
      next_of_run-StepTakes d ds closes (process_received_message manager unmarshal s q d h.outside)
        h
  advance-StepTakes q dropping h = refl
  advance-StepTakes q ended h = refl

  advance_at-StepTakes :
      (n : ℕ) (ts : List (Thread W)) (h : Shared W)
      → StepTakes (next_at n ts) (advance_at manager unmarshal s n ts h)
  unfolding advance_at
  advance_at-StepTakes n [] h = refl
  advance_at-StepTakes zero ((q, p) ∷ ts) h =
      onward-StepTakes _ (next_in p) (advance manager unmarshal s q p h) (advance-StepTakes q p h)
  advance_at-StepTakes (suc n) (t ∷ ts) h =
      onward-StepTakes _ (next_at n ts) (advance_at manager unmarshal s n ts h)
        (advance_at-StepTakes n ts h)

  -- What an event takes: a turn takes the next delivery of its goroutine, unless the program has
  -- crashed.
  abbrev taken_by : Event W → System W Payload → List Delivery
  taken_by (turn n) y = if y.crashed then [] else next_at n y.threads
  taken_by signal y = []
  taken_by (change w) y = []

  -- What the events of a schedule take, in order.
  pub taken : List (Event W) → System W Payload → List Delivery
  taken [] y = []
  taken (e ∷ es) y = taken_by e y ++ taken es (happen manager unmarshal s e y)

  took-deliveries :
      (y : System W Payload) (ds : List Delivery) (r : Step W Payload (List (Thread W)))
      → StepTakes ds r
      → deliveries (took manager unmarshal s y r).actions ≡ deliveries y.actions ++ ds
  took-deliveries y ds (returned ts, n, gs, h) t =
      map-append (λ g. g.0) y.actions gs ∙ ap (λ l. deliveries y.actions ++ l) t
  took-deliveries y ds (panicked, n, gs, h) t =
      map-append (λ g. g.0) y.actions gs ∙ ap (λ l. deliveries y.actions ++ l) t

  happen-deliveries :
      (e : Event W) (y : System W Payload)
      → deliveries (happen manager unmarshal s e y).actions ≡ deliveries y.actions ++ taken_by e y
  unfolding happen
  happen-deliveries (turn n) y = go y.crashed
    where
      go :
          (b : Bool)
          → deliveries
              (if b
                then y
                else took manager unmarshal s y
                    (advance_at manager unmarshal s n y.threads y.shared)).actions
            ≡ deliveries y.actions ++ (if b then [] else next_at n y.threads)
      go true = sym (append-nil (deliveries y.actions))
      go false =
          took-deliveries y (next_at n y.threads) _ (advance_at-StepTakes n y.threads y.shared)
  happen-deliveries signal y = sym (append-nil (deliveries y.actions))
  happen-deliveries (change w) y = sym (append-nil (deliveries y.actions))

  -- The deliveries to which something was sent are those that were taken, in their order.
  pub run-deliveries :
      (es : List (Event W)) (y : System W Payload)
      → deliveries (run manager unmarshal s es y).actions ≡ deliveries y.actions ++ taken es y
  unfolding run taken
  run-deliveries [] y = sym (append-nil (deliveries y.actions))
  run-deliveries (e ∷ es) y =
      run-deliveries es (happen manager unmarshal s e y)
      ∙ ap (λ l. l ++ taken es (happen manager unmarshal s e y)) (happen-deliveries e y)
      ∙ append_assoc (deliveries y.actions) (taken_by e y)
          (taken es (happen manager unmarshal s e y))
