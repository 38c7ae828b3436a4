-- ===== src/Dispatcher/System/Stored/Kept.antt =====
-- dispatcher.go, `ConsumeBlocking`: that every event keeps the shared fields in order.
use bunmq.Base.{
  true, false, ℕ, zero, suc, String, false, ◌≡◌, ◌≢◌, refl, sym, ap, subst, ◌∙◌, ◌⊎◌, inl, List, [],
  ◌∷◌, map, arith, if_lem, is_some, eq_iff,
}
use bunmq.Base.Dict.{lookup-insert, lookup-erase}
use bunmq.Base.Lists.{All}
use bunmq.Errors.{Result, ok, err}
use bunmq.GoType.{GoType}
use bunmq.Queue.{QueueDefinition}
use bunmq.Amqp.Channel.{AmqpChannel, Incoming}
use bunmq.Dispatcher.{Manager, Dispatcher}
use bunmq.Dispatcher.Metadata.{returned, panicked}
use bunmq.Dispatcher.Process.{process_received_message}
use bunmq.Dispatcher.System.{
  Phase, checking, connecting, dropping, ended, opening, storing, receiving, Shared, Thread, Step,
  System, Event, turn, signal, change, start, onward, next_of_channel, next_of_deliveries, advance,
  advance_at, happen, took, run,
}
use bunmq.Dispatcher.System.Stored.{
  Apart, names, is_ended, IsKept, others-IsKept, same-IsKept, stopped-IsKept, started-IsKept,
  started-names, StepKeeps, PlaceKeeps, IsOrderly, next_of_run-StepKeeps,
}

module _ {W : Type 0} (Payload : Type 0) where
  next_of_channel-StepKeeps :
      (q : QueueDefinition) (r : Result (AmqpChannel W) × W) (h : Shared W)
      → IsKept h (q, connecting)
      → StepKeeps {Payload = Payload} q h (next_of_channel r h)
  next_of_channel-StepKeeps q (err e, w) h v =
      (record { stored = v.stored; flagged = inl refl }, ((λ j n. refl), refl))
  next_of_channel-StepKeeps q (ok ch, w) h v =
      (record { stored = v.stored; flagged = inl refl }, ((λ j n. refl), refl))

  next_of_deliveries-StepKeeps :
      (q : QueueDefinition) (ch : AmqpChannel W) (r : Result Incoming × W) (h : Shared W)
      → IsKept h (q, opening ch)
      → StepKeeps {Payload = Payload} q h (next_of_deliveries r h)
  next_of_deliveries-StepKeeps q ch (err e, w) h v =
      (record { stored = v.stored; flagged = inl refl }, ((λ j n. refl), refl))
  next_of_deliveries-StepKeeps q ch (ok (ds, closes), w) h v =
      (record { stored = v.stored; flagged = inl refl }, ((λ j n. refl), refl))

module _ {W Payload : Type 0} (manager : Manager W) (unmarshal : String → GoType → Result Payload)
    (s : Dispatcher W Payload) where
  advance-StepKeeps :
      (q : QueueDefinition) (p : Phase W) (h : Shared W)
      → IsKept h (q, p)
      → StepKeeps q h (advance manager unmarshal s q p h)
  unfolding advance
  advance-StepKeeps q checking h v =
      (record { stored = ground arith; flagged = ground arith }, ((λ j n. refl), refl))
  advance-StepKeeps q connecting h v = next_of_channel-StepKeeps Payload q _ h v
  advance-StepKeeps q (opening ch) h v = next_of_deliveries-StepKeeps Payload q ch _ h v
  advance-StepKeeps q (storing ds closes) h v = (
    record {
      stored =
          ground (arith, lookup-insert q.name q.name (ds, closes) h.channels, eq_iff q.name q.name);
      flagged = inl refl;
    },
    (
      (λ j n. ground (arith, lookup-insert q.name j (ds, closes) h.channels, eq_iff q.name j)),
      refl,
    ),
  )
  advance-StepKeeps q (receiving [] true) h v =
      (record { stored = v.stored; flagged = inl refl }, ((λ j n. refl), refl))
  advance-StepKeeps q (receiving [] false) h v =
      (record { stored = v.stored; flagged = inl refl }, ((λ j n. refl), refl))
  advance-StepKeeps q (receiving (d ∷ ds) closes) h v =
      next_of_run-StepKeeps q d ds closes
        (process_received_message manager unmarshal s q d h.outside) h v
  advance-StepKeeps q dropping h v = (
    record {
      stored = ground (arith, lookup-erase q.name q.name h.channels, eq_iff q.name q.name);
      flagged = inl refl;
    },
    ((λ j n. ground (arith, lookup-erase q.name j h.channels, eq_iff q.name j)), refl),
  )
  advance-StepKeeps q ended h v = (v, ((λ j n. refl), refl))

  at_head-PlaceKeeps :
      (q : QueueDefinition) (p : Phase W) (ts : List (Thread W)) (h : Shared W)
      (r : Step W Payload (Phase W))
      → All (λ j. j ≢ q.name) (names ts)
      → All (IsKept h) ts
      → StepKeeps q h r
      → PlaceKeeps ((q, p) ∷ ts) h (onward (λ p'. (q, p') ∷ ts) r)
  at_head-PlaceKeeps q p ts h (returned p', n, acts, h') a v k = (
    (k.0, others-IsKept q.name h h' ts k.1 a v),
    refl,
    (λ j o. k.1.0 j (λ e. o.0 (sym e))),
    k.1.1,
  )
  at_head-PlaceKeeps q p ts h (panicked, n, acts, h') a v k = k

  behind-PlaceKeeps :
      (t : Thread W) (ts : List (Thread W)) (h : Shared W) (r : Step W Payload (List (Thread W)))
      → All (λ j. j ≢ t.0.name) (names ts)
      → IsKept h t
      → PlaceKeeps ts h r
      → PlaceKeeps (t ∷ ts) h (onward (λ ts'. t ∷ ts') r)
  behind-PlaceKeeps t ts h (returned ts', n, acts, h') a v (kept, same, others, flag) = (
    (
      record {
        stored = ap is_some (others t.0.name a) ∙ v.stored;
        flagged = subst (λ b. (is_ended t.1 ≡ false) ⊎ (b ≡ false)) (sym flag) v.flagged;
      },
      kept,
    ),
    ap (λ l. t.0.name ∷ l) same,
    (λ j o. others j o.1),
    flag,
  )
  behind-PlaceKeeps t ts h (panicked, n, acts, h') a v k = k

  advance_at-PlaceKeeps :
      (n : ℕ) (ts : List (Thread W)) (h : Shared W)
      → Apart (names ts)
      → All (IsKept h) ts
      → PlaceKeeps ts h (advance_at manager unmarshal s n ts h)
  unfolding advance_at
  advance_at-PlaceKeeps n [] h a v = (tt, refl, (λ j o. refl), refl)
  advance_at-PlaceKeeps zero ((q, p) ∷ ts) h a v =
      at_head-PlaceKeeps q p ts h (advance manager unmarshal s q p h) a.0 v.1
        (advance-StepKeeps q p h v.0)
  advance_at-PlaceKeeps (suc n) (t ∷ ts) h a v =
      behind-PlaceKeeps t ts h (advance_at manager unmarshal s n ts h) a.0 v.0
        (advance_at-PlaceKeeps n ts h a.1 v.1)

  took-IsOrderly :
      (y : System W Payload) (r : Step W Payload (List (Thread W)))
      → IsOrderly y
      → PlaceKeeps y.threads y.shared r
      → IsOrderly (took manager unmarshal s y r)
  took-IsOrderly y (returned ts, n, acts, h) v k = record {
    apart = subst Apart (sym k.1) v.apart;
    kept = k.0;
  }
  took-IsOrderly y (panicked, n, acts, h) v k = record {
    apart = v.apart;
    kept = same-IsKept y.shared h y.threads k v.kept;
  }

  happen-IsOrderly :
      (e : Event W) (y : System W Payload)
      → IsOrderly y
      → IsOrderly (happen manager unmarshal s e y)
  unfolding happen
  happen-IsOrderly (turn n) y v =
      if_lem IsOrderly y.crashed (λ c. v)
        (λ c. took-IsOrderly y _ v (advance_at-PlaceKeeps n y.threads y.shared v.apart v.kept))
  happen-IsOrderly signal y v = record {
    apart = v.apart;
    kept = stopped-IsKept y.shared y.threads v.kept;
  }
  happen-IsOrderly (change w) y v = record {
    apart = v.apart;
    kept = same-IsKept y.shared _ y.threads (refl, refl) v.kept;
  }

  run_on-IsOrderly :
      (es : List (Event W)) (y : System W Payload)
      → IsOrderly y
      → IsOrderly (run manager unmarshal s es y)
  unfolding run
  run_on-IsOrderly [] y v = v
  run_on-IsOrderly (e ∷ es) y v =
      run_on-IsOrderly es (happen manager unmarshal s e y) (happen-IsOrderly e y v)

  -- In every state of the goroutines of queues with different names, from their start with no
  -- stored channels, with any events and changes outside: `consumeChannels` has an entry for a
  -- goroutine's queue exactly while that goroutine receives from its Go channel or is about to
  -- drop it, and none has ended while `consuming` is set.
  pub run-IsOrderly :
      (order : List QueueDefinition) (w : W) (es : List (Event W))
      → Apart (map (λ q. q.name) order)
      → IsOrderly (run manager unmarshal s es (start order [] w))
  run-IsOrderly order w es a = run_on-IsOrderly es (start order [] w) (record {
    apart = subst Apart (sym (started-names W order)) a;
    kept = started-IsKept order w;
  })
