-- ===== src/Reconnecting/Resumed.antt =====
-- dispatcher.go and connection_manager.go: the goroutines of `consume` after a reconnection.
use bunmq.Base.{
  Bool, ℕ, zero, suc, String, true, false, ◌≡◌, refl, sym, ap, ◌∙◌, subst, if_lem, none, some, List,
  [], ◌∷◌, arith,
}
use bunmq.Base.Dict
use bunmq.Base.Int.{ℤ}
use bunmq.Errors.{Result, ok}
use bunmq.GoType.{GoType}
use bunmq.Queue.{QueueDefinition}
use bunmq.Amqp.Table.{empty}
use bunmq.Amqp.Channel.{AmqpChannel, Delivery, Incoming}
use bunmq.Connection.{Network, new_connection}
use bunmq.Manager.{ConnectionManager, get_channel, run_callback}
use bunmq.Manager.Monitor
use bunmq.Manager.Monitor.{waiting, watching}
use bunmq.Manager.Monitor.Progress.{run_timers}
use bunmq.Manager.Monitor.Reconnect.{Redeclares, reconnect-opens}
use bunmq.Manager.Service.{service, lift_channel}
use bunmq.Manager.Service.Applied.{service-hands}
use bunmq.Dispatcher.{Manager, Dispatcher}
use bunmq.Dispatcher.Metadata.{returned}
use bunmq.Dispatcher.System.Places.{thread_at, moved}
use bunmq.Dispatcher.System.{
  Phase, checking, connecting, opening, storing, receiving, Shared, Thread, System, onward, took,
  turn, change, advance, advance_at, happen, run, next_of_channel, next_of_deliveries,
}

module _ {V Payload : Type 0} (manager : Manager V) (unmarshal : String → GoType → Result Payload)
    (s : Dispatcher V Payload) where
  -- A goroutine's turn, where its action returns with a phase, receives nothing and sends nothing.
  advance_at-moved :
      (n : ℕ) (ts : List (Thread V)) (h h' : Shared V) (q : QueueDefinition) (p p' : Phase V)
      → thread_at n ts ≡ some (q, p)
      → advance manager unmarshal s q p h ≡ (returned p', 0, [], h')
      → advance_at manager unmarshal s n ts h ≡ (returned (moved n p' ts), 0, [], h')
  unfolding advance_at
  advance_at-moved n [] h h' q p p' t e = ground arith
  advance_at-moved zero ((r, o) ∷ ts) h h' q p p' t e =
      subst
        (λ (x : Thread V).
          onward (λ a. (x.0, a) ∷ ts) (advance manager unmarshal s x.0 x.1 h)
          ≡ (returned ((x.0, p') ∷ ts), 0, [], h'))
        (ap (λ x. elim x [ none ↦ (r, o) | some y ↦ y ]) (sym t)) (ap (onward (λ a. (q, a) ∷ ts)) e)
  advance_at-moved (suc n) (r ∷ ts) h h' q p p' t e =
      ap (onward (λ ts'. r ∷ ts')) (advance_at-moved n ts h h' q p p' t e)

  thread_at-moved :
      (n : ℕ) (ts : List (Thread V)) (q : QueueDefinition) (p p' : Phase V)
      → thread_at n ts ≡ some (q, p)
      → thread_at n (moved n p' ts) ≡ some (q, p')
  thread_at-moved n [] q p p' t = ground arith
  thread_at-moved zero ((r, o) ∷ ts) q p p' t = ground arith
  thread_at-moved (suc n) (r ∷ ts) q p p' t = thread_at-moved n ts q p p' t

  -- Where a goroutine stands in a run that goes on, and what it shares.
  pub record Stands (n : ℕ) (q : QueueDefinition) (p : Phase V) (h : Shared V)
      (y : System V Payload) : Type 0 where
    pub going : y.crashed ≡ false
    pub sharing : y.shared ≡ h
    pub place : thread_at n y.threads ≡ some (q, p)

  turn-Stands :
      (n : ℕ) (q : QueueDefinition) {p p' : Phase V} {h h' : Shared V} {y : System V Payload}
      → Stands n q p h y
      → advance manager unmarshal s q p h ≡ (returned p', 0, [], h')
      → Stands n q p' h' (happen manager unmarshal s (turn n) y)
  unfolding happen
  turn-Stands n q {p} {p'} {h} {h'} {y} v e =
      if_lem (Stands n q p' h') y.crashed (λ b. cc (b, v.going))
        (λ _.
          subst (λ r. Stands n q p' h' (took manager unmarshal s y r))
            (sym (
              advance_at-moved n y.threads y.shared h' q p p' v.place
                (ap (advance manager unmarshal s q p) v.sharing ∙ e)))
            (record {
              going = v.going;
              sharing = refl;
              place = thread_at-moved n y.threads q p p' v.place;
            }))

  -- A manager that hands out a channel, on which the queue can be consumed, brings a goroutine in
  -- four turns from the start of its loop to the deliveries.
  pub turns-Stands :
      (n : ℕ) (q : QueueDefinition) {y : System V Payload} (h : Shared V) (ch : AmqpChannel V)
      (ds : List Delivery) (closes : Bool) (v w : V)
      → Stands n q checking h y
      → h.consuming ≡ true
      → manager.get_channel h.outside ≡ (ok ch, v)
      → ch.consume q.name "" false false false false empty v ≡ (ok (ds, closes), w)
      → Stands n q
          (receiving ds closes)
          (record h { channels = Dict.insert q.name (ds, closes) h.channels; outside = w })
          (run manager unmarshal s (turn n ∷ turn n ∷ turn n ∷ turn n ∷ []) y)
  unfolding run advance
  turns-Stands n q {y} h ch ds closes v w z c e f =
      let checked =
        turn-Stands n q {p = checking} {p' = connecting} {h = h} {h' = h} z (rw c refl) in
      let connected =
        turn-Stands n q {p' = opening ch} {h' = record h { outside = v }} checked
          (ap (λ r. next_of_channel r h) e) in
      let opened =
        turn-Stands n q {p' = storing ds closes} {h' = record h { outside = w }} connected
          (ap (λ r. next_of_deliveries r (record h { outside = v })) f) in
      turn-Stands n q opened refl

module _ {W Payload : Type 0} (net : Network W) (scale : ℤ → ℤ)
    (unmarshal : String → GoType → Result Payload)
    (s : Dispatcher (ConnectionManager W × W) Payload) where
  open-hands :
      (m : ConnectionManager W) (w : W) (h : ℕ)
      → m.closed ≡ false
      → m.ch ≡ some h
      → net.channel_is_closed h w ≡ false
      → get_channel net m w ≡ ok h
  unfolding get_channel
  open-hands m w h opens has up = ground arith

  -- From the wait before an attempt, a connection that can be made, and a topology that can be
  -- declared on its channel, bring the manager in three stretches to a state from which a goroutine
  -- of `consume` at the start of its loop is in four turns of its own at the deliveries of its
  -- queue on the new channel, if that channel is still open then and the queue can be consumed on
  -- it; it has stored them, and the manager is as the reconnection left it.
  pub reconnect-resumes :
      (order : List QueueDefinition) (k : ℕ) (delay : ℤ) (m : ConnectionManager W) (w : W) (c h : ℕ)
      (v : W)
      → new_connection net m.app_name m.connection_string w ≡ (ok (c, h), v)
      → Redeclares net scale order m h (run_callback m.reconnect_callback (some c) (some h) v)
      → (p' : Monitor.Phase) (m' : ConnectionManager W) (w' : W)
      → run_timers net scale 3 order (waiting k delay, m, w) ≡ (p', m', w')
      → net.channel_is_closed h w' ≡ false
      → (n : ℕ) (q : QueueDefinition) (y : System (ConnectionManager W × W) Payload)
        (ds : List Delivery) (closes : Bool) (u : W)
      → y.crashed ≡ false
      → y.shared.consuming ≡ true
      → thread_at n y.threads ≡ some (q, checking)
      → (net.channel h).consume q.name "" false false false false empty w' ≡ (ok (ds, closes), u)
      → let z =
          run
            (service net)
            unmarshal
            s
            (change (m', w') ∷ turn n ∷ turn n ∷ turn n ∷ turn n ∷ [])
            y in
        (p' ≡ watching)
        × (thread_at n z.threads ≡ some (q, receiving ds closes))
        × (Dict.lookup q.name z.shared.channels ≡ some (ds, closes))
        × (z.shared.outside ≡ (m', u))
        × (z.crashed ≡ false)
  unfolding run happen
  reconnect-resumes order k delay m w c h v made redeclares p' m' w' ran up n q y ds closes u g on
        at got =
      let (rests, opens, conn, ch, kept) =
        reconnect-opens net scale order k delay m w c h v made redeclares in
      let hands = service-hands net m' w' h (
        open-hands m' w' h (ap (λ x. x.1.closed) (sym ran) ∙ opens)
          (ap (λ x. x.1.ch) (sym ran) ∙ ch) up) in
      let again = record y { shared = record y.shared { outside = (m', w') } } in
      let stands =
        turns-Stands (service net) unmarshal s n q {y = again} again.shared
          (lift_channel (net.channel h)) ds closes (m', w') (m', u)
          (record { going = g; sharing = refl; place = at }) on hands
          (ap (λ (r : Result Incoming × W). (r.0, (m', r.1))) got) in
      (
        ap (λ x. x.0) (sym ran) ∙ rests,
        stands.place,
        ap (λ (x : Shared (ConnectionManager W × W)). Dict.lookup q.name x.channels) stands.sharing
            ∙ Dict.lookup-insert_self q.name (ds, closes) y.shared.channels,
        ap (λ (x : Shared (ConnectionManager W × W)). x.outside) stands.sharing,
        stands.going,
      )
