-- ===== src/Manager/Monitor/Reach.antt =====
-- connection_manager.go: the monitor goroutine among the callers of the manager, and what holds in
-- every state that they reach.
use bunmq.Base.{
  ℕ, true, false, ◌≡◌, sym, subst, ◌⊎◌, Option, none, some, List, arith, is_some, String,
}
use bunmq.Base.Int.{ℤ, ◌≤ℤ◌}
use bunmq.Errors.{ok}
use bunmq.Queue.{QueueDefinition}
use bunmq.Connection.{Network, new_connection}
use bunmq.Topology.{Topology}
use bunmq.Manager.{
  ReconnectionConfig, Callback, ConnectionManager, connect, new_connection_manager, close,
  set_topology, set_reconnect_callback,
}
use bunmq.Manager.Monitor.{
  Phase, watching, stopped, crashed, notifying, failing, retrying, waiting, opened, redeclaring,
  closing, Signal, done, timer, consumer_cancelled, connection_closed, channel_closed, State,
  is_exceeded, handle_channel_failure, reconnected, step,
}

-- A delay is the configured one, or within the configured limit.
abbrev pub IsDelay : {W : Type 0} → ConnectionManager W → ℤ → Type 0
IsDelay m d = (d ≤ℤ m.reconnect_delay) ⊎ (d ≤ℤ m.reconnect_backoff_max)

module _ {W : Type 0} where
  -- What holds where the goroutine stands. While it waits for an attempt, and until the attempt has
  -- succeeded and `closed` is reset, the manager is closed but its context is not cancelled.
  abbrev pub Stands : Phase → ConnectionManager W → Type 0
  Stands watching m = Unit
  Stands stopped m = m.cancelled ≡ true
  Stands crashed m = ⊥
  Stands notifying m = Unit
  Stands failing m = Unit
  Stands (retrying n d) m =
      (m.closed ≡ true) × (is_exceeded m.max_reconnect_attempts n ≡ false) × IsDelay m d
  Stands (waiting n d) m =
      (m.closed ≡ true)
      × (m.cancelled ≡ false)
      × (is_exceeded m.max_reconnect_attempts n ≡ false)
      × IsDelay m d
  Stands (opened n d) m =
      (m.closed ≡ true)
      × (m.cancelled ≡ false)
      × (is_exceeded m.max_reconnect_attempts n ≡ false)
      × IsDelay m d
  Stands (redeclaring n d) m = (is_exceeded m.max_reconnect_attempts n ≡ false) × IsDelay m d
  Stands (closing n d) m = (is_exceeded m.max_reconnect_attempts n ≡ false) × IsDelay m d

  pub record IsSound (p : Phase) (m : ConnectionManager W) : Type 0 where
    pub has_conn : is_some m.conn ≡ true
    pub has_ch : is_some m.ch ≡ true
    pub shut : (m.cancelled ≡ false) ⊎ (m.closed ≡ true)
    pub stands : Stands p m

module _ {W : Type 0} where
  Stands-topology :
      (p : Phase) (t : Topology) (m : ConnectionManager W)
      → Stands p m
      → Stands p (record m { topology = some t })
  Stands-topology watching t m v = v
  Stands-topology _ t m v = v

  Stands-callback :
      (p : Phase) (f : Option (Callback W)) (m : ConnectionManager W)
      → Stands p m
      → Stands p (record m { reconnect_callback = f })
  Stands-callback watching f m v = v
  Stands-callback _ f m v = v

module _ {W : Type 0} (net : Network W) (scale : ℤ → ℤ) where
  -- One step of the program: the goroutine's, a call of another goroutine that changes the
  -- manager, or any change outside.
  pub data Move (a : State W) (b : State W) : Type 0 where
    monitors :
        (signal : Signal) (order : List QueueDefinition)
        → b ≡ step net scale signal order a
        → Move a b
    closes : b ≡ (a.0, (close net a.1 a.2).1, (close net a.1 a.2).2) → Move a b
    sets_topology : (t : Option Topology) → b ≡ (a.0, set_topology t a.1, a.2) → Move a b
    sets_callback :
        (f : Option (Callback W)) → b ≡ (a.0, set_reconnect_callback f a.1, a.2) → Move a b
    changes : (w : W) → b ≡ (a.0, a.1, w) → Move a b

  pub data Reach (a : State W) : State W → Type 0 where
    here : Reach a a
    next : {b c : State W} → Reach a b → Move b c → Reach a c

  failure-IsSound :
      (m : ConnectionManager W) (w : W)
      → IsSound watching m
      → IsSound (handle_channel_failure net scale m w).0 (handle_channel_failure net scale m w).1
  unfolding handle_channel_failure
  failure-IsSound m w v = ground arith

  attempt-IsSound :
      (n : ℕ) (d : ℤ) (m : ConnectionManager W) (w : W)
      → IsSound (waiting n d) m
      → let (p', m', w') = reconnected net scale n d (connect net m w) in IsSound p' m'
  unfolding connect new_connection
  attempt-IsSound n d m w v = ground arith

  pub step-IsSound :
      (s : Signal) (order : List QueueDefinition) (p : Phase) (m : ConnectionManager W) (w : W)
      → IsSound p m
      → let (p', m', w') = step net scale s order (p, m, w) in IsSound p' m'
  unfolding step
  step-IsSound done order watching m w v = ground arith
  step-IsSound timer order watching m w v = v
  step-IsSound consumer_cancelled order watching m w v = failure-IsSound m w v
  step-IsSound (connection_closed none) order watching m w v = v
  step-IsSound (connection_closed (some e)) order watching m w v = ground arith
  step-IsSound (channel_closed none) order watching m w v = v
  step-IsSound (channel_closed (some e)) order watching m w v = failure-IsSound m w v
  step-IsSound s order stopped m w v = v
  step-IsSound s order crashed m w v = v
  step-IsSound s order notifying m w v = ground arith
  step-IsSound s order failing m w v = ground arith
  step-IsSound s order (retrying n d) m w v = ground arith
  step-IsSound done order (waiting n d) m w v = ground arith
  step-IsSound timer order (waiting n d) m w v = attempt-IsSound n d m w v
  step-IsSound consumer_cancelled order (waiting n d) m w v = v
  step-IsSound (connection_closed e) order (waiting n d) m w v = v
  step-IsSound (channel_closed e) order (waiting n d) m w v = v
  step-IsSound s order (opened n d) m w v = ground arith
  step-IsSound s order (redeclaring n d) m w v = ground arith
  step-IsSound s order (closing n d) m w v = ground arith

  -- `Close` while the manager is not closed cancels the context; then it is closed for good.
  close-IsSound :
      (p : Phase) (m : ConnectionManager W) (w : W) → IsSound p m → IsSound p (close net m w).1
  unfolding close
  close-IsSound watching m w v = ground arith
  close-IsSound stopped m w v = ground arith
  close-IsSound crashed m w v = absurd v.stands
  close-IsSound notifying m w v = ground arith
  close-IsSound failing m w v = ground arith
  close-IsSound (retrying n d) m w v = ground arith
  close-IsSound (waiting n d) m w v = ground arith
  close-IsSound (opened n d) m w v = ground arith
  close-IsSound (redeclaring n d) m w v = ground arith
  close-IsSound (closing n d) m w v = ground arith

  topology-IsSound :
      (p : Phase) (t : Option Topology) (m : ConnectionManager W)
      → IsSound p m
      → IsSound p (set_topology t m)
  unfolding set_topology
  topology-IsSound p none m v = v
  topology-IsSound p (some t) m v = record {
    has_conn = v.has_conn;
    has_ch = v.has_ch;
    shut = v.shut;
    stands = Stands-topology p t m v.stands;
  }

  callback-IsSound :
      (p : Phase) (f : Option (Callback W)) (m : ConnectionManager W)
      → IsSound p m
      → IsSound p (set_reconnect_callback f m)
  unfolding set_reconnect_callback
  callback-IsSound p f m v = record {
    has_conn = v.has_conn;
    has_ch = v.has_ch;
    shut = v.shut;
    stands = Stands-callback p f m v.stands;
  }

  pub Move-IsSound : {a b : State W} → Move a b → IsSound a.0 a.1 → IsSound b.0 b.1
  unfolding close set_topology set_reconnect_callback
  Move-IsSound {a} {b} (monitors s order e) v =
      subst (λ x. IsSound x.0 x.1) (sym e) (step-IsSound s order a.0 a.1 a.2 v)
  Move-IsSound {a} {b} (closes e) v =
      subst (λ x. IsSound x.0 x.1) (sym e) (close-IsSound a.0 a.1 a.2 v)
  Move-IsSound {a} {b} (sets_topology t e) v =
      subst (λ x. IsSound x.0 x.1) (sym e) (topology-IsSound a.0 t a.1 v)
  Move-IsSound {a} {b} (sets_callback f e) v =
      subst (λ x. IsSound x.0 x.1) (sym e) (callback-IsSound a.0 f a.1 v)
  Move-IsSound {a} {b} (changes w e) v = subst (λ x. IsSound x.0 x.1) (sym e) v

  pub Reach-IsSound : {a b : State W} → IsSound a.0 a.1 → Reach a b → IsSound b.0 b.1
  Reach-IsSound v here = v
  Reach-IsSound v (next r m) = Move-IsSound m (Reach-IsSound v r)

  new-IsSound :
      (a c : String) (cfgs : List ReconnectionConfig) (w : W) {m : ConnectionManager W}
      → (new_connection_manager net a c cfgs w).0 ≡ ok m
      → IsSound watching m
  unfolding new_connection_manager new_connection
  new-IsSound a c cfgs w e = ground arith

  -- In every state that is reached from a new manager, by its goroutine with any events, by any
  -- calls of other goroutines in between and any changes outside, the manager has a connection and
  -- a channel, a cancelled context goes with a closed manager, and the goroutine stands as
  -- `Stands` says: it has not dereferenced nil, its attempts are within the limit, if there is
  -- one, and its delay is the configured one or within the configured maximum.
  pub monitored-IsSound :
      (a c : String) (cfgs : List ReconnectionConfig) (w v : W) {m : ConnectionManager W}
      {b : State W}
      → (new_connection_manager net a c cfgs w).0 ≡ ok m
      → Reach (watching, m, v) b
      → IsSound b.0 b.1
  monitored-IsSound a c cfgs w v e r = Reach-IsSound (new-IsSound a c cfgs w e) r
