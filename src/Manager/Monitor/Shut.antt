-- ===== src/Manager/Monitor/Shut.antt =====
-- connection_manager.go: `Close` against the monitor goroutine.
use bunmq.Base.{ℕ, true, false, ◌≡◌, sym, subst, ◌⊎◌, inl, inr, none, some, List, arith}
use bunmq.Base.Int.{ℤ}
use bunmq.Queue.{QueueDefinition}
use bunmq.Connection.{Network, new_connection}
use bunmq.Manager.{ConnectionManager, close, set_topology, set_reconnect_callback}
use bunmq.Manager.Health.{IsShut, closed-IsShut}
use bunmq.Manager.Monitor.{Phase, watching, waiting, opened, Signal, State, step}
use bunmq.Manager.Monitor.Reach.{
  IsSound, Move, monitors, closes, sets_topology, sets_callback, changes, Reach, here, next,
  Reach-IsSound,
}

shut_of_cancelled :
    {W : Type 0} (p : Phase) (m : ConnectionManager W)
    → IsSound p m
    → m.cancelled ≡ true
    → m.closed ≡ true
shut_of_cancelled p m v e = ground arith

module _ {W : Type 0} (net : Network W) (scale : ℤ → ℤ) where
  step-cancelled :
      (s : Signal) (order : List QueueDefinition) (p : Phase) (m : ConnectionManager W) (w : W)
      → m.cancelled ≡ true
      → (step net scale s order (p, m, w)).1.cancelled ≡ true
  unfolding step new_connection
  step-cancelled s order watching m w e = ground arith
  step-cancelled s order (waiting n d) m w e = ground arith
  step-cancelled s order _ m w e = ground arith

  Move-cancelled :
      {a b : State W} → Move net scale a b → a.1.cancelled ≡ true → b.1.cancelled ≡ true
  unfolding close set_topology set_reconnect_callback
  Move-cancelled {a} {b} (monitors s order e) v =
      subst (λ x. x.1.cancelled ≡ true) (sym e) (step-cancelled s order a.0 a.1 a.2 v)
  Move-cancelled {a} {b} (closes e) v = ground arith
  Move-cancelled {a} {b} (sets_topology none e) v = ground arith
  Move-cancelled {a} {b} (sets_topology (some t) e) v = ground arith
  Move-cancelled {a} {b} (sets_callback f e) v = ground arith
  Move-cancelled {a} {b} (changes w e) v = ground arith

  Reach-cancelled :
      {a b : State W} → a.1.cancelled ≡ true → Reach net scale a b → b.1.cancelled ≡ true
  Reach-cancelled v here = v
  Reach-cancelled v (next r m) = Move-cancelled m (Reach-cancelled v r)

  -- Once the context was cancelled, in a sound state, the manager is shut in every state that
  -- follows: no attempt at reconnecting opens it again.
  pub cancelled-IsShut :
      {a b : State W}
      → IsSound a.0 a.1
      → a.1.cancelled ≡ true
      → Reach net scale a b
      → IsShut net b.1 b.2
  cancelled-IsShut {a} {b} v e r =
      closed-IsShut net b.1 b.2
        (shut_of_cancelled b.0 b.1 (Reach-IsSound net scale v r) (Reach-cancelled e r))

  -- While the goroutine waits for an attempt, or has just made one, `Close` does nothing, reports
  -- no error, and does not cancel the context, so the goroutine goes on and opens the manager
  -- again.
  pub close_ignored :
      {m : ConnectionManager W} {n : ℕ} {d : ℤ} (w : W)
      → IsSound (waiting n d) m ⊎ IsSound (opened n d) m
      → (close net m w ≡ (none, m, w)) × (m.cancelled ≡ false)
  unfolding close
  close_ignored w (inl v) = ground arith
  close_ignored w (inr v) = ground arith
