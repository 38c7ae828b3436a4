-- ===== src/Manager/Monitor/Progress.antt =====
-- connection_manager.go, `handleConnectionFailure`: with a limit on the attempts the loop ends.
use bunmq.Base.{ℕ, zero, suc, ◌+◌, ◌*◌, ◌-◌, ◌≤◌, Bool, true, false, ◌≡◌, refl, List, arith}
use bunmq.Base.Int.{ℤ, pos}
use bunmq.Queue.{QueueDefinition}
use bunmq.Connection.{Network, new_connection}
use bunmq.Manager.{ConnectionManager}
use bunmq.Manager.Health.{IsShut, closed-IsShut}
use bunmq.Manager.Monitor.{
  Phase, watching, stopped, crashed, notifying, failing, retrying, waiting, opened, redeclaring,
  closing, Signal, timer, State, step,
}
use bunmq.Manager.Monitor.Reach.{IsSound, step-IsSound}

-- How far a phase is from the end of the loop, with `limit` attempts at most.
abbrev pub rank : (limit : ℕ) → Phase → ℕ
rank limit notifying = 1
rank limit failing = 6 * limit + 2
rank limit (retrying n d) = 6 * (limit - n) + 1
rank limit (closing n d) = 6 * (limit - n) + 2
rank limit (redeclaring n d) = 6 * (limit - n) + 3
rank limit (opened n d) = 6 * (limit - n) + 4
rank limit (waiting n d) = 6 * (limit - n) + 5
rank limit _ = 0

abbrev pub is_stopped : Phase → Bool
is_stopped stopped = true
is_stopped _ = false

at_rest :
    {W : Type 0} (limit : ℕ) (p : Phase) (m : ConnectionManager W)
    → rank limit p ≤ 0
    → is_stopped p ≡ false
    → IsSound p m
    → p ≡ watching
at_rest limit watching m r g v = refl
at_rest limit stopped m r g v = cc
at_rest limit crashed m r g v = absurd v.stands
at_rest limit notifying m r g v = absurd (omega arith)
at_rest limit failing m r g v = absurd (omega arith)
at_rest limit (retrying n d) m r g v = absurd (omega arith)
at_rest limit (waiting n d) m r g v = absurd (omega arith)
at_rest limit (opened n d) m r g v = absurd (omega arith)
at_rest limit (redeclaring n d) m r g v = absurd (omega arith)
at_rest limit (closing n d) m r g v = absurd (omega arith)

rank_bound : (limit : ℕ) (p : Phase) → rank (suc limit) p ≤ 6 * (limit + 1) + 5
rank_bound limit watching = omega arith
rank_bound limit stopped = omega arith
rank_bound limit crashed = omega arith
rank_bound limit notifying = omega arith
rank_bound limit failing = omega arith
rank_bound limit (retrying n d) = omega arith
rank_bound limit (waiting n d) = omega arith
rank_bound limit (opened n d) = omega arith
rank_bound limit (redeclaring n d) = omega arith
rank_bound limit (closing n d) = omega arith

module _ {W : Type 0} (net : Network W) (scale : ℤ → ℤ) where
  -- Each stretch of the loop brings its end nearer, when the timer of a wait expires.
  step-rank :
      (limit : ℕ) (order : List QueueDefinition) (p : Phase) (m : ConnectionManager W) (w : W)
      → m.max_reconnect_attempts ≡ pos (suc limit)
      → let (p', m', w') = step net scale timer order (p, m, w) in
        (rank (suc limit) p' ≤ rank (suc limit) p - 1)
        × (m'.max_reconnect_attempts ≡ pos (suc limit))
  unfolding step new_connection
  step-rank limit order watching m w e = ground arith
  step-rank limit order stopped m w e = ground arith
  step-rank limit order crashed m w e = ground arith
  step-rank limit order notifying m w e = ground arith
  step-rank limit order failing m w e = ground arith
  step-rank limit order (retrying n d) m w e = ground arith
  step-rank limit order (waiting n d) m w e = ground arith
  step-rank limit order (opened n d) m w e = ground arith
  step-rank limit order (redeclaring n d) m w e = ground arith
  step-rank limit order (closing n d) m w e = ground arith

  step-going :
      (order : List QueueDefinition) (p : Phase) (m : ConnectionManager W) (w : W)
      → is_stopped p ≡ false
      → is_stopped (step net scale timer order (p, m, w)).0 ≡ false
  unfolding step new_connection
  step-going order watching m w e = ground arith
  step-going order stopped m w e = cc
  step-going order (redeclaring n d) m w e = ground arith
  step-going order _ m w e = ground arith

  -- The goroutine alone, each wait ended by its timer, for a number of stretches.
  unfoldable pub run_timers : ℕ → List QueueDefinition → State W → State W
  run_timers zero order s = s
  run_timers (suc k) order s = run_timers k order (step net scale timer order s)

  run_timers-rank :
      (k limit : ℕ) (order : List QueueDefinition) (p : Phase) (m : ConnectionManager W) (w : W)
      → m.max_reconnect_attempts ≡ pos (suc limit)
      → is_stopped p ≡ false
      → IsSound p m
      → let (p', m', w') = run_timers k order (p, m, w) in
        (rank (suc limit) p' ≤ rank (suc limit) p - k) × (is_stopped p' ≡ false) × IsSound p' m'
  unfolding run_timers
  run_timers-rank zero limit order p m w e g v = (omega arith, g, v)
  run_timers-rank (suc k) limit order p m w e g v =
      let (p', m', w') = step net scale timer order (p, m, w) in
      let (lower, kept) = step-rank limit order p m w e in
      let (bound, going, sound) =
        run_timers-rank k limit order p' m' w' kept (step-going order p m w g)
          (step-IsSound net scale timer order p m w v) in
      (omega (arith, lower, bound), going, sound)

  -- With at most `limit` + 1 attempts configured, the goroutine, wherever it stands in a sound
  -- state, is back at the `select` of `monitor` after 6 * (`limit` + 1) + 5 stretches or fewer, if
  -- every wait is ended by its timer, whatever the broker answers: the loop of
  -- `handleConnectionFailure` ends.
  pub failure-ends :
      (limit : ℕ) (order : List QueueDefinition) (p : Phase) (m : ConnectionManager W) (w : W)
      → m.max_reconnect_attempts ≡ pos (suc limit)
      → is_stopped p ≡ false
      → IsSound p m
      → (run_timers (6 * (limit + 1) + 5) order (p, m, w)).0 ≡ watching
  failure-ends limit order p m w e g v =
      let (bound, going, sound) = run_timers-rank (6 * (limit + 1) + 5) limit order p m w e g v in
      at_rest (suc limit) _ _ (omega (arith, bound, rank_bound limit p)) going sound

-- The loop gives up once the attempts are used up, and leaves the manager closed with its context
-- not cancelled: every call is refused, `Close` does nothing, and the goroutine is not stopped.
pub gives_up-IsShut :
    {W : Type 0} (net : Network W) (scale : ℤ → ℤ) (signal : Signal) (order : List QueueDefinition)
    (limit : ℕ) (d : ℤ) {m : ConnectionManager W} (w : W)
    → m.max_reconnect_attempts ≡ pos (suc limit)
    → m.cancelled ≡ false
    → m.closed ≡ true
    → (step net scale signal order (retrying (suc limit) d, m, w) ≡ (watching, m, w))
      × IsShut net m w
unfolding step
gives_up-IsShut net scale signal order limit d {m} w e c s = (ground arith, closed-IsShut net m w s)
