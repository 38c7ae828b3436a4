-- ===== src/Dispatcher/System/Shutdown/Bounds.antt =====
-- dispatcher.go, `ConsumeBlocking`: what one action leaves to do for the goroutine of a place.
use bunmq.Base.{
  ℕ, zero, suc, ◌-◌, ◌≤◌, String, Bool, true, false, ◌≡◌, refl, sym, subst, ap, none, some, List,
  [], ◌∷◌, arith, if◌then◌else◌,
}
use bunmq.Errors.{Result}
use bunmq.GoType.{GoType}
use bunmq.Queue.{QueueDefinition}
use bunmq.Amqp.Channel.{Delivery}
use bunmq.Dispatcher.{Manager, Dispatcher}
use bunmq.Dispatcher.Metadata.{Run, returned, panicked}
use bunmq.Dispatcher.Process.{Action, process_received_message}
use bunmq.Dispatcher.System.{
  Phase, checking, connecting, dropping, ended, opening, storing, receiving, Shared, Thread, Step,
  onward, next_of_run, advance, advance_at,
}
use bunmq.Dispatcher.System.Places.{thread_at}
use bunmq.Dispatcher.System.Shutdown.{pending, IsWinding, live, StepWinds, advance-StepWinds}

abbrev pub same_place : ℕ → ℕ → Bool
same_place zero zero = true
same_place (suc m) (suc n) = same_place m n
same_place _ _ = false

module _ {V : Type 0} where
  -- The goroutine of a place is winding down, with at most so many actions left.
  abbrev pub IsBounded : ℕ → QueueDefinition → ℕ → List (Thread V) → Type 0
  IsBounded n q b ts =
      (p : Phase V) × (thread_at n ts ≡ some (q, p)) × IsWinding p × (pending p ≤ b)

  -- How many actions are left behind a turn of the first place, for the goroutine of the second.
  abbrev pub bound : ℕ → ℕ → Phase V → ℕ
  bound m n p = if same_place m n then pending p - live p else pending p

module _ {V Payload : Type 0} where
  -- The flag stays as it is.
  abbrev pub KeepsFlag : {A : Type 0} → Shared V → Step V Payload A → Type 0
  KeepsFlag h (r, k, acts, h') = h'.consuming ≡ h.consuming

  next_of_run-KeepsFlag :
      (d : Delivery) (ds : List Delivery) (closes : Bool)
      (r : Run (Unit {0}) × List (Action Payload) × V) (h : Shared V)
      → KeepsFlag h (next_of_run d ds closes r h)
  next_of_run-KeepsFlag d ds closes (returned _, acts, w) h = refl
  next_of_run-KeepsFlag d ds closes (panicked, acts, w) h = refl

  onward-KeepsFlag :
      {A B : Type 0} (f : A → B) (h : Shared V) (r : Step V Payload A)
      → KeepsFlag h r
      → KeepsFlag h (onward f r)
  onward-KeepsFlag f h (returned a, k, acts, h') e = e
  onward-KeepsFlag f h (panicked, k, acts, h') e = e

  abbrev pub StepBounds : ℕ → QueueDefinition → ℕ → Step V Payload (List (Thread V)) → Type 0
  StepBounds n q b (returned ts, k, acts, h) = IsBounded n q b ts
  StepBounds n q b (panicked, k, acts, h) = Unit

  at_head-StepBounds :
      (q : QueueDefinition) (p : Phase V) (ts : List (Thread V)) (r : Step V Payload (Phase V))
      → StepWinds p r
      → StepBounds 0 q (pending p - live p) (onward (λ p'. (q, p') ∷ ts) r)
  at_head-StepBounds q p ts (returned p', k, acts, h) v = (p', refl, v.0, omega (arith, v.1))
  at_head-StepBounds q p ts (panicked, k, acts, h) v = tt

  -- A place is not touched by the turns of others.
  before-StepBounds :
      (n b : ℕ) (q r : QueueDefinition) (ts : List (Thread V)) (k : Step V Payload (Phase V))
      → IsBounded n q b ts
      → StepBounds (suc n) q b (onward (λ p'. (r, p') ∷ ts) k)
  before-StepBounds n b q r ts (returned p', k, acts, h) v = v
  before-StepBounds n b q r ts (panicked, k, acts, h) v = tt

  behind-StepBounds :
      (b : ℕ) (q : QueueDefinition) (t : Thread V) (k : Step V Payload (List (Thread V)))
      → IsBounded 0 q b (t ∷ [])
      → StepBounds 0 q b (onward (λ ts. t ∷ ts) k)
  behind-StepBounds b q t (returned ts, k, acts, h) v = v
  behind-StepBounds b q t (panicked, k, acts, h) v = tt

  inside-StepBounds :
      (n b : ℕ) (q : QueueDefinition) (t : Thread V) (k : Step V Payload (List (Thread V)))
      → StepBounds n q b k
      → StepBounds (suc n) q b (onward (λ ts. t ∷ ts) k)
  inside-StepBounds n b q t (returned ts, k, acts, h) v = v
  inside-StepBounds n b q t (panicked, k, acts, h) v = tt

module _ {V Payload : Type 0} (manager : Manager V) (unmarshal : String → GoType → Result Payload)
    (s : Dispatcher V Payload) where
  advance-KeepsFlag :
      (q : QueueDefinition) (p : Phase V) (h : Shared V)
      → KeepsFlag h (advance manager unmarshal s q p h)
  unfolding advance
  advance-KeepsFlag q checking h = refl
  advance-KeepsFlag q connecting h = ground arith
  advance-KeepsFlag q dropping h = refl
  advance-KeepsFlag q ended h = refl
  advance-KeepsFlag q (opening ch) h = ground arith
  advance-KeepsFlag q (storing ds closes) h = refl
  advance-KeepsFlag q (receiving [] true) h = refl
  advance-KeepsFlag q (receiving [] false) h = refl
  advance-KeepsFlag q (receiving (d ∷ ds) closes) h =
      next_of_run-KeepsFlag d ds closes (process_received_message manager unmarshal s q d h.outside)
        h

  pub advance_at-KeepsFlag :
      (n : ℕ) (ts : List (Thread V)) (h : Shared V)
      → KeepsFlag h (advance_at manager unmarshal s n ts h)
  unfolding advance_at
  advance_at-KeepsFlag n [] h = refl
  advance_at-KeepsFlag zero ((q, p) ∷ ts) h =
      onward-KeepsFlag (λ p'. (q, p') ∷ ts) h _ (advance-KeepsFlag q p h)
  advance_at-KeepsFlag (suc n) (t ∷ ts) h =
      onward-KeepsFlag (λ ts'. t ∷ ts') h _ (advance_at-KeepsFlag n ts h)

  pub advance_at-StepBounds :
      (m n : ℕ) (ts : List (Thread V)) (h : Shared V) (q : QueueDefinition) (p : Phase V)
      → h.consuming ≡ false
      → thread_at n ts ≡ some (q, p)
      → IsWinding p
      → StepBounds n q (bound m n p) (advance_at manager unmarshal s m ts h)
  unfolding advance_at
  advance_at-StepBounds m n [] h q p c t v = ground arith
  advance_at-StepBounds zero zero ((r, o) ∷ ts) h q p c t v =
      subst
        (λ (x : Thread V).
          StepBounds 0 q (pending p - live p)
            (onward (λ a. (x.0, a) ∷ ts) (advance manager unmarshal s x.0 x.1 h)))
        (ap (λ x. elim x [ none ↦ (r, o) | some y ↦ y ]) (sym t))
        (at_head-StepBounds q p ts (advance manager unmarshal s q p h)
          (advance-StepWinds manager unmarshal s q p h c v))
  advance_at-StepBounds zero (suc n) (r ∷ ts) h q p c t v =
      before-StepBounds n (pending p) q r.0 ts (advance manager unmarshal s r.0 r.1 h)
        (p, t, v, omega arith)
  advance_at-StepBounds (suc m) zero (r ∷ ts) h q p c t v =
      behind-StepBounds (pending p) q r (advance_at manager unmarshal s m ts h)
        (p, t, v, omega arith)
  advance_at-StepBounds (suc m) (suc n) (r ∷ ts) h q p c t v =
      inside-StepBounds n (bound m n p) q r (advance_at manager unmarshal s m ts h)
        (advance_at-StepBounds m n ts h q p c t v)
