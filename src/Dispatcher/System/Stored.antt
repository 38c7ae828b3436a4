-- ===== src/Dispatcher/System/Stored.antt =====
-- dispatcher.go, `ConsumeBlocking`: what the goroutines keep in the fields that they share.
pub mod Kept
use bunmq.Base.{
  ℕ, zero, suc, String, Bool, true, false, ◌≡◌, ◌≢◌, refl, sym, ap, subst, ◌∙◌, ◌⊎◌, inl, inr, List,
  [], ◌∷◌, map, arith, if◌then◌else◌, if_lem, is_some, ◌==◌, eq_iff,
}
use bunmq.Base.Dict
use bunmq.Base.Dict.{lookup-insert, lookup-erase}
use bunmq.Base.Lists.{All}
use bunmq.Errors.{Result, ok, err}
use bunmq.GoType.{GoType}
use bunmq.Queue.{QueueDefinition}
use bunmq.Amqp.Channel.{AmqpChannel, Delivery}
use bunmq.Dispatcher.{Manager, Dispatcher}
use bunmq.Dispatcher.Metadata.{Run, returned, panicked}
use bunmq.Dispatcher.Process.{Action, process_received_message}
use bunmq.Dispatcher.System.{
  Phase, checking, connecting, dropping, ended, opening, storing, receiving, Shared, Thread, Step,
  System, Event, turn, signal, change, start, stop, onward, next_of_run, next_of_channel,
  next_of_deliveries, advance, advance_at, happen, took, run,
}

abbrev pub Apart : List String → Type 0
Apart [] = Unit
Apart (k ∷ ks) = All (λ j. j ≢ k) ks × Apart ks

module _ {W : Type 0} where
  abbrev pub names : List (Thread W) → List String
  names ts = map (λ t. t.0.name) ts

  -- Does a goroutine that stands here have its Go channel in `consumeChannels`?
  abbrev pub has_stored : Phase W → Bool
  has_stored (receiving ds closes) = true
  has_stored dropping = true
  has_stored _ = false

  abbrev pub is_ended : Phase W → Bool
  is_ended ended = true
  is_ended _ = false

  pub record IsKept (h : Shared W) (t : Thread W) : Type 0 where
    pub stored : is_some (Dict.lookup t.0.name h.channels) ≡ has_stored t.1
    pub flagged : (is_ended t.1 ≡ false) ⊎ (h.consuming ≡ false)

  -- An action that changes nothing shared but what is kept for `k`.
  abbrev ChangesOnly : String → Shared W → Shared W → Type 0
  ChangesOnly k h h' =
      ((j : String) → j ≢ k → Dict.lookup j h'.channels ≡ Dict.lookup j h.channels)
      × (h'.consuming ≡ h.consuming)

  -- One that changes nothing shared but the outside.
  abbrev ChangesNone : Shared W → Shared W → Type 0
  ChangesNone h h' = (h'.channels ≡ h.channels) × (h'.consuming ≡ h.consuming)

  others-IsKept :
      (k : String) (h h' : Shared W) (ts : List (Thread W))
      → ChangesOnly k h h'
      → All (λ j. j ≢ k) (names ts)
      → All (IsKept h) ts
      → All (IsKept h') ts
  others-IsKept k h h' [] c n v = tt
  others-IsKept k h h' (t ∷ ts) c n v = (
    record {
      stored = ap is_some (c.0 t.0.name n.0) ∙ v.0.stored;
      flagged = subst (λ b. (is_ended t.1 ≡ false) ⊎ (b ≡ false)) (sym c.1) v.0.flagged;
    },
    others-IsKept k h h' ts c n.1 v.1,
  )

  same-IsKept :
      (h h' : Shared W) (ts : List (Thread W))
      → ChangesNone h h'
      → All (IsKept h) ts
      → All (IsKept h') ts
  same-IsKept h h' [] c v = tt
  same-IsKept h h' (t ∷ ts) c v = (
    record {
      stored = ap (λ x. is_some (Dict.lookup t.0.name x)) c.0 ∙ v.0.stored;
      flagged = subst (λ b. (is_ended t.1 ≡ false) ⊎ (b ≡ false)) (sym c.1) v.0.flagged;
    },
    same-IsKept h h' ts c v.1,
  )

  -- After the signal.
  stopped-IsKept :
      (h : Shared W) (ts : List (Thread W))
      → All (IsKept h) ts
      → All (IsKept (record h { consuming = false })) ts
  stopped-IsKept h [] v = tt
  stopped-IsKept h (t ∷ ts) v =
      (record { stored = v.0.stored; flagged = inr refl }, stopped-IsKept h ts v.1)

  started-IsKept :
      (order : List QueueDefinition) (w : W)
      → All
          (IsKept (record { consuming = true; channels = []; outside = w }))
          (map (λ q. (q, checking)) order)
  started-IsKept [] w = tt
  started-IsKept (q ∷ qs) w = (record { stored = refl; flagged = inl refl }, started-IsKept qs w)

started-names :
    (W : Type 0) (order : List QueueDefinition)
    → names {W = W} (map (λ q. (q, checking)) order) ≡ map (λ q. q.name) order
started-names W [] = refl
started-names W (q ∷ qs) = ap (λ l. q.name ∷ l) (started-names W qs)

module _ {W Payload : Type 0} where
  -- The action of the goroutine of `q`.
  abbrev StepKeeps : QueueDefinition → Shared W → Step W Payload (Phase W) → Type 0
  StepKeeps q h (returned p, n, acts, h') = IsKept h' (q, p) × ChangesOnly q.name h h'
  StepKeeps q h (panicked, n, acts, h') = ChangesNone h h'

  -- Of the goroutine at some place in `ts`.
  abbrev PlaceKeeps : List (Thread W) → Shared W → Step W Payload (List (Thread W)) → Type 0
  PlaceKeeps ts h (returned ts', n, acts, h') =
      All (IsKept h') ts'
      × (names ts' ≡ names ts)
      × ((k : String)
          → All (λ j. j ≢ k) (names ts)
          → Dict.lookup k h'.channels ≡ Dict.lookup k h.channels)
      × (h'.consuming ≡ h.consuming)
  PlaceKeeps ts h (panicked, n, acts, h') = ChangesNone h h'

  next_of_run-StepKeeps :
      (q : QueueDefinition) (d : Delivery) (ds : List Delivery) (closes : Bool)
      (r : Run (Unit {0}) × List (Action Payload) × W) (h : Shared W)
      → IsKept h (q, receiving (d ∷ ds) closes)
      → StepKeeps q h (next_of_run d ds closes r h)
  next_of_run-StepKeeps q d ds closes (returned _, acts, w) h v =
      (record { stored = v.stored; flagged = inl refl }, ((λ j n. refl), refl))
  next_of_run-StepKeeps q d ds closes (panicked, acts, w) h v = (refl, refl)

  -- What holds of a system: its goroutines are of different queues, and each has kept its fields.
  pub record IsOrderly (y : System W Payload) : Type 0 where
    pub apart : Apart (names y.threads)
    pub kept : All (IsKept y.shared) y.threads
