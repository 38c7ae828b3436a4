-- ===== src/Reconnecting.antt =====
-- dispatcher.go and connection_manager.go: the goroutines of `consume` while the manager reconnects.
-- The outside of the dispatcher is the manager beside the client library, and the stretches of the
-- monitor are changes of it.
pub mod Resumed
use mathlib.Core.List.{append-nil}
use bunmq.Base.{
  ℕ, zero, suc, String, Bool, true, false, ◌≡◌, refl, sym, subst, ap, ◌∙◌, if_lem, Option, none,
  some, List, [], ◌∷◌, map, arith, if◌then◌else◌,
}
use bunmq.Base.Lists.{All}
use bunmq.Errors.{Result}
use bunmq.GoType.{GoType}
use bunmq.Queue.{QueueDefinition}
use bunmq.Connection.{Network}
use bunmq.Manager.{ConnectionManager, get_channel}
use bunmq.Manager.Service.{service}
use bunmq.Dispatcher.{Dispatcher}
use bunmq.Dispatcher.Metadata.{returned, panicked}
use bunmq.Dispatcher.System.{
  Phase, checking, connecting, dropping, ended, opening, storing, receiving, Shared, Thread, System,
  Event, Step, onward, took, turn, signal, change, advance, advance_at, happen, run,
}

-- A goroutine that has nothing at hand: no channel and no delivery.
abbrev pub IsIdle : {V : Type 0} → Phase V → Type 0
IsIdle (opening ch) = ⊥
IsIdle (storing ds closes) = ⊥
IsIdle (receiving (d ∷ ds) closes) = ⊥
IsIdle _ = Unit

abbrev pub AreIdle : {V : Type 0} → List (Thread V) → Type 0
AreIdle [] = Unit
AreIdle (t ∷ ts) = IsIdle t.1 × AreIdle ts

-- What an action comes to in which nothing is received, sent or changed outside.
abbrev Idles : {V Payload A : Type 0} → (A → Type 0) → Shared V → Step V Payload A → Type 0
Idles P h (returned a, k, acts, h') = P a × (k ≡ 0) × (acts ≡ []) × (h'.outside ≡ h.outside)
Idles P h (panicked, k, acts, h') = ⊥

module _ {W Payload : Type 0} (net : Network W) (unmarshal : String → GoType → Result Payload)
    (s : Dispatcher (ConnectionManager W × W) Payload) where
  advance-Idles :
      (q : QueueDefinition) (p : Phase (ConnectionManager W × W))
      (h : Shared (ConnectionManager W × W))
      → h.outside.0.closed ≡ true
      → IsIdle p
      → Idles IsIdle h (advance (service net) unmarshal s q p h)
  unfolding advance service get_channel
  advance-Idles q checking h c i = (
    if_lem (λ (p : Phase (ConnectionManager W × W)). IsIdle p) h.consuming (λ _. tt) (λ _. tt),
    refl,
    refl,
    refl,
  )
  advance-Idles q connecting h c i = ground arith
  advance-Idles q dropping h c i = (tt, refl, refl, refl)
  advance-Idles q ended h c i = (tt, refl, refl, refl)
  advance-Idles q (opening ch) h c i = absurd i
  advance-Idles q (storing ds closes) h c i = absurd i
  advance-Idles q (receiving [] true) h c i = (tt, refl, refl, refl)
  advance-Idles q (receiving [] false) h c i = (tt, refl, refl, refl)
  advance-Idles q (receiving (d ∷ ds) closes) h c i = absurd i

  onward-Idles :
      {A B : Type 0} (P : A → Type 0) (Q : B → Type 0) (f : A → B)
      (h : Shared (ConnectionManager W × W)) (r : Step (ConnectionManager W × W) Payload A)
      → ((a : A) → P a → Q (f a))
      → Idles P h r
      → Idles Q h (onward f r)
  onward-Idles P Q f h (returned a, k, acts, h') to i = (to a i.0, i.1, i.2, i.3)
  onward-Idles P Q f h (panicked, k, acts, h') to i = i

  advance_at-Idles :
      (n : ℕ) (ts : List (Thread (ConnectionManager W × W))) (h : Shared (ConnectionManager W × W))
      → h.outside.0.closed ≡ true
      → AreIdle ts
      → Idles AreIdle h (advance_at (service net) unmarshal s n ts h)
  unfolding advance_at
  advance_at-Idles n [] h c i = (tt, refl, refl, refl)
  advance_at-Idles zero ((q, p) ∷ ts) h c i =
      onward-Idles IsIdle AreIdle (λ p'. (q, p') ∷ ts) h _ (λ p' j. (j, i.1))
        (advance-Idles q p h c i.0)
  advance_at-Idles (suc n) (t ∷ ts) h c i =
      onward-Idles AreIdle AreIdle (λ ts'. t ∷ ts') h _ (λ ts' j. (i.0, j))
        (advance_at-Idles n ts h c i.1)

  -- The outside after a schedule in which the goroutines change nothing.
  abbrev pub changed :
      List (Event (ConnectionManager W × W)) → ConnectionManager W × W → ConnectionManager W × W
  changed [] o = o
  changed (change o' ∷ es) o = changed es o'
  changed (turn n ∷ es) o = changed es o
  changed (signal ∷ es) o = changed es o

  -- Every change leaves the manager closed.
  abbrev pub KeepsClosed : Event (ConnectionManager W × W) → Type 0
  KeepsClosed (change o) = o.0.closed ≡ true
  KeepsClosed _ = Unit

  -- What goroutines that are idle leave as it was, with the outside that they see.
  pub record IsUntouched (o : ConnectionManager W × W)
      (y y' : System (ConnectionManager W × W) Payload) : Type 0 where
    pub sees : y'.shared.outside ≡ o
    pub same_received : y'.received ≡ y.received
    pub same_actions : y'.actions ≡ y.actions
    pub going : y'.crashed ≡ false
    pub idle : AreIdle y'.threads

  IsUntouched-trans :
      {o o' : ConnectionManager W × W} {y y' y'' : System (ConnectionManager W × W) Payload}
      → IsUntouched o y y'
      → IsUntouched o' y' y''
      → IsUntouched o' y y''
  IsUntouched-trans first rest = record {
    sees = rest.sees;
    same_received = rest.same_received ∙ first.same_received;
    same_actions = rest.same_actions ∙ first.same_actions;
    going = rest.going;
    idle = rest.idle;
  }

  took-IsUntouched :
      (y : System (ConnectionManager W × W) Payload)
      (r : Step (ConnectionManager W × W) Payload (List (Thread (ConnectionManager W × W))))
      → y.crashed ≡ false
      → Idles AreIdle y.shared r
      → IsUntouched y.shared.outside y (took (service net) unmarshal s y r)
  took-IsUntouched y (returned ts, k, acts, h) g i = record {
    sees = i.3;
    same_received = omega (arith, i.1);
    same_actions = rw i.2 (append-nil y.actions);
    going = g;
    idle = i.0;
  }
  took-IsUntouched y (panicked, k, acts, h) g i = absurd i

  turn-IsUntouched :
      (n : ℕ) (y : System (ConnectionManager W × W) Payload)
      → y.shared.outside.0.closed ≡ true
      → y.crashed ≡ false
      → AreIdle y.threads
      → IsUntouched y.shared.outside y (happen (service net) unmarshal s (turn n) y)
  unfolding happen
  turn-IsUntouched n y c g i =
      if_lem (IsUntouched y.shared.outside y) y.crashed (λ e. cc (e, g))
        (λ _. took-IsUntouched y _ g (advance_at-Idles n y.threads y.shared c i))

  happen-IsUntouched :
      (e : Event (ConnectionManager W × W)) (y : System (ConnectionManager W × W) Payload)
      → KeepsClosed e
      → y.shared.outside.0.closed ≡ true
      → y.crashed ≡ false
      → AreIdle y.threads
      → IsUntouched (changed (e ∷ []) y.shared.outside) y (happen (service net) unmarshal s e y)
        × ((changed (e ∷ []) y.shared.outside).0.closed ≡ true)
  unfolding happen
  happen-IsUntouched (turn n) y k c g i = (turn-IsUntouched n y c g i, c)
  happen-IsUntouched signal y k c g i =
      (record { sees = refl; same_received = refl; same_actions = refl; going = g; idle = i }, c)
  happen-IsUntouched (change o) y k c g i =
      (record { sees = refl; same_received = refl; same_actions = refl; going = g; idle = i }, k)

  changed-cons :
      (e : Event (ConnectionManager W × W)) (es : List (Event (ConnectionManager W × W)))
      (o : ConnectionManager W × W)
      → changed (e ∷ es) o ≡ changed es (changed (e ∷ []) o)
  changed-cons (turn n) es o = refl
  changed-cons signal es o = refl
  changed-cons (change o') es o = refl

  -- While the manager is closed, goroutines that have no channel and no delivery at hand stay so,
  -- in every interleaving of their turns with changes outside that leave the manager closed, and
  -- with the signal: nothing is received, nothing is sent, nothing changes outside but by those
  -- changes, and none panics.
  pub closed-IsUntouched :
      (es : List (Event (ConnectionManager W × W))) (y : System (ConnectionManager W × W) Payload)
      → All KeepsClosed es
      → y.shared.outside.0.closed ≡ true
      → y.crashed ≡ false
      → AreIdle y.threads
      → IsUntouched (changed es y.shared.outside) y (run (service net) unmarshal s es y)
  unfolding run
  closed-IsUntouched [] y k c g i = record {
    sees = refl;
    same_received = refl;
    same_actions = refl;
    going = g;
    idle = i;
  }
  closed-IsUntouched (e ∷ es) y (k, ks) c g i =
      let (first, closed) = happen-IsUntouched e y k c g i in
      let y' = happen (service net) unmarshal s e y in
      let rest =
        closed-IsUntouched es y' ks (ap (λ o. o.0.closed) first.sees ∙ closed) first.going
          first.idle in
      subst (λ o. IsUntouched o y (run (service net) unmarshal s es y'))
        (ap (changed es) first.sees ∙ sym (changed-cons e es y.shared.outside))
        (IsUntouched-trans first rest)
