-- ===== src/Dispatcher/System/Places.antt =====
-- dispatcher.go, `ConsumeBlocking`: the goroutine at a place of the list.
use bunmq.Base.{ℕ, zero, suc, Option, none, some, List, [], ◌∷◌}
use bunmq.Dispatcher.System.{Phase, Thread}

module _ {V : Type 0} where
  -- The goroutine at a place, if there is one, and the list with its phase replaced.
  abbrev pub thread_at : ℕ → List (Thread V) → Option (Thread V)
  thread_at n [] = none
  thread_at zero (t ∷ ts) = some t
  thread_at (suc n) (t ∷ ts) = thread_at n ts

  abbrev pub moved : ℕ → Phase V → List (Thread V) → List (Thread V)
  moved n p [] = []
  moved zero p (t ∷ ts) = (t.0, p) ∷ ts
  moved (suc n) p (t ∷ ts) = t ∷ moved n p ts
