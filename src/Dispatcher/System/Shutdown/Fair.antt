-- ===== src/Dispatcher/System/Shutdown/Fair.antt =====
-- dispatcher.go, `ConsumeBlocking`: each goroutine ends after the signal.
use bunmq.Base.{
  ℕ, suc, ◌+◌, ◌-◌, ◌≤◌, String, true, false, ◌≡◌, refl, subst, if_lem, ap, ◌∙◌, ◌⊎◌, inl, inr,
  some, List, [], ◌∷◌, arith, if◌then◌else◌,
}
use bunmq.Errors.{Result}
use bunmq.GoType.{GoType}
use bunmq.Queue.{QueueDefinition}
use bunmq.Dispatcher.{Manager, Dispatcher}
use bunmq.Dispatcher.Metadata.{returned, panicked}
use bunmq.Dispatcher.System.{
  Phase, checking, connecting, dropping, ended, opening, storing, receiving, Thread, Step, System,
  Event, turn, signal, change, advance_at, happen, took, run,
}
use bunmq.Dispatcher.System.Places.{thread_at}
use bunmq.Dispatcher.System.Shutdown.Bounds.{
  same_place, IsBounded, KeepsFlag, StepBounds, bound, advance_at-KeepsFlag, advance_at-StepBounds,
}
use bunmq.Dispatcher.System.Shutdown.{pending, IsWinding, live}

-- How often a schedule has the goroutine at a place act.
abbrev pub turns_of : {V : Type 0} → ℕ → List (Event V) → ℕ
turns_of n [] = 0
turns_of n (turn m ∷ es) = let rest = turns_of n es in if same_place m n then suc rest else rest
turns_of n (signal ∷ es) = turns_of n es
turns_of n (change w ∷ es) = turns_of n es

module _ {V Payload : Type 0} (manager : Manager V) (unmarshal : String → GoType → Result Payload)
    (s : Dispatcher V Payload) where
  -- The program has crashed, or the goroutine is winding down with so many actions left.
  abbrev Ends : ℕ → QueueDefinition → ℕ → System V Payload → Type 0
  Ends n q k y = (y.crashed ≡ true) ⊎ ((y.shared.consuming ≡ false) × IsBounded n q k y.threads)

  one_less : (p : Phase V) (k : ℕ) → IsWinding p → pending p ≤ k → pending p - live p ≤ k - 1
  one_less checking k v b = omega (arith, b)
  one_less connecting k v b = absurd v
  one_less dropping k v b = omega (arith, b)
  one_less ended k v b = omega arith
  one_less (opening ch) k v b = absurd v
  one_less (storing ds closes) k v b = omega (arith, b)
  one_less (receiving [] true) k v b = omega (arith, b)
  one_less (receiving [] false) k v b = omega arith
  one_less (receiving (d ∷ ds) true) k v b = omega (arith, b)
  one_less (receiving (d ∷ ds) false) k v b = omega (arith, b)

  bound_le :
      (m n k : ℕ) (p : Phase V)
      → IsWinding p
      → pending p ≤ k
      → bound m n p ≤ k - turns_of {V = V} n (turn m ∷ [])
  bound_le m n k p v b =
      if_lem (λ (x : ℕ). x ≤ k - turns_of {V = V} n (turn m ∷ [])) (same_place m n)
        (λ e. rw e (one_less p k v b)) (λ e. rw e (omega (arith, b)))

  took-Ends :
      (m n k : ℕ) (q : QueueDefinition) (y : System V Payload) (p : Phase V)
      (r : Step V Payload (List (Thread V)))
      → bound m n p ≤ k
      → StepBounds n q (bound m n p) r
      → KeepsFlag y.shared r
      → y.shared.consuming ≡ false
      → Ends n q k (took manager unmarshal s y r)
  took-Ends m n k q y p (returned ts, j, acts, h) le (p', at, v, b) f c =
      inr (f ∙ c, (p', at, v, omega (arith, le, b)))
  took-Ends m n k q y p (panicked, j, acts, h) le b f c = inl refl

  happen-Ends :
      (e : Event V) (n k : ℕ) (q : QueueDefinition) (y : System V Payload)
      → Ends n q k y
      → Ends n q (k - turns_of n (e ∷ [])) (happen manager unmarshal s e y)
  unfolding happen
  happen-Ends (turn m) n k q y (inl e) =
      if_lem (Ends n q (k - turns_of {V = V} n (turn m ∷ []))) y.crashed (λ _. inl e)
        (λ f. cc (e, f))
  happen-Ends (turn m) n k q y (inr (c, (p, at, v, b))) =
      if_lem (Ends n q (k - turns_of {V = V} n (turn m ∷ []))) y.crashed (λ e. inl e)
        (λ _.
          took-Ends m n (k - turns_of {V = V} n (turn m ∷ [])) q y p
            (advance_at manager unmarshal s m y.threads y.shared) (bound_le m n k p v b)
            (advance_at-StepBounds manager unmarshal s m n y.threads y.shared q p c at v)
            (advance_at-KeepsFlag manager unmarshal s m y.threads y.shared) c)
  happen-Ends signal n k q y (inl e) = inl e
  happen-Ends signal n k q y (inr (c, (p, at, v, b))) = inr (refl, (p, at, v, omega (arith, b)))
  happen-Ends (change w) n k q y (inl e) = inl e
  happen-Ends (change w) n k q y (inr (c, (p, at, v, b))) = inr (c, (p, at, v, omega (arith, b)))

  turns_of-cons :
      (e : Event V) (es : List (Event V)) (n : ℕ)
      → turns_of n (e ∷ es) ≡ turns_of n (e ∷ []) + turns_of n es
  turns_of-cons (turn m) es n = ground arith
  turns_of-cons signal es n = omega arith
  turns_of-cons (change w) es n = omega arith

  run-Ends :
      (es : List (Event V)) (n k : ℕ) (q : QueueDefinition) (y : System V Payload)
      → Ends n q k y
      → Ends n q (k - turns_of n es) (run manager unmarshal s es y)
  unfolding run
  run-Ends [] n k q y v = subst (λ j. Ends n q j y) (omega arith) v
  run-Ends (e ∷ es) n k q y v =
      subst (λ j. Ends n q j (run manager unmarshal s es (happen manager unmarshal s e y)))
        (omega (arith, turns_of-cons e es n))
        (run-Ends es n (k - turns_of n (e ∷ [])) q (happen manager unmarshal s e y)
          (happen-Ends e n k q y v))

  -- A goroutine that has no action left has ended, or waits at a Go channel that stays open.
  has_ended : (p : Phase V) → IsWinding p → pending p ≤ 0 → (p ≡ ended) ⊎ (p ≡ receiving [] false)
  has_ended ended v b = inl refl
  has_ended checking v b = absurd (omega (arith, b))
  has_ended connecting v b = absurd v
  has_ended dropping v b = absurd (omega (arith, b))
  has_ended (opening ch) v b = absurd v
  has_ended (storing ds closes) v b = absurd (omega (arith, b))
  has_ended (receiving [] true) v b = absurd (omega (arith, b))
  has_ended (receiving [] false) v b = inr refl
  has_ended (receiving (d ∷ ds) true) v b = absurd (omega (arith, b))
  has_ended (receiving (d ∷ ds) false) v b = absurd (omega (arith, b))

  -- After the signal, where a goroutine has not begun to connect: in every schedule in which it has
  -- as many turns as it has actions left, which are its remaining deliveries and at most four more,
  -- it ends, or it waits with no delivery left at a Go channel that is never closed, whatever the
  -- other goroutines do and whatever changes outside, unless a panic ends the program first.
  pub stopped-ends :
      (es : List (Event V)) (n : ℕ) (q : QueueDefinition) (p : Phase V) (y : System V Payload)
      → y.shared.consuming ≡ false
      → thread_at n y.threads ≡ some (q, p)
      → IsWinding p
      → pending p ≤ turns_of n es
      → let y' = run manager unmarshal s es y in
        (y'.crashed ≡ true)
        ⊎ (thread_at n y'.threads ≡ some (q, ended))
        ⊎ (thread_at n y'.threads ≡ some (q, receiving [] false))
  stopped-ends es n q p y c at v enough =
      elim (run-Ends es n (pending p) q y (inr (c, (p, at, v, omega arith)))) [
        | inl e ↦ inl e
        | inr (_, (p', at', v', b)) ↦ inr (elim (has_ended p' v' (omega (arith, b, enough))) [
          | inl e ↦ inl (at' ∙ ap (λ a. some (q, a)) e)
          | inr e ↦ inr (at' ∙ ap (λ a. some (q, a)) e)
        ])
      ]
