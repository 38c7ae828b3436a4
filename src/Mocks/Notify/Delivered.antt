-- ===== src/Mocks/Notify/Delivered.antt =====
-- mocks.go, the loops of `TriggerClose` and `TriggerCancel`: what each Go channel gets.
use Prim.Native.Nat.{min}
use mathlib.Core.List.{append_assoc, append-nil}
use bunmq.Base.{
  eqb→eq, ℕ, zero, suc, ◌+◌, ◌-◌, ◌≤◌, Bool, true, false, ◌≡◌, refl, sym, ap, ◌∙◌, Option, none,
  some, List, [], ◌∷◌, ◌++◌, arith, eqb, ltb, ◌<◌, ◌⊎◌, inl, inr, subst, if_lem, Bool-cases, ◌||◌,
  if◌then◌else◌,
}
use bunmq.Base.Lists.{length, length-append, replicate}
use bunmq.Mocks.Notify.{GoChan, Store, send, update, notify_all}

-- How often a Go channel is registered.
abbrev pub times : ℕ → List (Option ℕ) → ℕ
times j [] = 0
times j (none ∷ hs) = times j hs
times j (some h ∷ hs) = (if eqb h j then 1 else 0) + times j hs

ℕ-cases : (n : ℕ) → (n ≡ 0) ⊎ ((k : ℕ) × (n ≡ suc k))
ℕ-cases zero = inl refl
ℕ-cases (suc k) = inr (k, refl)

module _ {A : Type 0} where
  -- `c'` is `c` after `n` offers of `v`: first the goroutines that wait get one each, then the buffer
  -- fills up to its capacity, and the other offers are lost.
  pub record Delivers (v : A) (n : ℕ) (c c' : GoChan A) : Type 0 where
    pub handed : c'.taken ≡ c.taken ++ replicate (min n c.waiting) v
    pub buffered :
        c'.buffer ≡ c.buffer ++ replicate (min (n - c.waiting) (c.capacity - length c.buffer)) v
    pub left : c'.waiting ≡ c.waiting - n
    pub same_capacity : c'.capacity ≡ c.capacity
    pub same_closed : c'.closed ≡ c.closed

  Delivers-none : (v : A) (c : GoChan A) → Delivers v 0 c c
  Delivers-none v c = ground (arith, append-nil c.taken, append-nil c.buffer)

  append-replicate :
      (xs : List A) (v : A) (k : ℕ) {n : ℕ}
      → n ≡ suc k
      → (xs ++ v ∷ []) ++ replicate k v ≡ xs ++ replicate n v
  append-replicate xs v k e =
      append_assoc xs (v ∷ []) (replicate k v) ∙ ap (λ j. xs ++ replicate j v) (sym e)

  -- An offer and those behind it, by where it goes: to a goroutine, into the buffer, or nowhere.
  Delivers-taken :
      (v : A) (n k : ℕ) (c c' : GoChan A)
      → c.waiting ≡ suc k
      → Delivers v n (record c { waiting = k; taken = c.taken ++ v ∷ [] }) c'
      → Delivers v (suc n) c c'
  Delivers-taken v n k c c' e d = record {
    handed = d.handed ∙ append-replicate c.taken v (min n k) (omega arith);
    buffered = d.buffered ∙ ap (λ j. c.buffer ++ replicate j v) (omega arith);
    left = omega (arith, d.left);
    same_capacity = d.same_capacity;
    same_closed = d.same_closed;
  }

  Delivers-buffered :
      (v : A) (n : ℕ) (c c' : GoChan A)
      → c.waiting ≡ 0
      → length c.buffer < c.capacity
      → Delivers v n (record c { buffer = c.buffer ++ v ∷ [] }) c'
      → Delivers v (suc n) c c'
  Delivers-buffered v n c c' e lt d = record {
    handed = d.handed ∙ ap (λ j. c.taken ++ replicate j v) (omega arith);
    buffered =
        d.buffered ∙ append-replicate c.buffer v _ (omega (arith, length-append c.buffer (v ∷ [])));
    left = omega (arith, d.left);
    same_capacity = d.same_capacity;
    same_closed = d.same_closed;
  }

  Delivers-lost :
      (v : A) (n : ℕ) (c c' : GoChan A)
      → c.waiting ≡ 0
      → c.capacity ≤ length c.buffer
      → Delivers v n c c'
      → Delivers v (suc n) c c'
  Delivers-lost v n c c' e le d = record {
    handed = d.handed ∙ ap (λ j. c.taken ++ replicate j v) (omega arith);
    buffered = d.buffered ∙ ap (λ j. c.buffer ++ replicate j v) (omega arith);
    left = omega (arith, d.left);
    same_capacity = d.same_capacity;
    same_closed = d.same_closed;
  }

  send_waiting :
      (v : A) (c : GoChan A) {k : ℕ}
      → c.waiting ≡ suc k
      → send v c ≡ record c { waiting = k; taken = c.taken ++ v ∷ [] }
  unfolding send
  send_waiting v c e = ground arith

  send_room :
      (v : A) (c : GoChan A)
      → c.waiting ≡ 0
      → ltb (length c.buffer) c.capacity ≡ true
      → send v c ≡ record c { buffer = c.buffer ++ v ∷ [] }
  unfolding send
  send_room v c e lt = ground arith

  send_full :
      (v : A) (c : GoChan A)
      → c.waiting ≡ 0
      → ltb (length c.buffer) c.capacity ≡ false
      → send v c ≡ c
  unfolding send
  send_full v c e ge = ground arith

  Delivers-send :
      (v : A) (n : ℕ) (c c' : GoChan A) → Delivers v n (send v c) c' → Delivers v (suc n) c c'
  Delivers-send v n c c' d = elim (ℕ-cases c.waiting) [
    | inl e ↦ elim (Bool-cases (ltb (length c.buffer) c.capacity)) [
      | inl lt ↦
          Delivers-buffered v n c c' e (ground arith)
            (subst (λ x. Delivers v n x c') (send_room v c e lt) d)
      | inr ge ↦
          Delivers-lost v n c c' e (ground arith)
            (subst (λ x. Delivers v n x c') (send_full v c e ge) d)
    ]
    | inr (k, e) ↦
        Delivers-taken v n k c c' e (subst (λ x. Delivers v n x c') (send_waiting v c e) d)
  ]

  send-closed : (v : A) (c : GoChan A) → (send v c).closed ≡ c.closed
  unfolding send
  send-closed v c = ground arith

  -- Is one of the registered Go channels closed?
  abbrev pub any_closed : List (Option ℕ) → Store A → Bool
  any_closed [] st = false
  any_closed (none ∷ hs) st = any_closed hs st
  any_closed (some h ∷ hs) st = (st h).closed || any_closed hs st

  any_closed-update :
      (v : A) (h : ℕ) (hs : List (Option ℕ)) (st : Store A)
      → any_closed hs (update st h (send v (st h))) ≡ any_closed hs st
  any_closed-update v h [] st = refl
  any_closed-update v h (none ∷ hs) st = any_closed-update v h hs st
  any_closed-update v h (some j ∷ hs) st =
      ground (arith, any_closed-update v h hs st, send-closed v (st h), eqb→eq h j)

  -- How a loop over the registered Go channels ends: all are notified, or it panics.
  abbrev pub Notifies : A → List (Option ℕ) → Store A → Option (Store A) → Type 0
  Notifies v hs st none = any_closed hs st ≡ true
  Notifies v hs st (some st') =
      (any_closed hs st ≡ false) × ((j : ℕ) → Delivers v (times j hs) (st j) (st' j))

  Delivers-update :
      (v : A) (h j : ℕ) (b : Bool) (n : ℕ) (st : Store A) (c : GoChan A)
      → (b ≡ true → h ≡ j)
      → Delivers v n (if b then send v (st h) else st j) c
      → Delivers v ((if b then 1 else 0) + n) (st j) c
  Delivers-update v h j true n st c same d =
      subst (λ k. Delivers v k (st j) c) (omega arith)
        (Delivers-send v n (st j) c (subst (λ k. Delivers v n (send v (st k)) c) (same refl) d))
  Delivers-update v h j false n st c same d = subst (λ k. Delivers v k (st j) c) (omega arith) d

  Notifies-cons :
      (v : A) (h : ℕ) (hs : List (Option ℕ)) (st : Store A) (r : Option (Store A))
      → (st h).closed ≡ false
      → Notifies v hs (update st h (send v (st h))) r
      → Notifies v (some h ∷ hs) st r
  Notifies-cons v h hs st none e n = ground (arith, any_closed-update v h hs st)
  Notifies-cons v h hs st (some st') e n = (
    ground (arith, any_closed-update v h hs st, n.0),
    λ j. Delivers-update v h j (eqb h j) (times j hs) st (st' j) (eqb→eq h j) (n.1 j),
  )

  -- The panic comes at the first Go channel that is closed.
  closed_ends :
      (v : A) (h : ℕ) (hs : List (Option ℕ)) (st : Store A)
      → (st h).closed ≡ true
      → Notifies v (some h ∷ hs) st none
  closed_ends v h hs st e = ground arith

  notify_all-cons :
      (v : A) (h : ℕ) (hs : List (Option ℕ)) (st : Store A)
      → notify_all v (some h ∷ hs) st
        ≡ (if (st h).closed then none else notify_all v hs (update st h (send v (st h))))
  unfolding notify_all
  notify_all-cons v h hs st = ground arith

  -- `TriggerClose` and `TriggerCancel` panic exactly where a registered Go channel is closed.
  -- Otherwise each Go channel is offered the value as often as it is registered, and gets what the
  -- goroutines waiting for it and the room in its buffer allow; what is beyond that is lost, and a Go
  -- channel that is not registered is as before.
  pub notify_all-Notifies :
      (v : A) (hs : List (Option ℕ)) (st : Store A) → Notifies v hs st (notify_all v hs st)
  unfolding notify_all
  notify_all-Notifies v [] st = (refl, λ j. Delivers-none v (st j))
  notify_all-Notifies v (none ∷ hs) st = notify_all-Notifies v hs st
  notify_all-Notifies v (some h ∷ hs) st =
      subst (Notifies v (some h ∷ hs) st) (sym (notify_all-cons v h hs st)) (
        if_lem (Notifies v (some h ∷ hs) st) (st h).closed (closed_ends v h hs st) (λ e.
          Notifies-cons v h hs st _ e (notify_all-Notifies v hs (update st h (send v (st h))))))
