-- ===== src/Mocks/Notify.antt =====
-- mocks.go, the loops of `TriggerClose` and `TriggerCancel`: a value is offered to each registered
-- Go channel, and a channel that can not take it at once is passed over.
pub mod Delivered
use bunmq.Base.{ℕ, zero, suc, Bool, Option, none, some, List, [], ◌∷◌, ◌++◌, ltb, eqb}
use bunmq.Base.{if◌then◌else◌}
use bunmq.Base.Lists.{length}

-- A Go channel: its buffer, the goroutines that wait to receive from it, and what was handed to
-- such goroutines so far.
pub record GoChan (A : Type 0) : Type 0 where
  pub capacity : ℕ
  pub buffer : List A
  pub waiting : ℕ
  pub taken : List A
  pub closed : Bool

module _ {A : Type 0} where
  -- A send that does not block: to a waiting goroutine, else into the buffer, else not at all.
  send : A → GoChan A → GoChan A
  send v c = elim c.waiting [
    | suc n ↦ record c { waiting = n; taken = c.taken ++ v ∷ [] }
    | zero ↦
        if ltb (length c.buffer) c.capacity then record c { buffer = c.buffer ++ v ∷ [] } else c
  ]

  -- `select { case ch <- v: default: }`; a send on a closed channel panics, `none`.
  abbrev offer : A → GoChan A → Option (GoChan A)
  offer v c = if c.closed then none else some (send v c)

  abbrev pub update : (ℕ → A) → ℕ → A → ℕ → A
  update f i a j = if eqb i j then a else f j

-- The Go channels of a type, by pointer.
abbrev pub Store : Type 0 → Type 0
Store A = ℕ → GoChan A

module _ {A : Type 0} where
  -- `for _, ch := range channels { select { … } }`. A nil channel is never ready.
  unfoldable pub notify_all : A → List (Option ℕ) → Store A → Option (Store A)
  unfolding send
  notify_all v [] st = some st
  notify_all v (none ∷ hs) st = notify_all v hs st
  notify_all v (some h ∷ hs) st = elim (offer v (st h)) [
    | none ↦ none
    | some c ↦ notify_all v hs (update st h c)
  ]
