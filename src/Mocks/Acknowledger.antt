-- ===== src/Mocks/Acknowledger.antt =====
-- mocks.go, `MockAcknowledger`: a test's functions in place of the broker, over its state `W`.
use bunmq.Base.{ℕ, Bool, false, Option, none, some}
use bunmq.Errors.{Error}

-- A function that is not set is `none`.
pub record MockAcknowledger (W : Type 0) : Type 0 where
  pub ack_func : Option ((multiple : Bool) → W → Option Error × W)
  pub nack_func : Option ((multiple requeue : Bool) → W → Option Error × W)

module _ {W : Type 0} where
  unfoldable pub ack : (tag : ℕ) (multiple : Bool) → MockAcknowledger W → W → Option Error × W
  ack tag multiple m w = elim m.ack_func [ some f ↦ f multiple w | none ↦ (none, w) ]

  unfoldable pub nack :
      (tag : ℕ) (multiple requeue : Bool) → MockAcknowledger W → W → Option Error × W
  nack tag multiple requeue m w = elim m.nack_func [
    | some f ↦ f multiple requeue w
    | none ↦ (none, w)
  ]

  unfoldable pub reject : (tag : ℕ) (requeue : Bool) → MockAcknowledger W → W → Option Error × W
  reject tag requeue m w = elim m.nack_func [ some f ↦ f false requeue w | none ↦ (none, w) ]
