-- ===== src/Topology/Declare/Order.antt =====
-- topology.go, `DeclareAndBindings`: what was sent when it ends, and that Go's random order over
-- the map of queues does not matter to what is declared.
use mathlib.Core.Logic.{∥∥₁_elim}
use mathlib.Core.List.{Perm, Permᴰ, perm_append_comm, append_assoc}
use mathlib.Core.List.Perm
use bunmq.Base.{◌≡◌, refl, sym, ap, Option, none, some, List, [], ◌∷◌, ◌++◌, subst}
use bunmq.Errors.{Error}
use bunmq.Amqp.Channel.{AmqpChannel, Declaration}
use bunmq.Queue.{QueueDefinition}
use bunmq.Topology.{Topology}
use bunmq.Topology.Declare.{declare_and_bindings}
use bunmq.Topology.Declare.Plan.{carry_out, queue_plan, queues_plan, plan, declare-carries_out}

module _ {W : Type 0} (ch : AmqpChannel W) where
  -- How a run over declarations from an outside state ended, with its error, the calls that it made
  -- and the outside state: a call is made behind those that the channel answered without an error,
  -- and the first error that it answers ends the run.
  pub data Ended : List Declaration → W → Option Error → List Declaration → W → Type 0 where
    completed : {w : W} → Ended [] w none [] w
    failed :
        {x : Declaration} {xs : List Declaration} {w w' : W} {e : Error}
        → ch.declare x w ≡ (some e, w')
        → Ended (x ∷ xs) w (some e) (x ∷ []) w'
    accepted :
        {x : Declaration} {xs ds : List Declaration} {w w' w'' : W} {e : Option Error}
        → ch.declare x w ≡ (none, w')
        → Ended xs w' e ds w''
        → Ended (x ∷ xs) w e (x ∷ ds) w''

  carry_out-Ended :
      (xs : List Declaration) (w : W) → let (e, ds, w') = carry_out ch xs w in Ended xs w e ds w'
  unfolding carry_out
  carry_out-Ended [] w = completed
  carry_out-Ended (x ∷ xs) w =
      go (ch.declare x w).0 (ch.declare x w).1 refl (carry_out-Ended xs (ch.declare x w).1)
    where
      go :
          (o : Option Error) (w' : W)
          → ch.declare x w ≡ (o, w')
          → (let (e, ds, w'') = carry_out ch xs w' in Ended xs w' e ds w'')
          → let (e, ds, w'') = elim o as (λ x. Option Error × List Declaration × W) [
            | some z ↦ (some z, x ∷ [], w')
            | none ↦ let (e', ds', w'') = carry_out ch xs w' in (e', x ∷ ds', w'')
          ] in
            Ended (x ∷ xs) w e ds w''
      go (some z) w' e ih = failed e
      go none w' e ih = accepted e ih

  -- `DeclareAndBindings` on a channel makes the calls of its plan in order, each but the first only
  -- when the channel has answered the one before without an error. The first error that the
  -- channel answers is returned, right behind that call; no error is returned exactly when every
  -- call of the plan was made and answered without one.
  pub declare-Ended :
      (order : List QueueDefinition) (t : Topology) (w : W)
      → let (e, ds, w') = declare_and_bindings (some ch) order t w in Ended (plan order t) w e ds w'
  declare-Ended order t w =
      subst (λ r. Ended (plan order t) w r.0 r.1 r.2) (sym (declare-carries_out ch order t w))
        (carry_out-Ended (plan order t) w)

  -- A run without an error has made every call.
  pub completed-all :
      {xs ds : List Declaration} {w w' : W} {e : Option Error}
      → Ended xs w e ds w'
      → e ≡ none
      → ds ≡ xs
  completed-all completed h = refl
  completed-all (failed p) h = cc
  completed-all (accepted {x} p r) h = ap (λ l. x ∷ l) (completed-all r h)

perm-append_swap : (xs ys zs : List Declaration) → Perm (xs ++ (ys ++ zs)) (ys ++ (xs ++ zs))
perm-append_swap xs ys zs =
    subst (λ l. Perm l (ys ++ (xs ++ zs))) (append_assoc xs ys zs)
      (subst (λ l. Perm ((xs ++ ys) ++ zs) l) (append_assoc ys xs zs)
        (Perm.append (perm_append_comm xs ys) (Perm.refl zs)))

queues_plan-perm :
    {qs rs : List QueueDefinition} → Permᴰ qs rs → Perm (queues_plan qs) (queues_plan rs)
queues_plan-perm Permᴰ.nil = Perm.refl []
queues_plan-perm (Permᴰ.cons {a = a} e p) =
    Perm.append (subst (λ x. Perm (queue_plan a) (queue_plan x)) e (Perm.refl (queue_plan a)))
      (queues_plan-perm p)
queues_plan-perm (Permᴰ.swap {a = a} {b = b} {l = l} e f) =
    subst
      (λ x.
        Perm (queue_plan a ++ (queue_plan b ++ queues_plan l))
          (queue_plan x.0 ++ (queue_plan x.1 ++ queues_plan l)))
      (both e f) (perm-append_swap (queue_plan a) (queue_plan b) (queues_plan l))
  where
    both :
        {a b c d : QueueDefinition}
        → a ≡ d
        → b ≡ c
        → ◌≡◌ {A = QueueDefinition × QueueDefinition} (b, a) (c, d)
    both p q = λ i. (q i, p i)
queues_plan-perm (Permᴰ.trans p r) = Perm.trans (queues_plan-perm p) (queues_plan-perm r)

-- Over any two orders of the same queues the plans hold the same declarations.
plan-perm :
    (t : Topology) {qs rs : List QueueDefinition} → Perm qs rs → Perm (plan qs t) (plan rs t)
plan-perm t p =
    ∥∥₁_elim p squash₁
      (λ d. Perm.append (Perm.refl _) (Perm.append (queues_plan-perm d) (Perm.refl _)))

-- Two runs over the same queues in any two orders, on any two channels, that both return no error
-- have sent the same declarations, each as often, in some order.
pub declare-perm :
    {W : Type 0} (ch ch' : AmqpChannel W) (t : Topology) {qs rs : List QueueDefinition} (w v : W)
    → Perm qs rs
    → (declare_and_bindings (some ch) qs t w).0 ≡ none
    → (declare_and_bindings (some ch') rs t v).0 ≡ none
    → Perm (declare_and_bindings (some ch) qs t w).1 (declare_and_bindings (some ch') rs t v).1
declare-perm ch ch' t {qs} {rs} w v p e f =
    let xs = completed-all ch (declare-Ended ch qs t w) e in
    let ys = completed-all ch' (declare-Ended ch' rs t v) f in rw xs (rw ys (plan-perm t p))
