-- ===== src/Topology/Declare/Mocked.antt =====
-- topology.go and mocks.go: what `DeclareAndBindings` answers on a mock channel, and which
-- arguments the mock has captured.
use bunmq.Base.{
  ℕ, String, ◌≡◌, refl, sym, ap, subst, Option, none, some, List, [], ◌∷◌, ◌==◌, arith,
  if◌then◌else◌,
}
use bunmq.Base.Dict.{lookup, lookup-insert}
use bunmq.Errors.{Error}
use bunmq.Amqp.Table.{Table}
use bunmq.Amqp.Channel.{Declaration, exchange_declare, queue_declare, queue_bind, exchange_bind}
use bunmq.Queue.{QueueDefinition}
use bunmq.Topology.{Topology}
use bunmq.Topology.Declare.{declare_and_bindings}
use bunmq.Topology.Declare.Plan.{carry_out, plan, declare-carries_out}
use bunmq.Mocks.Channel.{MockChannel}
use bunmq.Mocks.World.{World, mock_channel}

-- The error that is set for a call.
abbrev pub error_for : MockChannel → Declaration → Option Error
error_for m (exchange_declare n k d a i nw args) = m.exchange_declare_error
error_for m (exchange_bind d k s nw args) = m.exchange_bind_error
error_for m (queue_bind n k x nw args) = m.queue_bind_error
error_for m (queue_declare n d a e nw args) = m.queue_declare_error

-- The first call that fails, and those before it.
abbrev pub first_error : MockChannel → List Declaration → Option Error
first_error m [] = none
first_error m (x ∷ xs) = elim (error_for m x) [ some e ↦ some e | none ↦ first_error m xs ]

abbrev pub accepted : MockChannel → List Declaration → List Declaration
accepted m [] = []
accepted m (x ∷ xs) = elim (error_for m x) [ some e ↦ [] | none ↦ x ∷ accepted m xs ]

-- The arguments of the last declaration of a queue.
abbrev pub last_args : String → List Declaration → Option Table
last_args n [] = none
last_args n (queue_declare j d a e nw args ∷ xs) = elim (last_args n xs) [
  | some t ↦ some t
  | none ↦ if j == n then some args else none
]
last_args n (exchange_declare j k d a i nw args ∷ xs) = last_args n xs
last_args n (exchange_bind d k s nw args ∷ xs) = last_args n xs
last_args n (queue_bind j k x nw args ∷ xs) = last_args n xs

abbrev pub or_else : {A : Type 0} → Option A → Option A → Option A
or_else (some a) b = some a
or_else none b = b

-- A mock after such calls: all but the captured arguments is as before, and it has captured those of
-- the queues that were accepted.
pub record Captures (n : String) (xs : List Declaration) (m m' : MockChannel) : Type 0 where
  pub same : m' ≡ record m { declared_args = m'.declared_args }
  pub captured :
      lookup n m'.declared_args ≡ or_else (last_args n (accepted m xs)) (lookup n m.declared_args)

Captures-none : (n : String) (m : MockChannel) → Captures n [] m m
Captures-none n m = ground arith

error_for-same :
    {n : String} {xs : List Declaration} {m m' : MockChannel} (x : Declaration)
    → Captures n xs m m'
    → error_for m' x ≡ error_for m x
error_for-same (exchange_declare j k d a i nw args) c = ap (λ x. x.exchange_declare_error) c.same
error_for-same (exchange_bind d k s nw args) c = ap (λ x. x.exchange_bind_error) c.same
error_for-same (queue_bind j k x nw args) c = ap (λ x. x.queue_bind_error) c.same
error_for-same (queue_declare j d a e nw args) c = ap (λ x. x.queue_declare_error) c.same

first_error-same :
    {n : String} {ys : List Declaration} {m m' : MockChannel} (xs : List Declaration)
    → Captures n ys m m'
    → (first_error m' xs ≡ first_error m xs) × (accepted m' xs ≡ accepted m xs)
first_error-same [] c = (refl, refl)
first_error-same (x ∷ xs) c = ground (arith, error_for-same x c, first_error-same xs c)

Captures-cons :
    (n : String) (x : Declaration) (xs : List Declaration) (m m' m'' : MockChannel)
    → error_for m x ≡ none
    → Captures n (x ∷ []) m m'
    → Captures n xs m' m''
    → Captures n (x ∷ xs) m m''
Captures-cons n (exchange_declare j k d a i nw args) xs m m' m'' free c b =
    ground (arith, first_error-same xs c)
Captures-cons n (exchange_bind d k s nw args) xs m m' m'' free c b =
    ground (arith, first_error-same xs c)
Captures-cons n (queue_bind j k x nw args) xs m m' m'' free c b =
    ground (arith, first_error-same xs c)
Captures-cons n (queue_declare j d a e nw args) xs m m' m'' free c b =
    ground (arith, first_error-same xs c)

Captures-stopped :
    (n : String) (x : Declaration) (xs : List Declaration) (m m' : MockChannel) {e : Error}
    → error_for m x ≡ some e
    → Captures n (x ∷ []) m m'
    → Captures n (x ∷ xs) m m'
Captures-stopped n x xs m m' e c = record { same = c.same; captured = ground (arith, c.captured) }

module _ {Tls : Type 0} (p : ℕ) (n : String) where
  declare_one :
      (x : Declaration) (w : World Tls)
      → let (e, w') = (mock_channel p).declare x w in
        (e ≡ error_for (w.channels p) x) × Captures n (x ∷ []) (w.channels p) (w'.channels p)
  declare_one (exchange_declare j k d a i nw args) w = ground arith
  declare_one (exchange_bind d k s nw args) w = ground arith
  declare_one (queue_bind j k x nw args) w = ground arith
  declare_one (queue_declare j d a e nw args) w =
      ground (arith, lookup-insert j n args (w.channels p).declared_args)

  carry_out-Captures :
      (xs : List Declaration) (w : World Tls)
      → let (e, ds, w') = carry_out (mock_channel p) xs w in
        (e ≡ first_error (w.channels p) xs) × Captures n xs (w.channels p) (w'.channels p)
  unfolding carry_out
  carry_out-Captures [] w = (refl, Captures-none n (w.channels p))
  carry_out-Captures (x ∷ xs) w =
      let (answer, one) = declare_one x w in
      let (e, w') = (mock_channel p).declare x w in go e w' answer one (carry_out-Captures xs w')
    where
      go :
          (o : Option Error) (w' : World Tls)
          → o ≡ error_for (w.channels p) x
          → Captures n (x ∷ []) (w.channels p) (w'.channels p)
          → (let (e, ds, w'') = carry_out (mock_channel p) xs w' in
              (e ≡ first_error (w'.channels p) xs) × Captures n xs (w'.channels p) (w''.channels p))
          → let (e, ds, w'') = elim o as (λ x. Option Error × List Declaration × World Tls) [
            | some z ↦ (some z, x ∷ [], w')
            | none ↦ let (e', ds', w'') = carry_out (mock_channel p) xs w' in (e', x ∷ ds', w'')
          ] in
            (e ≡ first_error (w.channels p) (x ∷ xs))
            × Captures n (x ∷ xs) (w.channels p) (w''.channels p)
      go (some z) w' e one rest =
          (ground arith, Captures-stopped n x xs (w.channels p) (w'.channels p) (sym e) one)
      go none w' e one rest = (
        ground (arith, first_error-same xs one, rest.0),
        Captures-cons n x xs (w.channels p) (w'.channels p) _ (sym e) one rest.1,
      )

  -- `DeclareAndBindings` on a mock channel returns the error that is set for the first call of the
  -- plan that has one, and none where no call has; then the mock holds, under the name of a queue,
  -- the arguments of the queue's last declaration in the plan before that call, and what it held
  -- before where the queue was not declared, and everything else in the mock is as before.
  pub declare-Captures :
      (order : List QueueDefinition) (t : Topology) (w : World Tls)
      → let (e, ds, w') = declare_and_bindings (some (mock_channel p)) order t w in
        (e ≡ first_error (w.channels p) (plan order t))
        × Captures n (plan order t) (w.channels p) (w'.channels p)
  declare-Captures order t w =
      subst
        (λ (r : Option Error × List Declaration × World Tls).
          (r.0 ≡ first_error (w.channels p) (plan order t))
          × Captures n (plan order t) (w.channels p) (r.2.channels p))
        (sym (declare-carries_out (mock_channel p) order t w)) (carry_out-Captures (plan order t) w)
