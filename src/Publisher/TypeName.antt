-- ===== src/Publisher/TypeName.antt =====
-- publisher.go and dispatcher.go: the message type that the publisher writes against the one that
-- the dispatcher registers.
use text.Mathlib.TextLemmas.{length-append}
use Prim.Native.String.{count}
use bunmq.Base.{
  String, ◌<>◌, Bool, false, ◌≡◌, ◌≢◌, refl, ap, ◌∙◌, Option, none, some, [], ◌∷◌, arith, ◌==◌,
  eq_iff, not,
}
use bunmq.Errors.{Error, is_ok}
use bunmq.GoType.{GoType, named, builtin, composite, pointer, deref, type_string}
use bunmq.Queue.{QueueDefinition}
use bunmq.Dispatcher.{DeliveryMetadata, ConsumerHandler, Dispatcher, new_dispatcher}
use bunmq.Dispatcher.Registry.{register_by_type}
use bunmq.Dispatcher.Select.{evaluate_def_by_received_msg}
use bunmq.Publisher.{wire_type}

string-ne-name : (p n : String) → p <> ("." <> n) ≢ n
string-ne-name p n e =
    absurd (omega (arith, ap count e, length-append p ("." <> n), length-append "." n, one))
  where
    one : count "." ≡ 1
    one = refl

-- Is it a type that a package defines, with its name?
abbrev pub is_defined : GoType → Bool
is_defined (named p n) = not (n == "")
is_defined _ = false

named_agrees :
    (p n : String) → (type_string (named p n) == wire_type (named p n)) ≡ not (not (n == ""))
named_agrees p n = ground (
  arith,
  eq_iff n "",
  eq_iff (p <> ("." <> n)) n,
  eq_iff (p <> ("." <> n)) (p <> ("." <> n)),
  string-ne-name p n,
)

-- The two spellings agree exactly for the types that no package defines.
pub string_agrees :
    (t : GoType) → (type_string (deref t) == wire_type t) ≡ not (is_defined (deref t))
string_agrees (named p n) = named_agrees p n
string_agrees (builtin n) = ground (arith, eq_iff n "", eq_iff n n)
string_agrees (composite s) = ground (arith, eq_iff s s)
string_agrees (pointer (named p n)) = named_agrees p n
string_agrees (pointer (builtin n)) = ground (arith, eq_iff n "", eq_iff n n)
string_agrees (pointer (composite s)) = ground (arith, eq_iff s s)
string_agrees (pointer (pointer t)) =
    ground (arith, eq_iff ("*" <> type_string t) ("*" <> type_string t))

module _ {W Payload : Type 0} (q : QueueDefinition) (t : GoType)
    (h : Option (ConsumerHandler W Payload)) (md : DeliveryMetadata) where
  -- A new dispatcher of one queue, with a consumer registered by the type `t`.
  abbrev pub registered : Option Error × Dispatcher W Payload
  registered = register_by_type q.name (some t) h (new_dispatcher (q ∷ []))

  pub route :
      q.name ≢ ""
      → (registered.0 ≡ none)
        × (is_ok (evaluate_def_by_received_msg registered.1 q md)
            ≡ (type_string (deref t) == md.typ))
  unfolding register_by_type new_dispatcher evaluate_def_by_received_msg
  route ne = ground (arith, eq_iff q.name "", eq_iff q.name q.name)

  -- A new dispatcher accepts a consumer that is registered by a type for its queue, and a message
  -- that the publisher sent with a value of that type reaches the consumer exactly if no package
  -- defines the type: the publisher writes the bare name of a defined type, the dispatcher looks
  -- for the name with its package.
  pub route-defined :
      q.name ≢ ""
      → md.typ ≡ wire_type t
      → (registered.0 ≡ none)
        × (is_ok (evaluate_def_by_received_msg registered.1 q md) ≡ not (is_defined (deref t)))
  route-defined ne e =
      let (accepted, reaches) = route ne in
      (accepted, reaches ∙ ap (λ x. type_string (deref t) == x) e ∙ string_agrees t)
