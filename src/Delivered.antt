-- ===== src/Delivered.antt =====
-- publisher.go and dispatcher.go: a message on its way from a method of the publisher through the
-- broker to the handler that is registered for its type.
pub mod Unheard
pub mod Traced
use bunmq.Base.{
  String, Bool, true, false, ◌≡◌, ◌≢◌, ◌↔◌, refl, sym, ap, ◌∙◌, subst, ◌⊎◌, inl, inr, Option, none,
  some, List, [], ◌∷◌, arith, ◌==◌, eq_iff, not,
}
use bunmq.Base.Int.{pos, ◌<ℤ◌}
use bunmq.Base.Lists.{All, IsIn, only}
use bunmq.Errors.{Result, ok}
use bunmq.GoType.{GoType, deref, type_string}
use bunmq.Queue.{QueueDefinition}
use bunmq.Amqp.Table.{lookup}
use bunmq.Amqp.Channel.{Delivery}
use bunmq.Dispatcher.{
  DeliveryMetadata, Manager, ConsumerHandler, ConsumerDefinition, by_type, Dispatcher,
  new_dispatcher,
}
use bunmq.Dispatcher.Registry.{register_by_type}
use bunmq.Dispatcher.Metadata.{returned, panicked, metadata, extract_metadata}
use bunmq.Dispatcher.Select.{evaluate_def_by_received_msg}
use bunmq.Dispatcher.Process.{handle, process_received_message}
use bunmq.Dispatcher.Process.Settlement.{handles}
use bunmq.Dispatcher.Process.Fate.{IsDue, process-handles}
use bunmq.Publisher.{Sent, Outside, wire_type}
use bunmq.Publisher.Sending.{Carries}
use bunmq.Publisher.TypeName.{is_defined, registered, string_agrees}
use bunmq.Publisher.Captured.Methods.{Method, run}
use bunmq.Publisher.Captured.Methods.Targets.{to_exchange, with_key, with_options, waits, run-Sends}

-- What the broker documents of the first delivery of a message: the message, and where it was sent.
pub record Arrives (s : Sent) (d : Delivery) : Type 0 where
  pub same_headers : d.headers ≡ s.publishing.headers
  pub same_typ : d.typ ≡ s.publishing.typ
  pub same_body : d.body ≡ s.publishing.body
  pub same_exchange : d.exchange ≡ s.exchange
  pub same_key : d.routing_key ≡ s.key
  pub alive : lookup "x-death" d.headers ≡ none

-- The consumer that `RegisterByType` makes.
abbrev pub consumer_of :
    {W Payload : Type 0}
    → QueueDefinition
    → GoType
    → Option (ConsumerHandler W Payload)
    → ConsumerDefinition W Payload
consumer_of q t h = record {
  typ = by_type;
  queue = q.name;
  exchange = "";
  routing_key = "";
  msg_type = type_string (deref t);
  reflect = deref t;
  handler = h;
}

pub read_alive :
    (d : Delivery)
    → lookup "x-death" d.headers ≡ none
    → extract_metadata d ≡ returned (ok (metadata d (pos 0) d.exchange d.routing_key))
unfolding extract_metadata
read_alive d e = ground arith

chosen :
    {W Payload : Type 0} (q : QueueDefinition) (t : GoType) (h : Option (ConsumerHandler W Payload))
    (md : DeliveryMetadata)
    → q.name ≢ ""
    → type_string (deref t) ≡ md.typ
    → evaluate_def_by_received_msg (registered q t h md).1 q md ≡ ok (consumer_of q t h)
unfolding register_by_type new_dispatcher evaluate_def_by_received_msg
chosen q t h md ne e =
    ground (arith, eq_iff q.name "", eq_iff q.name q.name, eq_iff (type_string (deref t)) md.typ)

pub All-IsIn : {A : Type 0} (P : A → Type 0) {x : A} (xs : List A) → All P xs → IsIn x xs → P x
All-IsIn P [] h m = absurd m
All-IsIn P (y ∷ ys) h (inl e) = subst P (sym e) h.0
All-IsIn P (y ∷ ys) h (inr m) = All-IsIn P ys h.1 m

module _ {W V Msg Payload : Type 0} (app : String) (manager : Manager W) (out : Outside W Msg)
    (service : Manager V) (unmarshal : String → GoType → Result Payload) where
  -- `json.Unmarshal` undoes `json.Marshal` for a message and its type.
  abbrev pub Decodes : Msg → GoType → Payload → Type 0
  Decodes msg t p = (body : String) → out.marshal msg ≡ ok body → unmarshal body t ≡ ok p

  agrees :
      (t u : GoType)
      → is_defined (deref t) ≡ false
      → deref u ≡ deref t
      → type_string (deref u) ≡ wire_type t
  agrees t u n e =
      ap type_string e
      ∙ (eq_iff (type_string (deref t)) (wire_type t)).0 (string_agrees t ∙ ap not n)

  sent-Carries :
      (c : Method) (msg : Msg) (w : W) (s : Sent)
      → IsIn s (run app manager out c msg w).1
      → Carries app manager out msg (with_options c) w (to_exchange c) (with_key c) (waits c) s
  sent-Carries c msg w s =
      All-IsIn
        (Carries app manager out msg (with_options c) w (to_exchange c) (with_key c) (waits c))
        (run app manager out c msg w).1 (run-Sends app manager out msg c w).1

  pub sent-typ :
      (c : Method) (msg : Msg) (w : W) (s : Sent) (t : GoType)
      → IsIn s (run app manager out c msg w).1
      → out.type_of msg ≡ some t
      → s.publishing.typ ≡ wire_type t
  sent-typ c msg w s t sent typ =
      let (t', known, written) = (sent-Carries c msg w s sent).has_type in
      ground (arith, known, written, typ)

  -- A message that a method of the publisher has sent, whether or not the method returned an error,
  -- and that the broker delivers for the first time, is given to the handler that a new dispatcher
  -- of the queue has registered for the message's type, or for a pointer to it, decoded, once, and
  -- the processing panics exactly if that handler does. This is for a type that no package defines,
  -- JSON that is read back as it was written, and a queue without retry or with one at least.
  pub sent-handles :
      (c : Method) (msg : Msg) (w : W) (s : Sent) (d : Delivery) (q : QueueDefinition)
      (t u : GoType) (h : ConsumerHandler V Payload) (p : Payload) (v : V)
      → IsIn s (run app manager out c msg w).1
      → Arrives s d
      → out.type_of msg ≡ some t
      → deref u ≡ deref t
      → is_defined (deref t) ≡ false
      → Decodes msg (deref t) p
      → q.name ≢ ""
      → (q.with_retry ≡ false) ⊎ (pos 0 <ℤ q.retries)
      → let md = metadata d (pos 0) d.exchange d.routing_key in
        let shop = (register_by_type q.name (some u) (some h) (new_dispatcher (q ∷ []))).1 in
        let (r, acts, v') = process_received_message service unmarshal shop q d v in
        ((r ≡ panicked) ↔ ((h p md v).0 ≡ panicked)) × (only handles acts ≡ handle p md ∷ [])
  unfolding metadata
  sent-handles c msg w s d q t u h p v sent arrives typ same builtin decodes named fresh =
      process-handles service unmarshal _ q d v due refl
    where
      md : DeliveryMetadata
      md = metadata d (pos 0) d.exchange d.routing_key

      typed : md.typ ≡ s.publishing.typ
      typed = arrives.same_typ

      wire : s.publishing.typ ≡ wire_type t
      wire = sent-typ c msg w s t sent typ

      body : out.marshal msg ≡ ok s.publishing.body
      body = (sent-Carries c msg w s sent).has_body

      due :
          IsDue unmarshal
            (register_by_type q.name (some u) (some h) (new_dispatcher (q ∷ []))).1
            q
            d
            (consumer_of q u (some h))
            p
            md
      due = record {
        read = read_alive d arrives.alive;
        chosen = chosen q u (some h) md named (agrees t u builtin same ∙ sym (typed ∙ wire));
        decoded = rw same (decodes d.body (body ∙ ap (λ b. ok b) (sym arrives.same_body)));
        fresh = fresh;
      }
