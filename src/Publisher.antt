-- ===== src/Publisher.antt =====
-- publisher.go: the publisher's methods, in a monad that threads the outside state, lists what was
-- sent, and stops at an error or a panic.
pub mod Sending
pub mod TypeName
pub mod Captured
pub mod Refused
pub mod Traced
use bunmq.Base.{
  ℕ, String, Bool, true, false, Option, none, some, List, [], ◌∷◌, ◌++◌, ◌==◌, if◌then◌else◌,
}
use bunmq.Errors.{Error, foreign, Result, ok, err}
use bunmq.GoType.{GoType, deref, type_name, type_string}
use bunmq.Amqp.Table.{Table, empty}
use bunmq.Amqp.Channel.{AmqpChannel, Publishing}
use bunmq.Options.{PublishOption}
use bunmq.Options.Found.{options_lookup}
use bunmq.Tracing.{inject}
use bunmq.Dispatcher.{Manager}

abbrev pub json_content_type : String
json_content_type = "application/json"

-- A call of `Publish` or `PublishWithDeferredConfirm` on a channel.
pub record Sent : Type 0 where
  pub exchange : String
  pub key : String
  pub mandatory : Bool
  pub immediate : Bool
  pub deferred : Bool
  pub publishing : Publishing

-- How a call ends.
pub data Ending (A : Type 0) : Type 0 where
  returned : A → Ending A
  failed : Error → Ending A
  panicked : Ending A

abbrev pub P : Type 0 → Type 0 → Type 0
P W A = W → Ending A × List Sent × W

module _ {W : Type 0} where
  infixl 5 ◌>>=◌
  abbrev pub ◌>>=◌ : {A B : Type 0} → P W A → (A → P W B) → P W B
  ◌>>=◌ m f w =
      let (r, sent, w') = m w in
      elim r [
        | returned a ↦ let (r', sent', w'') = f a w' in (r', sent ++ sent', w'')
        | failed e ↦ (failed e, sent, w')
        | panicked ↦ (panicked, sent, w')
      ]

  abbrev pub raise : {A : Type 0} → Error → P W A
  raise e w = (failed e, [], w)

  abbrev pub of_result : {A : Type 0} → Result A → P W A
  of_result (ok a) w = (returned a, [], w)
  of_result (err e) w = (failed e, [], w)

  abbrev pub call : {A : Type 0} → (W → Result A × W) → P W A
  call f w = let (r, w') = f w in of_result r w'

-- What the publisher uses of other packages, over the outside state `W` and the values `Msg`: the
-- dynamic type of a message (`none` for nil), `json.Marshal`, the fields that the propagators set
-- from the context, a message id (`uuid.NewV7`, or `uuid.New` where that fails), and the wait for
-- a confirmation.
pub record Outside (W Msg : Type 0) : Type 0 where
  pub type_of : Msg → Option GoType
  pub marshal : Msg → Result String
  pub trace_fields : W → List (String × String)
  pub new_id : W → String × W
  pub wait_context : ℕ → W → Result Bool × W

-- `msgType := t.Name(); if msgType == "" { msgType = t.String() }`, behind the pointer.
abbrev pub wire_type : GoType → String
wire_type t = if type_name (deref t) == "" then type_string (deref t) else type_name (deref t)

abbrev or_empty : Option Table → Table
or_empty none = empty
or_empty (some t) = t

module _ {W Msg : Type 0} (app_name : String) (manager : Manager W) (out : Outside W Msg) where
  -- `t.Kind()` on the nil type panics.
  abbrev msg_type : Option GoType → P W String
  msg_type none w = (panicked, [], w)
  msg_type (some t) w = (returned (wire_type t), [], w)

  -- `AMQPPropagator.Inject(ctx, AMQPHeader(headers))`
  abbrev injected : Option Table → P W Table
  injected none w = (panicked, [], w)
  injected (some t) w = (returned t, [], w)

  -- With nothing to set, a nil map stays nil, and is sent as no headers.
  abbrev inject_into : Option Table → P W Table
  inject_into h w = elim (out.trace_fields w) [
    | [] ↦ (returned (or_empty h), [], w)
    | f ∷ fs ↦ injected (inject (f ∷ fs) h) w
  ]

  abbrev fresh_id : P W String
  fresh_id w = let (i, w') = out.new_id w in (returned i, [], w')

  abbrev publishing_of : String → String → String → ℕ → Table → Publishing
  publishing_of body id typ mode h = record {
    headers = h;
    typ = typ;
    content_type = json_content_type;
    delivery_mode = mode;
    message_id = id;
    user_id = "";
    app_id = app_name;
    body = body;
  }

  pub publishing : Msg → List (Option PublishOption) → P W Publishing
  publishing msg os = do
    byt ← of_result (out.marshal msg)
    let found = options_lookup os
    h ← inject_into found.headers
    id ← fresh_id
    typ ← msg_type (out.type_of msg)
    λ w. (returned (publishing_of byt id typ found.delivery_mode h), [], w)

  abbrev answered : Option Error → P W (Unit {0})
  answered none w = (returned tt, [], w)
  answered (some e) w = (failed e, [], w)

  abbrev send_on : AmqpChannel W → String → String → Publishing → P W (Unit {0})
  send_on ch x k p w =
      let (e, w') = ch.publish x k false false p w in
      let (r, sent, w'') = answered e w' in
      (
        r,
        record {
          exchange = x;
          key = k;
          mandatory = false;
          immediate = false;
          deferred = false;
          publishing = p;
        }
            ∷ sent,
        w'',
      )

  -- The internal `publish`.
  pub publish : String → String → Msg → List (Option PublishOption) → P W (Unit {0})
  unfolding publishing
  publish x k msg os = do ch ← call manager.get_channel; p ← publishing msg os; send_on ch x k p

  abbrev send_deferred_on : AmqpChannel W → String → String → Publishing → P W (Option ℕ)
  send_deferred_on ch x k p w =
      let (r, w') = ch.publish_with_deferred_confirm x k false false p w in
      let (r', sent, w'') = of_result r w' in
      (
        r',
        record {
          exchange = x;
          key = k;
          mandatory = false;
          immediate = false;
          deferred = true;
          publishing = p;
        }
            ∷ sent,
        w'',
      )

  pub publish_deferred_confirm :
      String → String → Msg → List (Option PublishOption) → P W (Option ℕ)
  unfolding publishing
  publish_deferred_confirm x k msg os = do
    ch ← call manager.get_channel
    p ← publishing msg os
    send_deferred_on ch x k p

  unfoldable pub simple_publish : (target : String) → Msg → P W (Unit {0})
  unfolding publish
  simple_publish target msg = publish target "" msg []

  unfoldable pub publish_exchange :
      (exchange routing_key : String) → Msg → List (Option PublishOption) → P W (Unit {0})
  unfolding publish
  publish_exchange x k msg os =
      if x == "" then raise (foreign "exchange cannot be empty") else publish x k msg os

  abbrev confirmed : Bool → P W (Unit {0})
  confirmed true w = (returned tt, [], w)
  confirmed false w =
      (failed (foreign "bunmq publisher publish with deferred confirm failed"), [], w)

  -- `confirm.WaitContext(ctx)`; a nil confirmation panics.
  abbrev wait : Option ℕ → P W Bool
  wait none w = (panicked, [], w)
  wait (some c) w = call (out.wait_context c) w

  -- The five seconds of the deadline are in `wait_context`.
  unfoldable pub publish_deadline :
      (exchange routing_key : String) → Msg → List (Option PublishOption) → P W (Unit {0})
  unfolding publish_deferred_confirm
  publish_deadline x k msg os =
      if x == ""
      then raise (foreign "exchange cannot be empty")
      else (do confirm ← publish_deferred_confirm x k msg os; acked ← wait confirm; confirmed acked)

  unfoldable pub publish_queue :
      (queue : String) → Msg → List (Option PublishOption) → P W (Unit {0})
  unfolding publish
  publish_queue q msg os =
      if q == "" then raise (foreign "queue cannot be empty") else publish "" q msg os

  -- The deadline of one second reaches no call that heeds it.
  unfoldable pub publish_queue_deadline :
      (queue : String) → Msg → List (Option PublishOption) → P W (Unit {0})
  unfolding publish
  publish_queue_deadline q msg os =
      if q == "" then raise (foreign "queue cannot be empty") else publish "" q msg os
