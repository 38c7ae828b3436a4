-- ===== src/Manager/Contract.antt =====
-- connection_manager.go: the interface `ConnectionManager`, with what its users rely on, and the
-- manager's methods as an implementation of it.
use bunmq.Base.{
  ℕ, String, Bool, true, false, ◌≡◌, ◌↔◌, refl, sym, ap, subst, Option, none, some, is_some,
}
use bunmq.Base.Int.{ℤ}
use bunmq.Errors.{Error, Result, ok, is_ok}
use bunmq.Connection.{Network}
use bunmq.Topology.{Topology}
use bunmq.Manager.{
  ConnectionManager, Callback, get_connection, get_channel, get_connection_string, close,
  is_healthy, qos, set_topology, set_reconnect_callback,
}
use bunmq.Manager.Health.{healthy_iff, get_channel-open, get_connection-open, IsShut, close-IsShut}

-- The methods, over a state `S` of the manager and what is outside, with callbacks `F`. Connections
-- and channels are handles. A topology that makes the method panic gives no state.
pub record Api (S F : Type 0) : Type 0 where
  pub get_connection : S → Result ℕ
  pub get_channel : S → Result ℕ
  pub get_connection_string : S → String
  pub close : S → Option Error × S
  pub is_healthy : S → Bool
  pub set_reconnect_callback : F → S → S
  pub set_topology : Option Topology → S → Option S
  pub qos : ℤ → ℤ → Bool → S → Option Error × S

-- Two states that the methods answer alike.
pub record AnswersAlike {S F : Type 0} (api : Api S F) (s t : S) : Type 0 where
  pub same_connection : api.get_connection t ≡ api.get_connection s
  pub same_channel : api.get_channel t ≡ api.get_channel s
  pub same_string : api.get_connection_string t ≡ api.get_connection_string s
  pub same_health : api.is_healthy t ≡ api.is_healthy s

-- What a closed manager answers.
pub record IsClosed {S F : Type 0} (api : Api S F) (t : S) : Type 0 where
  pub no_connection : is_ok (api.get_connection t) ≡ false
  pub no_channel : is_ok (api.get_channel t) ≡ false
  pub no_string : api.get_connection_string t ≡ ""
  pub unhealthy : api.is_healthy t ≡ false
  pub no_qos :
      (count size : ℤ) (global : Bool)
      → (is_some (api.qos count size global t).0 ≡ true) × ((api.qos count size global t).1 ≡ t)
  pub close_idle : api.close t ≡ (none, t)

-- What the dispatcher, the publisher and a program rely on. `connection_is_closed` and
-- `channel_is_closed` are the client library's word on a handle, and `later` says that only the
-- outside has changed since.
pub record Honours {S F : Type 0} (api : Api S F)
    (connection_is_closed channel_is_closed : ℕ → S → Bool) (later : S → S → Type 0) : Type 0 where
  -- "ensuring it's healthy"
  pub open_connection :
      (s : S) (c : ℕ) → api.get_connection s ≡ ok c → connection_is_closed c s ≡ false
  pub open_channel : (s : S) (c : ℕ) → api.get_channel s ≡ ok c → channel_is_closed c s ≡ false
  pub healthy :
      (s : S)
      → (api.is_healthy s ≡ true)
        ↔ ((is_ok (api.get_connection s) ≡ true) × (is_ok (api.get_channel s) ≡ true))
  pub closes : (s t : S) → later (api.close s).1 t → IsClosed api t
  pub sets_callback : (f : F) (s : S) → AnswersAlike api s (api.set_reconnect_callback f s)
  pub sets_topology :
      (topology : Option Topology) (s : S)
      → (t : S) × (api.set_topology topology s ≡ some t) × AnswersAlike api s t

module _ {W : Type 0} (net : Network W) where
  -- The methods of `connectionManager`.
  unfoldable pub manager_api : Api (ConnectionManager W × W) (Option (Callback W))
  manager_api = record {
    get_connection = λ (m, w). get_connection net m w;
    get_channel = λ (m, w). get_channel net m w;
    get_connection_string = λ (m, w). get_connection_string m;
    close = λ (m, w). let (e, m', w') = close net m w in (e, (m', w'));
    is_healthy = λ (m, w). is_healthy net m w;
    set_reconnect_callback = λ f (m, w). (set_reconnect_callback f m, w);
    set_topology = λ t (m, w). some (set_topology t m, w);
    qos = λ n z g (m, w). let (e, w') = qos net n z g m w in (e, (m, w'));
  }

  shut-IsClosed : (m : ConnectionManager W) (v : W) → IsShut net m v → IsClosed manager_api (m, v)
  unfolding manager_api
  shut-IsClosed m v shut = record {
    no_connection = rw shut.no_connection refl;
    no_channel = rw shut.no_channel refl;
    no_string = shut.no_string;
    unhealthy = shut.unhealthy;
    no_qos = λ n z g. (rw (shut.no_qos n z g) refl, rw (shut.no_qos n z g) refl);
    close_idle =
        ap (λ (r : Option Error × ConnectionManager W × W). (r.0, (r.1, r.2))) shut.close_idle;
  }

  topology-AnswersAlike :
      (t : Option Topology) (s : ConnectionManager W × W)
      → AnswersAlike manager_api s (set_topology t s.0, s.1)
  unfolding manager_api set_topology get_connection get_channel get_connection_string is_healthy
  topology-AnswersAlike none s = record {
    same_connection = refl;
    same_channel = refl;
    same_string = refl;
    same_health = refl;
  }
  topology-AnswersAlike (some t) s = record {
    same_connection = refl;
    same_channel = refl;
    same_string = refl;
    same_health = refl;
  }

  callback-AnswersAlike :
      (f : Option (Callback W)) (s : ConnectionManager W × W)
      → AnswersAlike manager_api s (set_reconnect_callback f s.0, s.1)
  unfolding manager_api set_reconnect_callback get_connection get_channel get_connection_string
      is_healthy
  callback-AnswersAlike f s = record {
    same_connection = refl;
    same_channel = refl;
    same_string = refl;
    same_health = refl;
  }

  -- In every state, whatever the client library answers: a connection or a channel that is handed
  -- out is open at that moment; the manager is healthy exactly if both can be had; after `Close`,
  -- whatever changes outside the manager since, neither can be had, the connection string is empty,
  -- the manager is not healthy, `Qos` fails and changes nothing, and another `Close` does nothing
  -- and reports no error; and setting a callback or a topology does not panic and changes none of
  -- the answers. Steps of the monitor after `Close` are not part of it.
  pub manager-Honours :
      Honours manager_api
        (λ c s. net.connection_is_closed c s.1)
        (λ c s. net.channel_is_closed c s.1)
        (λ s t. t.0 ≡ s.0)
  unfolding manager_api
  manager-Honours = record {
    open_connection = λ (m, w) c e. ((get_connection-open net m w c).0 e).2;
    open_channel = λ (m, w) c e. ((get_channel-open net m w c).0 e).2;
    healthy = λ (m, w). healthy_iff net m w;
    closes = λ (m, w) (n, v) e.
        subst (λ x. IsClosed manager_api (x, v)) (sym e)
          (shut-IsClosed (close net m w).1 v (close-IsShut net m w v));
    sets_callback = callback-AnswersAlike;
    sets_topology = λ t s. ((set_topology t s.0, s.1), refl, topology-AnswersAlike t s);
  }
