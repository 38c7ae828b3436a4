-- ===== src/Mocks/Breach.antt =====
-- mocks.go: the mock manager against the contract of the interface that it stands for.
use bunmq.Base.{ℕ, Bool, Option, true, ◌≡◌, refl, ap, none, some}
use bunmq.Errors.{is_ok}
use bunmq.Manager.Contract.{Api, Honours}
use bunmq.Mocks.Manager
use bunmq.Mocks.World.{World}

module _ {Tls : Type 0} where
  -- The methods of `MockConnectionManager`.
  unfoldable pub mock_api : Api (World Tls) (Option ℕ)
  mock_api = record {
    get_connection = λ w. Manager.get_connection w.manager;
    get_channel = λ w. Manager.get_channel w.manager;
    get_connection_string = λ w. Manager.get_connection_string w.manager;
    close = λ w. let (e, m) = Manager.close w.manager in (e, record w { manager = m });
    is_healthy = λ w. Manager.is_healthy w.manager;
    set_reconnect_callback =
        λ f w. record w { manager = Manager.set_reconnect_callback f w.manager };
    set_topology = λ t w. elim (Manager.set_topology t w.manager) [
      | none ↦ none
      | some m ↦ some (record w { manager = m })
    ];
    qos = λ n z g w. (Manager.qos n z g w.manager, w);
  }

  -- `Close` of the mock takes nothing back: connection, channel and health are answered as before.
  pub close_idle :
      (w : World Tls)
      → let w' = (mock_api.close w).1 in
        (mock_api.get_connection w' ≡ mock_api.get_connection w)
        × (mock_api.get_channel w' ≡ mock_api.get_channel w)
        × (mock_api.is_healthy w' ≡ mock_api.is_healthy w)
  unfolding mock_api Manager.close Manager.get_connection Manager.get_channel Manager.is_healthy
  close_idle w = (refl, refl, refl)

  -- So the mock does not honour the contract, as soon as it hands out a channel.
  pub breaks :
      (conn_is_closed ch_is_closed : ℕ → World Tls → Bool) (later : World Tls → World Tls → Type 0)
      (w : World Tls)
      → later (mock_api.close w).1 (mock_api.close w).1
      → is_ok (mock_api.get_channel w) ≡ true
      → ¬ Honours mock_api conn_is_closed ch_is_closed later
  breaks _ _ later w same h c =
      cc (ap is_ok (close_idle w).1, h, (c.closes w (mock_api.close w).1 same).no_channel)
