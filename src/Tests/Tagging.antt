-- ===== src/Tests/Tagging.antt =====
-- dispatcher.go and the broker: examples.
use bunmq.Base.{ℕ, Bool, true, false, ◌≡◌, refl, ◌&&◌, not, [], ◌∷◌, arith, if◌then◌else◌}
use bunmq.Errors.{errors_is}
use bunmq.Queue.{new_queue, set_dlq, set_retry}
use bunmq.Dispatcher.{new_dispatcher}
use bunmq.Dispatcher.Registry.{register_by_type}
use bunmq.Dispatcher.Metadata.{metadata, extract_metadata}
use bunmq.Dispatcher.Select.{evaluate_def_by_received_msg}
use bunmq.Dispatcher.Process.{process_received_message, publish_to_dlq}
use bunmq.Dispatcher.Consume.{process_all}
use bunmq.Dispatcher.Tags.{Broker, covers, replay, replay_all}
use bunmq.Dispatcher.Tags.InOrder.{Dealt, replay_all-Dealt}
use bunmq.Dispatcher.Tags.Shared.{process-accepts, shared-closes}
use bunmq.Tests.{online, parse, orders, returns, shop, returns_desk}
use bunmq.Tests.Processing.{tea, late, tea-IsDue, late-IsDue}

-- A broker that keeps a flag and the outstanding tags of a channel.
record Ledger : Type 0 where
  flag : Bool
  tags : ℕ → Bool

abbrev strike : ℕ → Bool → Ledger → Ledger
strike tag multiple l =
    if l.tags tag
    then record l { tags = λ t. l.tags t && not (covers multiple tag t) }
    else record l { flag = false }

closed_stays : (tag : ℕ) (m : Bool) (l : Ledger) → l.flag ≡ false → (strike tag m l).flag ≡ false
closed_stays tag m l h = ground arith

unknown_closes :
    (tag : ℕ) (m : Bool) (l : Ledger) → l.tags tag ≡ false → (strike tag m l).flag ≡ false
unknown_closes tag m l h = ground arith

known_stays :
    (tag : ℕ) (m : Bool) (l : Ledger)
    → l.flag ≡ true
    → l.tags tag ≡ true
    → (strike tag m l).flag ≡ true
known_stays tag m l h k = ground arith

settled :
    (tag : ℕ) (m : Bool) (t : ℕ) (l : Ledger)
    → l.tags tag ≡ true
    → (strike tag m l).tags t ≡ (l.tags t && not (covers m tag t))
settled tag m t l h = rw h refl

abbrev ledgers : Broker
ledgers = record {
  Channel = Ledger;
  is_open = λ l. l.flag;
  outstanding = λ t l. l.tags t;
  settle = strike;
  closed_stays = closed_stays;
  unknown_closes = unknown_closes;
  known_stays = known_stays;
  settled = settled;
}

-- Every tag is outstanding.
abbrev fresh : Ledger
fresh = record { flag = true; tags = λ t. true }

replay_all-Dealt_example :
    Dealt ledgers online parse shop orders 1 2
      (process_all online parse shop orders (tea ∷ late ∷ []) 0).0
      fresh
      (replay_all ledgers online parse shop orders 1 (tea ∷ late ∷ []) 0 fresh)
unfolding new_queue set_dlq set_retry
replay_all-Dealt_example =
    replay_all-Dealt ledgers online parse shop orders 1 (tea ∷ late ∷ []) 0 fresh refl refl
      (λ t le lt. refl)

process-accepts_example :
    ledgers.is_open
      (replay ledgers 1 (process_received_message online parse returns_desk returns late 0).1 fresh)
    ≡ true
unfolding new_queue set_retry errors_is
process-accepts_example =
    process-accepts ledgers online parse returns_desk returns late 0 1 fresh late-IsDue refl refl
      refl

shared-closes_example :
    ledgers.is_open (
      replay ledgers 1
        (process_received_message online parse shop returns late 5).1
        (replay ledgers 2 (process_received_message online parse shop orders tea 0).1 fresh))
    ≡ false
unfolding process_received_message publish_to_dlq evaluate_def_by_received_msg extract_metadata
    metadata new_queue set_dlq set_retry new_dispatcher register_by_type
shared-closes_example =
    shared-closes ledgers online parse shop orders returns tea late 0 5 1 2 fresh (omega arith)
      tea-IsDue refl refl refl
