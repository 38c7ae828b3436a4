-- ===== src/Dispatcher/Tags/InOrder.antt =====
-- dispatcher.go and the broker: a queue whose deliveries have a channel of their own.
use bunmq.Base.{
  eqb→eq, ℕ, suc, ◌+◌, ◌≤◌, ◌<◌, String, Bool, true, false, ◌≡◌, refl, sym, subst, ◌⊎◌, inl, inr,
  List, [], ◌∷◌, arith, eqb, Bool-cases,
}
use bunmq.Base.Lists.{length, count_by}
use bunmq.Errors.{Result}
use bunmq.GoType.{GoType}
use bunmq.Queue.{QueueDefinition}
use bunmq.Amqp.Channel.{Delivery}
use bunmq.Dispatcher.{Manager, Dispatcher}
use bunmq.Dispatcher.Metadata.{Run, returned, panicked}
use bunmq.Dispatcher.Process.{
  Action, ack, nack, publish, handle, span_start, span_ok, span_end, record_error, publish_to_dlq,
  process_received_message,
}
use bunmq.Dispatcher.Process.Settlement.{settles}
use bunmq.Dispatcher.Consume.{behind, process_all}
use bunmq.Dispatcher.Tags.{Broker, replay, replay_all}

pub settle_own :
    (broker : Broker) (tag : ℕ) (m : Bool) (c : broker.Channel)
    → broker.outstanding tag c ≡ true
    → broker.outstanding tag (broker.settle tag m c) ≡ false
settle_own broker tag true c k = ground (arith, broker.settled tag true tag c k)
settle_own broker tag false c k = ground (arith, broker.settled tag false tag c k)

module _ (broker : Broker) {Payload : Type 0} (tag : ℕ) where
  -- With no settlement a channel stays as it is, with one it has that one.
  replay_none :
      (acts : List (Action Payload)) (c : broker.Channel)
      → count_by settles acts ≡ 0
      → replay broker tag acts c ≡ c
  replay_none [] c h = refl
  replay_none (ack m ∷ acts) c h = absurd (omega arith)
  replay_none (nack m r ∷ acts) c h = absurd (omega arith)
  replay_none (publish x k m i msg ∷ acts) c h = replay_none acts c h
  replay_none (handle p md ∷ acts) c h = replay_none acts c h
  replay_none (span_start ∷ acts) c h = replay_none acts c h
  replay_none (span_ok ∷ acts) c h = replay_none acts c h
  replay_none (span_end ∷ acts) c h = replay_none acts c h
  replay_none (record_error e ∷ acts) c h = replay_none acts c h

  replay_one :
      (acts : List (Action Payload)) (c : broker.Channel)
      → count_by settles acts ≡ 1
      → (m : Bool) × (replay broker tag acts c ≡ broker.settle tag m c)
  replay_one [] c h = absurd (omega arith)
  replay_one (ack m ∷ acts) c h = (m, replay_none acts (broker.settle tag m c) (omega arith))
  replay_one (nack m r ∷ acts) c h = (m, replay_none acts (broker.settle tag m c) (omega arith))
  replay_one (publish x k m i msg ∷ acts) c h = replay_one acts c h
  replay_one (handle p md ∷ acts) c h = replay_one acts c h
  replay_one (span_start ∷ acts) c h = replay_one acts c h
  replay_one (span_ok ∷ acts) c h = replay_one acts c h
  replay_one (span_end ∷ acts) c h = replay_one acts c h
  replay_one (record_error e ∷ acts) c h = replay_one acts c h

module _ (broker : Broker) {W Payload : Type 0} (manager : Manager W)
    (unmarshal : String → GoType → Result Payload) (s : Dispatcher W Payload)
    (q : QueueDefinition) where
  settles_once :
      (d : Delivery) (w : W)
      → q.with_dlq ≡ true
      → let (r, acts, w') = process_received_message manager unmarshal s q d w in
        (count_by settles acts ≡ 1) ⊎ ((count_by settles acts ≡ 0) × (r ≡ panicked))
  unfolding process_received_message publish_to_dlq
  settles_once d w h = ground arith

  -- The tags from `tag` on, so many of them, are outstanding, or settled.
  abbrev pub Outstanding : ℕ → ℕ → broker.Channel → Type 0
  Outstanding tag n c = (t : ℕ) → tag ≤ t → t < tag + n → broker.outstanding t c ≡ true

  abbrev pub Settled : ℕ → ℕ → broker.Channel → Type 0
  Settled tag n c = (t : ℕ) → tag ≤ t → t < tag + n → broker.outstanding t c ≡ false

  later-Outstanding :
      (tag n : ℕ) (m : Bool) (c : broker.Channel)
      → Outstanding tag (suc n) c
      → Outstanding (suc tag) n (broker.settle tag m c)
  later-Outstanding tag n true c h t le lt = ground (
    arith,
    broker.settled tag true t c (h tag (omega arith) (omega arith)),
    h t (omega arith) (omega arith),
  )
  later-Outstanding tag n false c h t le lt = ground (
    arith,
    broker.settled tag false t c (h tag (omega arith) (omega arith)),
    h t (omega arith) (omega arith),
  )

  -- From `c` to `c'` with the deliveries from `tag` on, and how their processing ended.
  pub record Dealt (tag n : ℕ) (r : Run (Unit {0})) (c c' : broker.Channel) : Type 0 where
    pub still_open : broker.is_open c' ≡ true
    pub kept : (t : ℕ) → broker.outstanding t c ≡ false → broker.outstanding t c' ≡ false
    pub ended : (r ≡ panicked) ⊎ Settled tag n c'

  Dealt-refl :
      (tag : ℕ) (r : Run (Unit {0})) (c : broker.Channel)
      → broker.is_open c ≡ true
      → Dealt tag 0 r c c
  Dealt-refl tag r c h = record {
    still_open = h;
    kept = λ t e. e;
    ended = inr (λ t le lt. absurd (omega arith));
  }

  Dealt-panicked :
      (tag n : ℕ) (m : Bool) (c : broker.Channel)
      → broker.is_open c ≡ true
      → broker.outstanding tag c ≡ true
      → Dealt tag n panicked c (broker.settle tag m c)
  Dealt-panicked tag n m c h k = record {
    still_open = broker.known_stays tag m c h k;
    kept = λ t e. ground (arith, broker.settled tag m t c k);
    ended = inl refl;
  }

  Dealt-cons :
      (tag n : ℕ) (m : Bool) (r : Run (Unit {0})) (c c' : broker.Channel)
      → broker.outstanding tag c ≡ true
      → Dealt (suc tag) n r (broker.settle tag m c) c'
      → Dealt tag (suc n) r c c'
  Dealt-cons tag n m r c c' k d = record {
    still_open = d.still_open;
    kept = λ t e. d.kept t (ground (arith, broker.settled tag m t c k));
    ended = elim d.ended [
      | inl p ↦ inl p
      | inr s ↦ inr λ t le lt. elim (Bool-cases (eqb tag t)) [
        | inl same ↦ d.kept t (
            subst (λ x. broker.outstanding x (broker.settle tag m c) ≡ false) (eqb→eq tag t same)
              (settle_own broker tag m c k))
        | inr other ↦ s t (ground arith) (omega arith)
      ]
    ];
  }

  -- On a queue with a dead-letter queue, whose deliveries come on a channel of their own with
  -- consecutive tags, the channel is still open when the deliveries of a pass have been dealt with
  -- in their order, or up to one at which the program panics, and in the first case none of them is
  -- outstanding.
  pub replay_all-Dealt :
      (tag : ℕ) (ds : List Delivery) (w : W) (c : broker.Channel)
      → q.with_dlq ≡ true
      → broker.is_open c ≡ true
      → Outstanding tag (length ds) c
      → Dealt tag
          (length ds)
          (process_all manager unmarshal s q ds w).0
          c
          (replay_all broker manager unmarshal s q tag ds w c)
  unfolding process_all replay_all
  replay_all-Dealt tag [] w c h o u = Dealt-refl tag (returned tt) c o
  replay_all-Dealt tag (d ∷ ds) w c h o u =
      let (r, acts, w') = process_received_message manager unmarshal s q d w in
      go r acts w' (settles_once d w h) (λ m.
        replay_all-Dealt (suc tag) ds w' (broker.settle tag m c) h
          (broker.known_stays tag m c o (u tag (omega arith) (omega arith)))
          (later-Outstanding tag (length ds) m c u))
    where
      go :
          (r : Run (Unit {0})) (acts : List (Action Payload)) (w' : W)
          → (count_by settles acts ≡ 1) ⊎ ((count_by settles acts ≡ 0) × (r ≡ panicked))
          → ((m : Bool)
              → Dealt
                  (suc tag)
                  (length ds)
                  (process_all manager unmarshal s q ds w').0
                  (broker.settle tag m c)
                  (replay_all broker manager unmarshal s q (suc tag) ds w' (broker.settle tag m c)))
          → Dealt tag
              (suc (length ds))
              (behind (r, acts, w') (process_all manager unmarshal s q ds)).0
              c
              (elim r [
                | returned _ ↦
                    replay_all broker manager unmarshal s q
                      (suc tag)
                      ds
                      w'
                      (replay broker tag acts c)
                | panicked ↦ replay broker tag acts c
              ])
      go (returned x) acts w' (inr p) rest = cc p.1
      go (returned x) acts w' (inl one) rest =
          let (m, e) = replay_one broker tag acts c one in
          subst
            (λ x.
              Dealt tag (suc (length ds)) (process_all manager unmarshal s q ds w').0 c
                (replay_all broker manager unmarshal s q (suc tag) ds w' x))
            (sym e)
            (Dealt-cons tag (length ds) m (process_all manager unmarshal s q ds w').0 c _
              (u tag (omega arith) (omega arith)) (rest m))
      go panicked acts w' (inl one) rest =
          let (m, e) = replay_one broker tag acts c one in
          subst (Dealt tag (suc (length ds)) panicked c) (sym e)
            (Dealt-panicked tag (suc (length ds)) m c o (u tag (omega arith) (omega arith)))
      go panicked acts w' (inr p) rest =
          subst (Dealt tag (suc (length ds)) panicked c) (sym (replay_none broker tag acts c p.0))
            (record { still_open = o; kept = λ t e. e; ended = inl refl })
