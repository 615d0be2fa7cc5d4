-- ===== src/Transfer/Repository/Retry.antt =====
-- `executeWithRetry` of a transfer under any interference of other instances that only append: a
-- command that is reported as done was applied to the state of the stream it extends.
use event_sourced_core_banki.Base.{
  ℕ, zero, suc, ◌+◌, ◌-◌, ◌<◌, ◌≡◌, refl, sym, ap, subst, ◌∙◌, Bool, true, false, List, [], ◌∷◌,
  ◌++◌, append-nil, length, length-append, arith, Text, ltb, ◌==◌, eq_iff, Bool-cases, inl, inr,
}
use event_sourced_core_banki.Common.Result.{Result, ok, err, wrong_expected_version, ◌>>=◌}
use event_sourced_core_banki.Common.Event.{DomainEvent, Stamp}
use event_sourced_core_banki.Common.Aggregate.{Aggregate, replay, with_state}
use event_sourced_core_banki.Infrastructure.EventStore.{EventStore, stream}
use event_sourced_core_banki.Infrastructure.EventStore.Streams.{
  IsValid, append-conflict, append-IsValid, stream-append_ne,
}
use event_sourced_core_banki.Transfer.Aggregate.{TransferState, new_state, transfer_stream, when}
use event_sourced_core_banki.Transfer.Command.{TransferCommand}
use event_sourced_core_banki.Transfer.Lifecycle.{IsWell}
use event_sourced_core_banki.Transfer.Lifecycle.Commands.{Follows, IsNamed}
use event_sourced_core_banki.Transfer.Repository.{
  Others, get_by_id, save, end_write, end_operation, attempt_once, after_conflict, catch_attempt,
  retry_loop, execute_with_retry,
}
use event_sourced_core_banki.Transfer.Repository.Quiet.{
  transfer_events, get_by_id-replay, operation, save-one, written, follows, accepted, grown,
  next_version, replay-written,
}

-- A valid store whose transfer streams replay to well-formed transfers.
pub record IsKept (store : EventStore) : Type 0 where
  pub valid : IsValid store
  pub replays :
      (transfer_id : Text)
      → (s : TransferState) × (replay when (transfer_events store transfer_id) new_state ≡ ok s)
        × IsWell s

-- Other instances keep the store so, and between a read and a write they only append.
pub record OnlyAppends (others : Others) : Type 0 where
  pub reads : (n : ℕ) (store : EventStore) → IsKept store → IsKept (others.before_read n store)
  pub writes : (n : ℕ) (store : EventStore) → IsKept store → IsKept (others.before_write n store)
  pub appends :
      (n : ℕ) (store : EventStore) (transfer_id : Text)
      → (tail : List DomainEvent) × (transfer_events (others.before_write n store) transfer_id
          ≡ transfer_events store transfer_id ++ tail)

module _ (transfer_id : Text) (command : TransferCommand) (stamps : ℕ → Stamp)
    (named : IsNamed command) where
  -- The last event of the stream is the one that the command raised, applied to what the events before it replay to.
  pub record Committed (store : EventStore) : Type 0 where
    pub attempt : ℕ
    pub history : List DomainEvent
    pub event : DomainEvent
    pub before : TransferState
    pub after : Aggregate TransferState
    pub loaded : replay when history new_state ≡ ok before
    pub ran :
        operation command stamps attempt (record { state = before; uncommitted_events = [] })
        ≡ ok after
    pub follows : Follows (record { state = before; uncommitted_events = [] }) after
    pub raised : after.uncommitted_events ≡ event ∷ []
    pub wrote : transfer_events store transfer_id ≡ history ++ event ∷ []
    pub result : replay when (transfer_events store transfer_id) new_state ≡ ok after.state

  -- Whatever the result, the store is kept; and if it is a success, the command is there.
  abbrev pub IsSound : Result (Unit {0}) × EventStore → Type 0
  IsSound (r, store) = IsKept store × (r ≡ ok tt → Committed store)

  -- The stamp of the attempt.
  abbrev stamped : ℕ → ℕ → Stamp
  stamped n k = stamps n

  module _ (n : ℕ) (store : EventStore) (kept : IsKept store) (s : TransferState) (well : IsWell s)
      (loaded : replay when (transfer_events store transfer_id) new_state ≡ ok s)
      (a : Aggregate TransferState)
      (ran : operation command stamps n (record { state = s; uncommitted_events = [] })
        ≡ ok a) where
    abbrev after_write : EventStore
    after_write = written transfer_id command (stamped n) store kept.valid s loaded well named a ran

    replays-written :
        (j : Text)
        → (u : TransferState) × (replay when (transfer_events after_write j) new_state ≡ ok u)
          × IsWell u
    replays-written j = elim (Bool-cases (transfer_stream transfer_id == transfer_stream j)) [
      | inl e ↦ (
        a.state,
        ap (λ k. replay when (stream after_write k) new_state)
              (sym ((eq_iff (transfer_stream transfer_id) (transfer_stream j)).0 e))
            ∙ replay-written transfer_id command (stamped n) store kept.valid s loaded well named a
                ran,
        (follows transfer_id command (stamped n) store kept.valid s loaded well named a ran).well,
      )
      | inr e ↦
          let (u, r, fine) = kept.replays j in
          (
            u,
            ap (λ es. replay when es new_state)
                  (stream-append_ne store (transfer_stream transfer_id) _ _
                    (accepted transfer_id command (stamped n) store kept.valid s loaded well named a
                      ran)
                    (transfer_stream j)
                    (λ p. cc ((eq_iff (transfer_stream transfer_id) (transfer_stream j)).1 p)))
                ∙ r,
            fine,
          )
    ]

    written-IsKept : IsKept after_write
    written-IsKept = record {
      valid =
          append-IsValid store (transfer_stream transfer_id) _ _
            (accepted transfer_id command (stamped n) store kept.valid s loaded well named a ran)
            kept.valid;
      replays = replays-written;
    }

    -- Nobody wrote to the stream in between.
    write_back-IsSound : IsSound (end_write store (save transfer_id a store))
    unfolding end_write
    write_back-IsSound =
        let f =
          follows transfer_id command (stamped n) store kept.valid s loaded well named a ran in
        rw
          (
            save-one transfer_id a store f.raises.event f.raises.pending,
            accepted transfer_id command (stamped n) store kept.valid s loaded well named a ran,
          )
          (
            written-IsKept,
            λ _. record {
              attempt = n;
              history = transfer_events store transfer_id;
              event = f.raises.event;
              before = s;
              after = a;
              loaded = loaded;
              ran = ran;
              follows = f;
              raised = f.raises.pending;
              wrote =
                  grown transfer_id command (stamped n) store kept.valid s loaded well named a ran;
              result =
                  replay-written transfer_id command (stamped n) store kept.valid s loaded well
                    named a ran;
            },
          )

  module _ (others : Others) (fair : OnlyAppends others) (n : ℕ) (store : EventStore)
      (kept : IsKept store) (s : TransferState) (well : IsWell s)
      (loaded : replay when (transfer_events store transfer_id) new_state ≡ ok s) where
    abbrev writing : EventStore
    writing = others.before_write n store

    -- What was appended in between decides whether the write is accepted.
    write-IsSound :
        (a : Aggregate TransferState)
        → operation command stamps n (record { state = s; uncommitted_events = [] }) ≡ ok a
        → (tail : List DomainEvent)
        → transfer_events writing transfer_id ≡ transfer_events store transfer_id ++ tail
        → IsSound (end_write writing (save transfer_id a writing))
    unfolding end_write
    write-IsSound a ran [] e =
        write_back-IsSound n writing (fair.writes n store kept) s well
          (ap (λ es. replay when es new_state) (e ∙ append-nil (transfer_events store transfer_id))
            ∙ loaded)
          a ran
    write-IsSound a ran (t ∷ tail) e =
        let f =
          follows transfer_id command (stamped n) store kept.valid s loaded well named a ran in
        let now =
          next_version transfer_id command (stamped n) store kept.valid s loaded well named a ran in
        rw
          (
            save-one transfer_id a writing f.raises.event f.raises.pending,
            append-conflict writing (transfer_stream transfer_id) (f.raises.event ∷ [])
                (a.state.version - 1)
                (λ same. omega (
                  arith,
                  same,
                  now,
                  ap length e,
                  length-append (transfer_events store transfer_id) (t ∷ tail),
                )),
          )
          (fair.writes n store kept, λ h. cc)

    ended :
        (r : Result (Aggregate TransferState))
        → operation command stamps n (record { state = s; uncommitted_events = [] }) ≡ r
        → IsSound (end_operation transfer_id (others.before_write n) store r)
    unfolding end_operation
    ended (ok a) ran =
        let (tail, e) = fair.appends n store transfer_id in write-IsSound a ran tail e
    ended (err x) ran = (kept, λ h. cc)

    attempt_once-ran :
        (r : Result (Aggregate TransferState))
        → operation command stamps n (record { state = s; uncommitted_events = [] }) ≡ r
        → IsSound (attempt_once transfer_id (operation command stamps) others n store)
    unfolding attempt_once
    attempt_once-ran r ran =
        let found : get_by_id transfer_id store
            ≡ ok (record { state = s; uncommitted_events = [] }) =
          get_by_id-replay store transfer_id kept.valid ∙ ap (with_state []) loaded in
        subst (λ m. IsSound (end_operation transfer_id (others.before_write n) store m))
          (sym (ap (λ m. m >>= operation command stamps n) found ∙ ran)) (ended r ran)

  module _ (others : Others) (fair : OnlyAppends others) where
    attempt_once-IsSound :
        (n : ℕ) (store : EventStore)
        → IsKept store
        → IsSound (attempt_once transfer_id (operation command stamps) others n store)
    attempt_once-IsSound n store kept =
        let (s, loaded, well) = kept.replays transfer_id in
        attempt_once-ran others fair n store kept s well loaded _ refl

  after_conflict-IsSound :
      (b : Bool) (rest : EventStore → Result (Unit {0}) × EventStore) (store : EventStore)
      → (b ≡ true → IsSound (rest store))
      → IsKept store
      → IsSound (after_conflict transfer_id b rest store)
  unfolding after_conflict
  after_conflict-IsSound true rest store again c = again refl
  after_conflict-IsSound false rest store again c = (c, λ h. cc)

  catch_attempt-IsSound :
      (n : ℕ) (rest : EventStore → Result (Unit {0}) × EventStore)
      (result : Result (Unit {0}) × EventStore)
      → (ltb n 3 ≡ true → (st : EventStore) → IsKept st → IsSound (rest st))
      → IsSound result
      → IsSound (catch_attempt transfer_id n rest result)
  unfolding catch_attempt
  catch_attempt-IsSound n rest (ok u, st) again h = h
  catch_attempt-IsSound n rest (err (wrong_expected_version x y z), st) again h =
      after_conflict-IsSound (ltb n 3) rest st (λ e. again e st h.0) h.0
  catch_attempt-IsSound n rest (err _, st) again h = (h.0, λ e. cc)

  module _ (others : Others) (fair : OnlyAppends others) where
    retry_loop-IsSound :
        (left n : ℕ) (store : EventStore)
        → 0 < left
        → left + n ≡ 4
        → IsKept store
        → IsSound (retry_loop transfer_id (operation command stamps) others left n store)
    unfolding retry_loop
    retry_loop-IsSound zero n store h e c = absurd (omega arith)
    retry_loop-IsSound (suc left) n store h e c =
        catch_attempt-IsSound n
          (λ st. retry_loop transfer_id (operation command stamps) others left (n + 1) st)
          (attempt_once transfer_id (operation command stamps) others n
            (others.before_read n store))
          (λ below st c'. retry_loop-IsSound left (n + 1) st (ground arith) (omega arith) c')
          (attempt_once-IsSound others fair n (others.before_read n store) (fair.reads n store c))

    -- In a valid store whose transfers replay to well-formed ones, whatever other instances do
    -- before each read and append before each write, as long as they keep the store so,
    -- executeWithRetry of a transfer keeps the store so, and when it reports success the one event
    -- that the command (an initiation names a transfer) raised is the last of its transfer's
    -- stream, applied to the state that the events before it replay to, and follows the life
    -- cycle.
    pub transfer-IsSound :
        (store : EventStore)
        → IsKept store
        → IsSound (execute_with_retry transfer_id (operation command stamps) others store)
    unfolding execute_with_retry
    transfer-IsSound store c = retry_loop-IsSound 3 1 store (omega arith) (omega arith) c
