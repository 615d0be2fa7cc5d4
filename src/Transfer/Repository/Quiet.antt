-- ===== src/Transfer/Repository/Quiet.antt =====
-- `executeWithRetry` of a transfer when no other instance writes: the first attempt decides.
use event_sourced_core_banki.Base.{
  ℕ, ◌+◌, ◌-◌, ◌≡◌, ◌≢◌, refl, sym, ap, subst, ◌∙◌, List, [], ◌∷◌, ◌++◌, length, arith, Text,
}
use event_sourced_core_banki.Common.Result.{
  Result, Error, ok, err, wrong_expected_version, bad_request, >>=-eq-ok, conflict, not_found,
  plain, retryable, projection_gap, ◌>>=◌,
}
use event_sourced_core_banki.Common.Event.{DomainEvent, Stamp}
use event_sourced_core_banki.Common.Aggregate.{
  Aggregate, load_from_history, pull_uncommitted_events, replay, with_state,
  load_from_history-replay, replay-append, replay-one,
}
use event_sourced_core_banki.Infrastructure.EventStore.{EventStore, stream, append}
use event_sourced_core_banki.Infrastructure.EventStore.Streams.{
  IsValid, IsNumbered, extended, append-extended, append-IsValid, stream-append_self,
  stream-append_ne, renumber_self, read_stream-drop,
}
use event_sourced_core_banki.Transfer.Aggregate.{
  TransferState, new_state, new_transfer, transfer_stream, when,
}
use event_sourced_core_banki.Transfer.Command.{TransferCommand, run_command}
use event_sourced_core_banki.Transfer.Lifecycle.{IsWell}
use event_sourced_core_banki.Transfer.Lifecycle.Commands.{Follows, IsNamed, run_command-Follows}
use event_sourced_core_banki.Transfer.Repository.{
  Others, get_by_id, save, save_events, end_write, end_operation, catch_attempt, attempt_once,
  retry_loop, execute_with_retry,
}

-- Nobody else writes.
abbrev pub nobody : Others
nobody = record { before_read = λ n store. store; before_write = λ n store. store }

abbrev pub transfer_events : EventStore → Text → List DomainEvent
transfer_events store transfer_id = stream store (transfer_stream transfer_id)

-- In a valid store, loading a transfer gives the replay of its whole stream.
pub get_by_id-replay :
    (store : EventStore) (transfer_id : Text)
    → IsValid store
    → get_by_id transfer_id store
      ≡ with_state [] (replay when (transfer_events store transfer_id) new_state)
unfolding get_by_id
get_by_id-replay store transfer_id v =
    ap (λ events. load_from_history when events new_transfer)
      (read_stream-drop store (transfer_stream transfer_id) 0 v)
    ∙ load_from_history-replay when (transfer_events store transfer_id) new_transfer

catch-other :
    (transfer_id : Text) (n : ℕ) (rest : EventStore → Result (Unit {0}) × EventStore) (e : Error)
    (store : EventStore)
    → ((stream : Text) (expected actual : ℕ) → e ≢ wrong_expected_version stream expected actual)
    → catch_attempt transfer_id n rest (err e, store) ≡ (err e, store)
unfolding catch_attempt
catch-other transfer_id n rest (wrong_expected_version x y z) store h = absurd (h x y z refl)
catch-other transfer_id n rest (bad_request _) store h = refl
catch-other transfer_id n rest (conflict _) store h = refl
catch-other transfer_id n rest (not_found _) store h = refl
catch-other transfer_id n rest (plain _) store h = refl
catch-other transfer_id n rest (retryable _) store h = refl
catch-other transfer_id n rest (projection_gap _ _ _) store h = refl

-- A success that appended one event to the stream of the transfer, which then replays to `s`.
pub record Appended (outcome : Result (Unit {0}) × EventStore) (transfer_id : Text)
    (before : EventStore) (s : TransferState) : Type 0 where
  pub after : EventStore
  pub event : DomainEvent
  pub answer : outcome ≡ (ok tt, after)
  pub wrote : transfer_events after transfer_id ≡ transfer_events before transfer_id ++ event ∷ []
  pub result : replay when (transfer_events after transfer_id) new_state ≡ ok s
  pub valid : IsValid after
  pub well : IsWell s
  pub elsewhere : (j : Text) → transfer_stream transfer_id ≢ j → stream after j ≡ stream before j

pub when-version :
    (event : DomainEvent) (s : TransferState) {s' : TransferState}
    → when event s ≡ ok s'
    → s'.version ≡ event.stream_version
unfolding when
when-version event s h = ground arith

pub replay-version :
    (events : List DomainEvent) (s : TransferState) {s' : TransferState}
    → IsNumbered s.version events
    → replay when events s ≡ ok s'
    → s'.version ≡ s.version + length events
unfolding replay
replay-version [] s n h = ground arith
replay-version (event ∷ events) s n h =
    let (s1, w, r) = >>=-eq-ok (when event s) _ h in
    let v : s1.version ≡ s.version + 1 = when-version event s w ∙ n.0 in
    omega (arith, v, replay-version events s1 (subst (λ k. IsNumbered k events) (sym v) n.1) r)

pub save-one :
    (transfer_id : Text) (a : Aggregate TransferState) (store : EventStore) (event : DomainEvent)
    → a.uncommitted_events ≡ event ∷ []
    → save transfer_id a store
      ≡ append store (transfer_stream transfer_id) (event ∷ []) (a.state.version - 1)
unfolding save save_events pull_uncommitted_events
save-one transfer_id a store event one = rw (one) refl

-- What the attempts run on the loaded transfer.
abbrev pub operation :
    TransferCommand → (ℕ → Stamp) → ℕ → Aggregate TransferState → Result (Aggregate TransferState)
operation command stamps n = run_command command (stamps n)

module _ (transfer_id : Text) (command : TransferCommand) (stamps : ℕ → Stamp) (store : EventStore)
    (v : IsValid store) (s : TransferState)
    (loaded : replay when (transfer_events store transfer_id) new_state ≡ ok s) where
  -- The transfer that the first attempt loads.
  abbrev transfer : Aggregate TransferState
  transfer = record { state = s; uncommitted_events = [] }

  first_attempt :
      (r : Result (Aggregate TransferState))
      → run_command command (stamps 1) transfer ≡ r
      → attempt_once transfer_id (operation command stamps) nobody 1 store
        ≡ end_operation transfer_id (λ st. st) store r
  unfolding attempt_once
  first_attempt r ran =
      ap (λ t. end_operation transfer_id (λ st. st) store t)
        (ap (λ m. m >>= operation command stamps 1)
            (get_by_id-replay store transfer_id v ∙ ap (with_state []) loaded)
          ∙ ran)

  module _ (well : IsWell s) (named : IsNamed command) (a : Aggregate TransferState)
      (ran : run_command command (stamps 1) transfer ≡ ok a) where
    pub follows : Follows transfer a
    follows = run_command-Follows command (stamps 1) transfer a well named ran

    abbrev pub raised : DomainEvent
    raised = follows.raises.event

    abbrev pub written : EventStore
    written = extended store (transfer_stream transfer_id) (raised ∷ [])

    pub before_version : s.version ≡ length (transfer_events store transfer_id)
    before_version = omega (
      arith,
      replay-version (transfer_events store transfer_id) new_state
          (v.numbered (transfer_stream transfer_id)) loaded,
    )

    pub next_version : a.state.version - 1 ≡ length (transfer_events store transfer_id)
    next_version = omega (
      arith,
      when-version raised s follows.raises.applied,
      follows.raises.numbered,
      before_version,
    )

    pub accepted :
        append store (transfer_stream transfer_id) (raised ∷ []) (a.state.version - 1) ≡ ok written
    accepted = append-extended store (transfer_stream transfer_id) (raised ∷ []) _ next_version

    done : execute_with_retry transfer_id (operation command stamps) nobody store ≡ (ok tt, written)
    unfolding execute_with_retry retry_loop catch_attempt end_operation end_write
    done =
        rw
          (
            first_attempt (ok a) ran,
            save-one transfer_id a store raised follows.raises.pending,
            accepted,
          )
          refl

    pub grown :
        transfer_events written transfer_id ≡ transfer_events store transfer_id ++ raised ∷ []
    grown =
        stream-append_self store (transfer_stream transfer_id) (raised ∷ []) _ accepted
        ∙ ap (λ t. transfer_events store transfer_id ++ t)
            (renumber_self _ (raised ∷ [])
              (omega (arith, follows.raises.numbered, before_version, next_version), tt))

    pub replay-written : replay when (transfer_events written transfer_id) new_state ≡ ok a.state
    replay-written =
        ap (λ es. replay when es new_state) grown
        ∙ replay-append when (transfer_events store transfer_id) (raised ∷ []) new_state
        ∙ ap (λ r. r >>= replay when (raised ∷ [])) loaded
        ∙ replay-one when raised s
        ∙ follows.raises.applied

    -- In a valid store to which no other instance writes, a command (whose initiation names a
    -- transfer) that the loaded well-formed transfer accepts is done at the first attempt: the
    -- transfer's stream grows by one event and replays to the state after the command, every other
    -- stream stays as it is, the store valid and the transfer well-formed.
    pub transfer_success :
        Appended
          (execute_with_retry transfer_id (operation command stamps) nobody store)
          transfer_id
          store
          a.state
    transfer_success = record {
      after = written;
      event = raised;
      answer = done;
      wrote = grown;
      result = replay-written;
      valid = append-IsValid store (transfer_stream transfer_id) (raised ∷ []) _ accepted v;
      well = follows.well;
      elsewhere = stream-append_ne store (transfer_stream transfer_id) (raised ∷ []) _ accepted;
    }

  -- In a valid store to which no other instance writes, a command that the loaded transfer refuses
  -- (with an error that is not a lost race) ends with that error at the first attempt, and the
  -- store stays as it is.
  pub transfer_refusal :
      (e : Error)
      → ((stream : Text) (expected actual : ℕ) → e ≢ wrong_expected_version stream expected actual)
      → run_command command (stamps 1) transfer ≡ err e
      → execute_with_retry transfer_id (operation command stamps) nobody store ≡ (err e, store)
  unfolding execute_with_retry retry_loop end_operation
  transfer_refusal e refused ran =
      rw (first_attempt (err e) ran) (catch-other transfer_id 1 _ e store refused)
