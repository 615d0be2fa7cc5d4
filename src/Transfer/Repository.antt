-- ===== src/Transfer/Repository.antt =====
-- modules/transfers/domain/transfer.repository.ts. A method returns its result and the event store
-- after it. What other instances of the service commit while a method waits is an argument: a change
-- of the store before each read and before each write. A transfer that has events pending has at
-- least their number as its version, so the difference of the two is exact.
pub mod Quiet
pub mod Elsewhere
pub mod Retry
mod Tests
use event_sourced_core_banki.Base.{
  ℕ, zero, suc, ◌+◌, ◌-◌, Bool, true, false, List, [], ◌∷◌, ◌++◌, length, ltb, Text, text,
}
use event_sourced_core_banki.Common.Result.{
  Error, Result, ok, err, conflict, wrong_expected_version, ◌>>=◌,
}
use event_sourced_core_banki.Common.Event.{DomainEvent}
use event_sourced_core_banki.Common.Aggregate.{
  Aggregate, load_from_history, pull_uncommitted_events,
}
use event_sourced_core_banki.Infrastructure.EventStore.{EventStore, read_stream, append}
use event_sourced_core_banki.Transfer.Aggregate.{TransferState, new_transfer, transfer_stream, when}

abbrev pub max_write_attempts : ℕ
max_write_attempts = 3

unfoldable pub get_by_id : Text → EventStore → Result (Aggregate TransferState)
get_by_id transfer_id store =
    load_from_history when (read_stream store (transfer_stream transfer_id) 0) new_transfer

unfoldable pub save_events :
    Text → List DomainEvent → Aggregate TransferState → EventStore → Result EventStore
save_events transfer_id [] aggregate store = ok store
save_events transfer_id (e ∷ es) aggregate store =
    append store (transfer_stream transfer_id) (e ∷ es) (aggregate.state.version - length (e ∷ es))

unfoldable pub save : Text → Aggregate TransferState → EventStore → Result EventStore
unfolding save_events pull_uncommitted_events
save transfer_id aggregate store =
    let (events, pulled) = pull_uncommitted_events aggregate in
    save_events transfer_id events pulled store

-- What other instances commit, by attempt.
pub record Others : Type 0 where
  pub before_read : ℕ → EventStore → EventStore
  pub before_write : ℕ → EventStore → EventStore

-- The end of an attempt, by the result of the write.
unfoldable pub end_write : EventStore → Result EventStore → Result (Unit {0}) × EventStore
end_write store (ok store') = (ok tt, store')
end_write store (err e) = (err e, store)

-- The end of an attempt, by the result of the operation.
unfoldable pub end_operation :
    Text
    → (EventStore → EventStore)
    → EventStore
    → Result (Aggregate TransferState)
    → Result (Unit {0}) × EventStore
unfolding end_write
end_operation transfer_id before_write store (ok transfer) =
    end_write (before_write store) (save transfer_id transfer (before_write store))
end_operation transfer_id before_write store (err e) = (err e, store)

-- `attempt < MAX_WRITE_ATTEMPTS` decides what a lost race leads to.
unfoldable pub after_conflict :
    Text
    → Bool
    → (EventStore → Result (Unit {0}) × EventStore)
    → EventStore
    → Result (Unit {0}) × EventStore
after_conflict transfer_id true rest store = rest store
after_conflict transfer_id false rest store = (
  err (
      conflict (
        text "Concurrent modification detected for transfer "
        ++ (transfer_id ++ text ". All 3 write attempts failed."))),
  store,
)

-- The `catch` block, over the rest of the loop.
unfoldable pub catch_attempt :
    Text
    → ℕ
    → (EventStore → Result (Unit {0}) × EventStore)
    → Result (Unit {0}) × EventStore
    → Result (Unit {0}) × EventStore
unfolding after_conflict
catch_attempt transfer_id attempt rest (ok u, store) = (ok tt, store)
catch_attempt transfer_id attempt rest (err (wrong_expected_version s e v), store) =
    after_conflict transfer_id (ltb attempt max_write_attempts) rest store
catch_attempt transfer_id attempt rest (err e, store) = (err e, store)

module _ (transfer_id : Text)
    (operation : ℕ → Aggregate TransferState → Result (Aggregate TransferState))
    (others : Others) where
  -- The `try` block.
  unfoldable pub attempt_once : ℕ → EventStore → Result (Unit {0}) × EventStore
  unfolding end_operation
  attempt_once attempt store =
      end_operation transfer_id (others.before_write attempt) store
        (get_by_id transfer_id store >>= operation attempt)

  -- The `for` loop, with the attempts that are left.
  unfoldable pub retry_loop : ℕ → ℕ → EventStore → Result (Unit {0}) × EventStore
  retry_loop zero attempt store = (ok tt, store)
  retry_loop (suc left) attempt store =
      catch_attempt transfer_id attempt (λ s. retry_loop left (attempt + 1) s)
        (attempt_once attempt (others.before_read attempt store))

  unfoldable pub execute_with_retry : EventStore → Result (Unit {0}) × EventStore
  execute_with_retry store = retry_loop max_write_attempts 1 store
