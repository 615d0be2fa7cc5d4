-- ===== src/Account/Repository.antt =====
-- modules/accounts/domain/account.repository.ts. A method returns its result and the stores after
-- it. What other instances of the service commit while a method waits is an argument: a change of
-- the stores before each read and before each write. An account that has events pending has at
-- least their number as its version, so the difference of the two is exact.
pub mod Consistency
pub mod Save
pub mod Retry
pub mod Quiet
pub mod Foreign
pub mod Lock
use event_sourced_core_banki.Base.{
  ℕ, zero, suc, ◌+◌, ◌-◌, ◌/◌, Option, none, some, Bool, true, false, List, [], ◌∷◌, ◌++◌, length,
  ltb, if◌then◌else◌, Text, text,
}
use event_sourced_core_banki.Common.Result.{
  Error, Result, ok, err, conflict, wrong_expected_version, ◌>>=◌,
}
use event_sourced_core_banki.Common.Event.{DomainEvent}
use event_sourced_core_banki.Common.Aggregate.{
  Aggregate, load_from_history, pull_uncommitted_events,
}
use event_sourced_core_banki.Infrastructure.EventStore.{EventStore, read_stream, append}
use event_sourced_core_banki.Infrastructure.Snapshots.{
  Snapshot, SnapshotStore, get_latest, save_snapshot,
}
use event_sourced_core_banki.Account.Aggregate.{
  AccountState, AccountSnapshotState, new_account, account_stream, when, get_snapshot_state,
  restore_snapshot,
}

abbrev pub snapshot_interval : ℕ
snapshot_interval = 50

abbrev pub max_write_attempts : ℕ
max_write_attempts = 3

pub record AccountStores : Type 0 where
  pub event_store : EventStore
  pub snapshots : SnapshotStore AccountSnapshotState

abbrev pub from_snapshot : Option (Snapshot AccountSnapshotState) → Aggregate AccountState
from_snapshot none = new_account
from_snapshot (some snapshot) = restore_snapshot snapshot.state snapshot.version new_account

-- `snapshot?.version ?? 0`
abbrev pub snapshot_version : Option (Snapshot AccountSnapshotState) → ℕ
snapshot_version none = 0
snapshot_version (some snapshot) = snapshot.version

unfoldable pub get_by_id : Text → AccountStores → Result (Aggregate AccountState)
get_by_id account_id stores =
    let stream_id = account_stream account_id in
    let snapshot = get_latest stores.snapshots stream_id in
    let events = read_stream stores.event_store stream_id (snapshot_version snapshot) in
    load_from_history when events (from_snapshot snapshot)

-- `if (currentSnapshotBoundary > previousSnapshotBoundary)`
unfoldable pub crosses_boundary : ℕ → ℕ → Bool
crosses_boundary expected_version version =
    ltb (expected_version / snapshot_interval) (version / snapshot_interval)

unfoldable pub save_events :
    Text
    → List DomainEvent
    → Aggregate AccountState
    → AccountStores
    → Result (Aggregate AccountState × AccountStores)
save_events account_id [] aggregate stores = ok (aggregate, stores)
save_events account_id (e ∷ es) aggregate stores = do
  let stream_id = account_stream account_id
  let expected_version = aggregate.state.version - length (e ∷ es)
  event_store ← append stores.event_store stream_id (e ∷ es) expected_version
  ok (
    aggregate,
    record {
      event_store = event_store;
      snapshots =
          if crosses_boundary expected_version aggregate.state.version
          then save_snapshot stores.snapshots (record {
            stream_id = stream_id;
            version = aggregate.state.version;
            state = get_snapshot_state aggregate.state;
          })
          else stores.snapshots;
    },
  )

unfoldable pub save :
    Text → Aggregate AccountState → AccountStores → Result (Aggregate AccountState × AccountStores)
unfolding save_events pull_uncommitted_events
save account_id aggregate stores =
    let (events, pulled) = pull_uncommitted_events aggregate in
    save_events account_id events pulled stores

-- What other instances commit, by attempt.
pub record Others : Type 0 where
  pub before_read : ℕ → AccountStores → AccountStores
  pub before_write : ℕ → AccountStores → AccountStores

-- The end of an attempt, by the result of the write.
unfoldable pub end_write :
    AccountStores
    → Result (Aggregate AccountState × AccountStores)
    → Result (Unit {0}) × AccountStores
end_write stores (ok (_, stores')) = (ok tt, stores')
end_write stores (err e) = (err e, stores)

-- The end of an attempt, by the result of the operation.
unfoldable pub end_operation :
    Text
    → (AccountStores → AccountStores)
    → AccountStores
    → Result (Aggregate AccountState)
    → Result (Unit {0}) × AccountStores
unfolding end_write
end_operation account_id before_write stores (ok account) =
    end_write (before_write stores) (save account_id account (before_write stores))
end_operation account_id before_write stores (err e) = (err e, stores)

-- `attempt < MAX_WRITE_ATTEMPTS` decides what a lost race leads to.
unfoldable pub after_conflict :
    Text
    → Bool
    → (AccountStores → Result (Unit {0}) × AccountStores)
    → AccountStores
    → Result (Unit {0}) × AccountStores
after_conflict account_id true rest stores = rest stores
after_conflict account_id false rest stores = (
  err (
      conflict (
        text "Concurrent modification detected for account "
        ++ (account_id ++ text ". All 3 write attempts failed."))),
  stores,
)

-- The `catch` block, over the rest of the loop.
unfoldable pub catch_attempt :
    Text
    → ℕ
    → (AccountStores → Result (Unit {0}) × AccountStores)
    → Result (Unit {0}) × AccountStores
    → Result (Unit {0}) × AccountStores
unfolding after_conflict
catch_attempt account_id attempt rest (ok u, stores) = (ok tt, stores)
catch_attempt account_id attempt rest (err (wrong_expected_version s e v), stores) =
    after_conflict account_id (ltb attempt max_write_attempts) rest stores
catch_attempt account_id attempt rest (err e, stores) = (err e, stores)

module _ (account_id : Text)
    (operation : ℕ → Aggregate AccountState → Result (Aggregate AccountState))
    (others : Others) where
  -- The `try` block.
  unfoldable pub attempt_once : ℕ → AccountStores → Result (Unit {0}) × AccountStores
  unfolding end_operation
  attempt_once attempt stores =
      end_operation account_id (others.before_write attempt) stores
        (get_by_id account_id stores >>= operation attempt)

  -- The `for` loop, with the attempts that are left.
  unfoldable pub retry_loop : ℕ → ℕ → AccountStores → Result (Unit {0}) × AccountStores
  retry_loop zero attempt stores = (ok tt, stores)
  retry_loop (suc left) attempt stores =
      catch_attempt account_id attempt (λ s. retry_loop left (attempt + 1) s)
        (attempt_once attempt (others.before_read attempt stores))

  unfoldable pub execute_with_retry : AccountStores → Result (Unit {0}) × AccountStores
  execute_with_retry stores = retry_loop max_write_attempts 1 stores
