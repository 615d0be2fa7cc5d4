-- ===== src/Account/Repository/Consistency.antt =====
-- The stores agree: streams are numbered, every account stream replays to a solvent account, and
-- every snapshot is the replay of the part of its stream that it covers.
use event_sourced_core_banki.Base.{
  ◌+◌, ◌≤◌, ◌≡◌, refl, sym, ap, subst, ◌∙◌, Option, none, some, List, [], ◌∷◌, length, take, drop,
  take-append-drop, arith, Text, get, int_laws,
}
use event_sourced_core_banki.Common.Result.{ok, ◌>>=◌, >>=-eq-ok}
use event_sourced_core_banki.Common.Event.{DomainEvent}
use event_sourced_core_banki.Common.Aggregate.{
  Aggregate, load_from_history, replay, with_state, load_from_history-replay, replay-append,
}
use event_sourced_core_banki.Common.Money.Digits.{read_int-to_string}
use event_sourced_core_banki.Infrastructure.EventStore.{stream, read_stream, empty_store}
use event_sourced_core_banki.Infrastructure.EventStore.Streams.{
  IsNumbered, IsValid, read_stream-drop, empty_store-IsValid,
}
use event_sourced_core_banki.Infrastructure.Snapshots.{Snapshot, get_latest}
use event_sourced_core_banki.Account.Aggregate.{
  AccountState, AccountSnapshotState, new_state, new_account, account_stream, when,
  get_snapshot_state, restore_snapshot,
}
use event_sourced_core_banki.Account.Step.{IsSolvent}
use event_sourced_core_banki.Account.Repository.{
  AccountStores, from_snapshot, snapshot_version, get_by_id,
}

-- The stream of the account with this identifier.
abbrev pub account_events : AccountStores → Text → List DomainEvent
account_events stores account_id = stream stores.event_store (account_stream account_id)

-- A snapshot stands for the state that its part of the stream replays to.
abbrev pub Covers : AccountStores → Text → Snapshot AccountSnapshotState → Type 0
Covers stores stream_id snapshot =
    (snapshot.version ≤ length (stream stores.event_store stream_id))
    × (replay when (take snapshot.version (stream stores.event_store stream_id)) new_state
        ≡ ok (restore_snapshot snapshot.state snapshot.version new_account).state)

pub record IsConsistent (stores : AccountStores) : Type 0 where
  pub valid : IsValid stores.event_store
  pub covers :
      (stream_id : Text) (snapshot : Snapshot AccountSnapshotState)
      → get_latest stores.snapshots stream_id ≡ some snapshot
      → Covers stores stream_id snapshot
  pub replays :
      (account_id : Text)
      → (s : AccountState) × (replay when (account_events stores account_id) new_state ≡ ok s)
        × IsSolvent s

-- A snapshot of a state restores that state.
pub restore-get_snapshot_state :
    (s : AccountState) (a : Aggregate AccountState)
    → (restore_snapshot (get_snapshot_state s) s.version a).state ≡ s
unfolding restore_snapshot get_snapshot_state
restore-get_snapshot_state s a = rw (read_int-to_string s.balance_minor_units)

pub when-version :
    (event : DomainEvent) (s : AccountState) {s' : AccountState}
    → when event s ≡ ok s'
    → s'.version ≡ event.stream_version
unfolding when
when-version event s h = ground arith

replay-version :
    (events : List DomainEvent) (s : AccountState) {s' : AccountState}
    → IsNumbered s.version events
    → replay when events s ≡ ok s'
    → s'.version ≡ s.version + length events
unfolding replay
replay-version [] s n h = ground arith
replay-version (event ∷ events) s n h =
    let (s1, w, r) = >>=-eq-ok (when event s) _ h in
    let v : s1.version ≡ s.version + 1 = when-version event s w ∙ n.0 in
    omega (arith, v, replay-version events s1 (subst (λ k. IsNumbered k events) (sym v) n.1) r)

module _ (stores : AccountStores) (account_id : Text) (c : IsConsistent stores) where
  abbrev events : List DomainEvent
  events = account_events stores account_id

  replay-snapshot :
      (snapshot : Snapshot AccountSnapshotState)
      → Covers stores (account_stream account_id) snapshot
      → replay when
          (drop snapshot.version events)
          (restore_snapshot snapshot.state snapshot.version new_account).state
        ≡ replay when events new_state
  replay-snapshot snapshot k = sym (
      ap (λ es. replay when es new_state) (sym (take-append-drop snapshot.version events))
      ∙ replay-append when (take snapshot.version events) (drop snapshot.version events) new_state
      ∙ ap (λ r. r >>= replay when (drop snapshot.version events)) k.1)

  load_from :
      (o : Option (Snapshot AccountSnapshotState))
      → get_latest stores.snapshots (account_stream account_id) ≡ o
      → load_from_history when
          (read_stream stores.event_store (account_stream account_id) (snapshot_version o))
          (from_snapshot o)
        ≡ with_state [] (replay when events new_state)
  unfolding restore_snapshot
  load_from none e =
      rw (read_stream-drop stores.event_store (account_stream account_id) 0 c.valid)
        (load_from_history-replay when events new_account)
  load_from (some snapshot) e =
      rw (read_stream-drop stores.event_store (account_stream account_id) snapshot.version c.valid)
        (load_from_history-replay when (drop snapshot.version events)
            (restore_snapshot snapshot.state snapshot.version new_account)
          ∙ ap (with_state [])
              (replay-snapshot snapshot (c.covers (account_stream account_id) snapshot e)))

  -- In consistent stores, loading an account from its latest snapshot and the events behind it
  -- gives exactly the replay of its whole stream, with no event pending.
  pub get_by_id-replay : get_by_id account_id stores ≡ with_state [] (replay when events new_state)
  unfolding get_by_id
  get_by_id-replay = load_from (get_latest stores.snapshots (account_stream account_id)) refl

  -- The version of a loaded account is the length of its stream.
  pub version-length :
      (s : AccountState) → replay when events new_state ≡ ok s → s.version ≡ length events
  version-length s h =
      omega
        (arith, replay-version events new_state (c.valid.numbered (account_stream account_id)) h)

-- Stores in which nothing has been written.
abbrev pub empty_stores : AccountStores
empty_stores = record { event_store = empty_store; snapshots = [] }

pub empty_stores-IsConsistent : IsConsistent empty_stores
unfolding get_latest get stream replay
empty_stores-IsConsistent = record {
  valid = empty_store-IsValid;
  covers = λ stream_id snapshot h. cc;
  replays = λ account_id. (new_state, refl, omega int_laws);
}
