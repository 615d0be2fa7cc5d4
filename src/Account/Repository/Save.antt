-- ===== src/Account/Repository/Save.antt =====
-- Saving an account after one command keeps the stores consistent.
use event_sourced_core_banki.Base.{
  ◌+◌, ◌-◌, ◌≡◌, ◌≢◌, sym, ap, subst, ◌∙◌, some, Bool, true, false, inl, inr, [], ◌∷◌, ◌++◌, length,
  length-append, take, take-append, take-length, arith, Text, ◌==◌, eq_iff, Bool-cases,
  if◌then◌else◌,
}
use event_sourced_core_banki.Common.Result.{ok, ◌>>=◌, ok-injective}
use event_sourced_core_banki.Common.Event.{DomainEvent}
use event_sourced_core_banki.Common.Aggregate.{
  Aggregate, replay, replay-append, replay-one, pull_uncommitted_events,
}
use event_sourced_core_banki.Infrastructure.EventStore.{EventStore, stream, append}
use event_sourced_core_banki.Infrastructure.EventStore.Streams.{
  append-extended, extended, append-IsValid, stream-append_self, stream-append_ne, renumber_self,
}
use event_sourced_core_banki.Infrastructure.Snapshots.{
  Snapshot, get_latest, save_snapshot, get_latest-save_snapshot,
}
use event_sourced_core_banki.Account.Aggregate.{
  AccountState, AccountSnapshotState, new_state, new_account, account_stream, when,
  get_snapshot_state,
}
use event_sourced_core_banki.Account.Step.{Step, Raises, IsSolvent, Step-IsSolvent}
use event_sourced_core_banki.Account.Repository.{AccountStores, save, save_events, crosses_boundary}
use event_sourced_core_banki.Account.Repository.Consistency.{
  account_events, Covers, IsConsistent, restore-get_snapshot_state, when-version, version-length,
}

abbrev pub snapshot_of : Text → AccountState → Snapshot AccountSnapshotState
snapshot_of account_id s = record {
  stream_id = account_stream account_id;
  version = s.version;
  state = get_snapshot_state s;
}

-- The stores after the write of one event.
abbrev pub after_save : Text → AccountState → AccountStores → EventStore → AccountStores
after_save account_id s stores event_store = record {
  event_store = event_store;
  snapshots =
      if crosses_boundary (s.version - 1) s.version
      then save_snapshot stores.snapshots (snapshot_of account_id s)
      else stores.snapshots;
}

save-one :
    (account_id : Text) (a : Aggregate AccountState) (stores : AccountStores) (event : DomainEvent)
    (event_store : EventStore)
    → a.uncommitted_events ≡ event ∷ []
    → append stores.event_store (account_stream account_id) (event ∷ []) (a.state.version - 1)
      ≡ ok event_store
    → save account_id a stores
      ≡ ok (record a { uncommitted_events = [] }, after_save account_id a.state stores event_store)
unfolding save save_events pull_uncommitted_events
save-one account_id a stores event event_store one appended = rw (one, appended)

module _ (stores : AccountStores) (account_id : Text) (c : IsConsistent stores) (s : AccountState)
    (loaded : replay when (account_events stores account_id) new_state ≡ ok s)
    (a : Aggregate AccountState) (step : Step s a.state)
    (raises : Raises (record { state = s; uncommitted_events = [] }) a) where
  -- The version that the command leaves is one more than the length of the stream.
  next_version : a.state.version ≡ length (account_events stores account_id) + 1
  next_version = omega (
    arith,
    when-version raises.event s raises.applied,
    raises.numbered,
    version-length stores account_id c s loaded,
  )

  accepted :
      append stores.event_store
        (account_stream account_id)
        (raises.event ∷ [])
        (a.state.version - 1)
      ≡ ok (extended stores.event_store (account_stream account_id) (raises.event ∷ []))
  accepted =
      append-extended stores.event_store (account_stream account_id) (raises.event ∷ [])
        (a.state.version - 1) (omega (arith, next_version))

  abbrev pub saved : AccountStores
  saved =
      after_save account_id a.state stores
        (extended stores.event_store (account_stream account_id) (raises.event ∷ []))

  -- The write of one event is accepted.
  pub save-accepted : save account_id a stores ≡ ok (record a { uncommitted_events = [] }, saved)
  save-accepted = save-one account_id a stores raises.event _ raises.pending accepted

  -- The stream grows by the event that the command raised.
  pub account_events-saved :
      account_events saved account_id ≡ account_events stores account_id ++ raises.event ∷ []
  account_events-saved =
      stream-append_self stores.event_store (account_stream account_id) (raises.event ∷ [])
        (a.state.version - 1) accepted
      ∙ ap (λ t. account_events stores account_id ++ t)
          (renumber_self (a.state.version - 1) (raises.event ∷ [])
            (omega (arith, when-version raises.event s raises.applied, next_version), tt))

  pub replay-saved : replay when (account_events saved account_id) new_state ≡ ok a.state
  replay-saved =
      ap (λ es. replay when es new_state) account_events-saved
      ∙ replay-append when (account_events stores account_id) (raises.event ∷ []) new_state
      ∙ ap (λ r. r >>= replay when (raises.event ∷ [])) loaded
      ∙ replay-one when raises.event s
      ∙ raises.applied

  -- Every other stream stays as it is.
  pub other_stream :
      (j : Text)
      → account_stream account_id ≢ j
      → stream saved.event_store j ≡ stream stores.event_store j
  other_stream j ne =
      stream-append_ne stores.event_store (account_stream account_id) (raises.event ∷ [])
        (a.state.version - 1) accepted j ne

  IsSolvent-before : IsSolvent s
  IsSolvent-before =
      let (s0, r0, solvent) = c.replays account_id in
      subst IsSolvent (ok-injective (sym r0 ∙ loaded)) solvent

  -- Old snapshots keep their part of the stream.
  Covers-old :
      (k : Text) (snapshot : Snapshot AccountSnapshotState)
      → Covers stores k snapshot
      → Covers saved k snapshot
  Covers-old k snapshot (fits, same) = elim (Bool-cases (account_stream account_id == k)) [
    | inl e ↦
        subst (λ j. Covers stores j snapshot → Covers saved j snapshot)
          ((eq_iff (account_stream account_id) k).0 e)
          (λ (fits', same'). (
            rw account_events-saved (
                omega (
                  arith,
                  fits',
                  length-append (account_events stores account_id) (raises.event ∷ []),
                )),
            rw
                (
                  account_events-saved,
                  take-append snapshot.version (account_events stores account_id)
                      (raises.event ∷ []) fits',
                )
                same',
          ))
          (fits, same)
    | inr e ↦
        rw (other_stream k (λ p. cc ((eq_iff (account_stream account_id) k).1 p))) (fits, same)
  ]

  whole : take a.state.version (account_events saved account_id) ≡ account_events saved account_id
  whole =
      ap (λ n. take n (account_events saved account_id))
        (omega (
          arith,
          next_version,
          ap length account_events-saved,
          length-append (account_events stores account_id) (raises.event ∷ []),
        ))
      ∙ take-length (account_events saved account_id)

  Covers-new : Covers saved (account_stream account_id) (snapshot_of account_id a.state)
  Covers-new = (
    rw account_events-saved (
        omega (
          arith,
          next_version,
          length-append (account_events stores account_id) (raises.event ∷ []),
        )),
    ap (λ es. replay when es new_state) whole
        ∙ replay-saved
        ∙ ap ok (sym (restore-get_snapshot_state a.state new_account)),
  )

  Covers-latest :
      (b : Bool) (k : Text) (snapshot : Snapshot AccountSnapshotState)
      → get_latest
          (if b
            then save_snapshot stores.snapshots (snapshot_of account_id a.state)
            else stores.snapshots)
          k
        ≡ some snapshot
      → Covers saved k snapshot
  Covers-latest true k snapshot h =
      elim (get_latest-save_snapshot stores.snapshots (snapshot_of account_id a.state) snapshot k
        h) [
          | inl old ↦ Covers-old k snapshot (c.covers k snapshot old)
          | inr (same, new) ↦
              subst (λ j. Covers saved j snapshot) same
                (subst (Covers saved (account_stream account_id)) new Covers-new)
        ]
  Covers-latest false k snapshot h = Covers-old k snapshot (c.covers k snapshot h)

  replays-saved :
      (j : Text)
      → (t : AccountState) × (replay when (account_events saved j) new_state ≡ ok t) × IsSolvent t
  replays-saved j = elim (Bool-cases (account_stream account_id == account_stream j)) [
    | inl e ↦ (
      a.state,
      ap (λ k. replay when (stream saved.event_store k) new_state)
            (sym ((eq_iff (account_stream account_id) (account_stream j)).0 e))
          ∙ replay-saved,
      Step-IsSolvent step IsSolvent-before,
    )
    | inr e ↦
        let (t, r, solvent) = c.replays j in
        (
          t,
          ap (λ es. replay when es new_state)
                (other_stream (account_stream j)
                  (λ p. cc ((eq_iff (account_stream account_id) (account_stream j)).1 p)))
              ∙ r,
          solvent,
        )
  ]

  -- The stores after the write are consistent.
  pub save-IsConsistent : IsConsistent saved
  save-IsConsistent = record {
    valid =
        append-IsValid stores.event_store (account_stream account_id) (raises.event ∷ [])
          (a.state.version - 1) accepted c.valid;
    covers = Covers-latest (crosses_boundary (a.state.version - 1) a.state.version);
    replays = replays-saved;
  }
