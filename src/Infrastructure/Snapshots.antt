-- ===== src/Infrastructure/Snapshots.antt =====
-- infrastructure/snapshots/in-memory-snapshot-store.ts, for the states of one aggregate. Nothing
-- reads `createdAt`, so it is left out.
use event_sourced_core_banki.Base.{
  ℕ, ◌≡◌, ◌⊎◌, Option, none, some, arith, leb, if◌then◌else◌, Text, eq_iff, Dict, get, put, get-put,
}

pub record Snapshot (S : Type 0) : Type 0 where
  pub stream_id : Text
  pub version : ℕ
  pub state : S

abbrev pub SnapshotStore : Type 0 → Type 0
SnapshotStore S = Dict (Snapshot S)

module _ {S : Type 0} where
  unfoldable pub get_latest : SnapshotStore S → Text → Option (Snapshot S)
  get_latest snapshots stream_id = get snapshots stream_id

  unfoldable pub save_snapshot : SnapshotStore S → Snapshot S → SnapshotStore S
  unfolding get_latest
  save_snapshot snapshots snapshot = elim (get_latest snapshots snapshot.stream_id) [
    | none ↦ put snapshots snapshot.stream_id snapshot
    | some current ↦
        if leb snapshot.version current.version
        then snapshots
        else put snapshots snapshot.stream_id snapshot
  ]

module _ {S : Type 0} where
  -- After a save, what is stored for a stream was stored before or is the saved snapshot.
  pub get_latest-save_snapshot :
      (m : SnapshotStore S) (snapshot t : Snapshot S) (k : Text)
      → get_latest (save_snapshot m snapshot) k ≡ some t
      → (get_latest m k ≡ some t) ⊎ ((snapshot.stream_id ≡ k) × (snapshot ≡ t))
  unfolding save_snapshot
  get_latest-save_snapshot m snapshot t k h =
      ground (arith, get-put m snapshot.stream_id k snapshot, eq_iff snapshot.stream_id k)
