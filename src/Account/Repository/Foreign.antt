-- ===== src/Account/Repository/Foreign.antt =====
-- Accounts share their event store with other streams, whose events keep the stores consistent.
use event_sourced_core_banki.Base.{
  ◌≡◌, ap, ◌∙◌, List, ◌++◌, length, length-append, take, take-append, arith, Text,
}
use event_sourced_core_banki.Common.Event.{DomainEvent}
use event_sourced_core_banki.Common.Aggregate.{replay}
use event_sourced_core_banki.Infrastructure.EventStore.{EventStore, stream}
use event_sourced_core_banki.Infrastructure.EventStore.Streams.{IsValid}
use event_sourced_core_banki.Infrastructure.Snapshots.{Snapshot}
use event_sourced_core_banki.Account.Aggregate.{
  AccountSnapshotState, account_stream, new_state, when,
}
use event_sourced_core_banki.Account.Repository.{AccountStores}
use event_sourced_core_banki.Account.Repository.Consistency.{Covers, IsConsistent}

module _ (stores : AccountStores) (c : IsConsistent stores) (event_store : EventStore)
    (valid : IsValid event_store)
    (grows : (k : Text)
      → (tail : List DomainEvent) × (stream event_store k ≡ stream stores.event_store k ++ tail))
    (same : (account_id : Text)
      → stream event_store (account_stream account_id)
        ≡ stream stores.event_store (account_stream account_id)) where
  abbrev grown : AccountStores
  grown = record stores { event_store = event_store }

  Covers-grown :
      (k : Text) (snapshot : Snapshot AccountSnapshotState)
      → Covers stores k snapshot
      → Covers grown k snapshot
  Covers-grown k snapshot (fits, covered) =
      let (tail, e) = grows k in
      (
        omega (arith, fits, ap length e, length-append (stream stores.event_store k) tail),
        ap (λ es. replay when (take snapshot.version es) new_state) e
            ∙ ap (λ es. replay when es new_state)
                (take-append snapshot.version (stream stores.event_store k) tail fits)
            ∙ covered,
      )

  -- An event store in which only other streams have grown.
  pub grown-IsConsistent : IsConsistent grown
  grown-IsConsistent = record {
    valid = valid;
    covers = λ k snapshot h. Covers-grown k snapshot (c.covers k snapshot h);
    replays = λ account_id.
        let (s, r, solvent) = c.replays account_id in
        (s, ap (λ es. replay when es new_state) (same account_id) ∙ r, solvent);
  }
