-- ===== src/Projection/Tests.antt =====
-- The theorems about the runner at a log with one event.
use event_sourced_core_banki.Base.{◌≡◌, refl, none, some, [], ◌∷◌, Text, pos, get, drop, arith}
use event_sourced_core_banki.Common.Result.{ok}
use event_sourced_core_banki.Common.Event.{CommandContext, DomainEvent, account_created}
use event_sourced_core_banki.Common.Aggregate.{replay}
use event_sourced_core_banki.Infrastructure.EventStore.{
  EventStore, empty_store, stream, push_all, renumber,
}
use event_sourced_core_banki.Infrastructure.EventStore.Streams.{
  IsValid, empty_store-IsValid, extended, append-extended, append-IsValid, stream-append_self,
}
use event_sourced_core_banki.Account.Aggregate.{
  AccountState, active, new_state, account_stream, when, make_event,
}
use event_sourced_core_banki.Account.ReadModel.{empty_read_models}
use event_sourced_core_banki.Account.Projector.Mirror.{Shows}
use event_sourced_core_banki.Projection.Runner.{Views, project_page, replay_from, rebuild_account}
use event_sourced_core_banki.Projection.Runner.Replay.{replay_from-whole}
use event_sourced_core_banki.Projection.Runner.Rebuild.{rebuild_account-Shows}

abbrev account_id : Text
account_id = b'a' ∷ []

abbrev context : CommandContext
context = record {
  command_id = b'c' ∷ [];
  correlation_id = b'r' ∷ [];
  causation_id = none;
  actor = none;
  trace_id = none;
}

abbrev opening : DomainEvent
opening =
    make_event new_state (account_created account_id (b'o' ∷ []) (b'E' ∷ [])) context
      (account_stream account_id) (record { uuid = b'u' ∷ []; now = 1 })

abbrev store : EventStore
store = extended empty_store (account_stream account_id) (opening ∷ [])

store-IsValid : IsValid store
unfolding stream get
store-IsValid =
    append-IsValid empty_store (account_stream account_id) (opening ∷ []) 0
      (append-extended empty_store (account_stream account_id) (opening ∷ []) 0 refl)
      empty_store-IsValid

store-stream : stream store (account_stream account_id) ≡ opening ∷ []
unfolding stream get renumber make_event
store-stream =
    stream-append_self empty_store (account_stream account_id) (opening ∷ []) 0
      (append-extended empty_store (account_stream account_id) (opening ∷ []) 0 refl)

abbrev opened : AccountState
opened = record {
  account_id = some account_id;
  owner_id = some (b'o' ∷ []);
  currency = some (b'E' ∷ []);
  status = active;
  balance_minor_units = pos 0;
  version = 1;
}

abbrev views : Views
views = record { accounts = empty_read_models; transfers = [] }

rebuild_account-Shows_example :
    (views' : Views) × (rebuild_account account_id store views ≡ (ok tt, views'))
    × Shows views'.accounts account_id opened
    × (views'.transfers ≡ views.transfers)
unfolding replay when make_event
rebuild_account-Shows_example =
    rebuild_account-Shows store account_id (b'o' ∷ []) (b'E' ∷ []) opening [] opened views
      store-IsValid store-stream refl tt refl

replay_from-whole_example :
    replay_from 2 store 0 views ≡ some (project_page (drop 0 store.all_events) 0 views)
unfolding extended push_all renumber stream get
replay_from-whole_example = replay_from-whole store 0 2 views store-IsValid (omega arith)
