-- ===== src/Account/Projector/Tests.antt =====
-- The theorems about the projector at a stream of two events.
use event_sourced_core_banki.Base.{ℕ, ◌≡◌, refl, none, some, [], ◌∷◌, Text, pos, ◌+ℤ◌, get}
use event_sourced_core_banki.Common.Result.{ok, err, projection_gap}
use event_sourced_core_banki.Common.Event.{
  CommandContext, DomainEvent, EventBody, account_created, money_deposited,
}
use event_sourced_core_banki.Common.Aggregate.{replay}
use event_sourced_core_banki.Common.Money.{parse_money_to_minor_units}
use event_sourced_core_banki.Account.Aggregate.{AccountState, active, new_state, when}
use event_sourced_core_banki.Account.ReadModel.{
  AccountReadModels, empty_read_models, get_account_summary,
}
use event_sourced_core_banki.Account.Projector.Mirror.{Shows, IsOf}
use event_sourced_core_banki.Account.Projector.Delivery.{project_all, project_stream}
use event_sourced_core_banki.Account.Projector.Delivery.Again.{replayed_from, lost_event_noticed}

abbrev account_id : Text
account_id = b'a' ∷ []

abbrev euro : Text
euro = b'E' ∷ []

abbrev context : CommandContext
context = record {
  command_id = b'c' ∷ [];
  correlation_id = [];
  causation_id = none;
  actor = none;
  trace_id = none;
}

abbrev event : ℕ → EventBody → DomainEvent
event version body = record {
  event_id = version ∷ [];
  stream_id = b's' ∷ [];
  stream_version = version;
  body = body;
  occurred_at = 7;
  metadata = context;
}

abbrev created : DomainEvent
created = event 1 (account_created account_id (b'o' ∷ []) euro)

abbrev deposited : ℕ → DomainEvent
deposited version =
    event version
      (money_deposited (some account_id) (b'1' ∷ b'0' ∷ b'.' ∷ b'5' ∷ []) euro (b't' ∷ []))

abbrev state : AccountState
state = record {
  account_id = some account_id;
  owner_id = some (b'o' ∷ []);
  currency = some euro;
  status = active;
  balance_minor_units = pos 1050;
  version = 2;
}

replays : replay when (created ∷ deposited 2 ∷ []) new_state ≡ ok state
unfolding replay when parse_money_to_minor_units ◌+ℤ◌
replays = refl

project_stream_example :
    (m' : AccountReadModels) × (project_all [] (created ∷ deposited 2 ∷ []) empty_read_models
      ≡ ok m')
    × Shows m' account_id state
unfolding IsOf get_account_summary get
project_stream_example =
    project_stream [] account_id (b'o' ∷ []) euro created (deposited 2 ∷ []) empty_read_models state
      refl refl (refl, tt) (refl, (refl, tt)) replays

-- The deposit comes again.
replayed_from_example :
    (m' : AccountReadModels) × (project_all [] (created ∷ deposited 2 ∷ []) empty_read_models
      ≡ ok m')
    × (project_all [] (deposited 2 ∷ []) m' ≡ ok m')
unfolding IsOf get_account_summary get
replayed_from_example =
    replayed_from [] account_id (b'o' ∷ []) euro created (deposited 2 ∷ []) empty_read_models state
      1 refl refl (refl, tt) (refl, (refl, tt)) replays

-- The third event gets lost.
lost_event_noticed_example :
    project_all [] (created ∷ deposited 2 ∷ deposited 4 ∷ []) empty_read_models
    ≡ err (projection_gap account_id 3 4)
unfolding IsOf get_account_summary get
lost_event_noticed_example =
    lost_event_noticed [] account_id (b'o' ∷ []) euro created (deposited 3) (deposited 4)
      (deposited 2 ∷ []) [] empty_read_models state refl refl (refl, tt) refl
      (refl, (refl, (refl, (refl, tt)))) replays
