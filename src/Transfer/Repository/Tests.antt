-- ===== src/Transfer/Repository/Tests.antt =====
-- The theorems about the transfer repository at an initiation.
use event_sourced_core_banki.Base.{
  ℕ, ◌≡◌, sym, append-nil, refl, none, some, [], ◌∷◌, Text, inl, pos, get, ◌==◌,
}
use event_sourced_core_banki.Common.Result.{ok}
use event_sourced_core_banki.Common.Event.{CommandContext, Stamp, transfer_initiated}
use event_sourced_core_banki.Common.Aggregate.{Aggregate, apply, replay}
use event_sourced_core_banki.Common.Money.{
  MoneyInput, parse_money_to_minor_units, format_minor_units_to_money, with_point, pad_start,
  to_string,
}
use event_sourced_core_banki.Infrastructure.EventStore.{empty_store, stream}
use event_sourced_core_banki.Infrastructure.EventStore.Streams.{empty_store-IsValid}
use event_sourced_core_banki.Transfer.Aggregate.{
  TransferState, initiated, new_state, new_transfer, make_event, initiate, when,
}
use event_sourced_core_banki.Transfer.Command.{TransferCommand, initiate_transfer, run_command}
use event_sourced_core_banki.Transfer.Lifecycle.Commands.{IsNamed}
use event_sourced_core_banki.Transfer.Repository.{execute_with_retry}
use event_sourced_core_banki.Transfer.Repository.Retry.{
  IsKept, OnlyAppends, IsSound, transfer-IsSound,
}
use event_sourced_core_banki.Transfer.Repository.Quiet.{
  nobody, transfer_events, Appended, operation, transfer_success,
}

abbrev transfer_id : Text
transfer_id = b'x' ∷ []

abbrev context : CommandContext
context = record {
  command_id = b'c' ∷ [];
  correlation_id = transfer_id;
  causation_id = none;
  actor = none;
  trace_id = none;
}

abbrev stamps : ℕ → Stamp
stamps n = record { uuid = b'u' ∷ []; now = n }

abbrev initiation : TransferCommand
initiation =
    initiate_transfer transfer_id (b'a' ∷ []) (b'b' ∷ [])
      (MoneyInput.string (b'2' ∷ b'.' ∷ b'5' ∷ [])) (b'E' ∷ []) context

abbrev started : Aggregate TransferState
started = record {
  state = record new_state {
    transfer_id = some transfer_id;
    source_account_id = some (b'a' ∷ []);
    destination_account_id = some (b'b' ∷ []);
    amount_minor_units = pos 250;
    currency = some (b'E' ∷ []);
    status = some initiated;
    version = 1;
    created_at = some 1;
    updated_at = some 1;
  };
  uncommitted_events =
      make_event new_state
        (transfer_initiated transfer_id (b'a' ∷ []) (b'b' ∷ [])
          (format_minor_units_to_money (pos 250)) (b'E' ∷ []))
        context (stamps 1)
      ∷ [];
}

starts : run_command initiation (stamps 1) new_transfer ≡ ok started
unfolding run_command initiate apply when make_event parse_money_to_minor_units
    format_minor_units_to_money with_point pad_start to_string ◌==◌
starts = refl

nothing_stored : (id : Text) → replay when (transfer_events empty_store id) new_state ≡ ok new_state
unfolding replay stream get
nothing_stored id = refl

nothing_yet : replay when (transfer_events empty_store transfer_id) new_state ≡ ok new_state
unfolding replay stream get
nothing_yet = refl

transfer_success_example :
    Appended
      (execute_with_retry transfer_id (operation initiation stamps) nobody empty_store)
      transfer_id
      empty_store
      started.state
unfolding IsNamed
transfer_success_example =
    transfer_success transfer_id initiation stamps empty_store empty_store-IsValid new_state
      nothing_yet (inl (refl, refl)) refl started starts

empty_store-IsKept : IsKept empty_store
empty_store-IsKept = record {
  valid = empty_store-IsValid;
  replays = λ id. (new_state, nothing_stored id, inl (refl, refl));
}

nobody-OnlyAppends : OnlyAppends nobody
nobody-OnlyAppends = record {
  reads = λ n store kept. kept;
  writes = λ n store kept. kept;
  appends = λ n store id. ([], sym (append-nil (transfer_events store id)));
}

initiation-IsNamed : IsNamed initiation
unfolding IsNamed
initiation-IsNamed = refl

transfer-IsSound_example :
    IsSound transfer_id initiation stamps initiation-IsNamed
      (execute_with_retry transfer_id (operation initiation stamps) nobody empty_store)
transfer-IsSound_example =
    transfer-IsSound transfer_id initiation stamps initiation-IsNamed nobody nobody-OnlyAppends
      empty_store empty_store-IsKept
