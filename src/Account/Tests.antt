-- ===== src/Account/Tests.antt =====
-- The theorems about accounts at concrete accounts, commands and stores.
use event_sourced_core_banki.Base.{
  ℕ, ◌≡◌, refl, sym, get, none, some, [], ◌∷◌, append-nil, Text, text, pos, ◌+ℤ◌,
}
use event_sourced_core_banki.Common.Result.{ok, err, bad_request}
use event_sourced_core_banki.Common.Event.{CommandContext, Stamp, account_created, money_deposited}
use event_sourced_core_banki.Common.Aggregate.{Aggregate, apply, with_state, replay}
use event_sourced_core_banki.Common.Money.{
  MoneyInput, parse_money_to_minor_units, format_minor_units_to_money,
}
use event_sourced_core_banki.Account.Aggregate.{
  AccountState, active, new_state, new_account, account_stream, when, make_event, create, deposit,
  withdraw,
}
use event_sourced_core_banki.Account.Command.{
  AccountCommand, create_account, deposit_money, withdraw_money, run_command,
}
use event_sourced_core_banki.Account.Step.{Step, Raises}
use event_sourced_core_banki.Infrastructure.EventStore.{stream}
use event_sourced_core_banki.Account.Refinement.{run_command-Step}
use event_sourced_core_banki.Account.Amounts.{deposit_outcome, withdraw_outcome}
use event_sourced_core_banki.Account.Repository.{AccountStores, get_by_id, execute_with_retry}
use event_sourced_core_banki.Account.Repository.Consistency.{
  account_events, empty_stores, empty_stores-IsConsistent, get_by_id-replay,
}
use event_sourced_core_banki.Account.Repository.Retry.{
  OnlyAppends, operation, IsSound, execute_with_retry-IsSound,
}
use event_sourced_core_banki.Account.Repository.Quiet.{nobody, Appended, quiet_success}

abbrev account_id : Text
account_id = b'a' ∷ []

abbrev euro : Text
euro = b'E' ∷ b'U' ∷ b'R' ∷ []

abbrev context : CommandContext
context = record {
  command_id = b'c' ∷ [];
  correlation_id = b'r' ∷ [];
  causation_id = none;
  actor = none;
  trace_id = none;
}

abbrev stamps : ℕ → Stamp
stamps n = record { uuid = b'u' ∷ []; now = n }

abbrev creation : AccountCommand
creation = create_account account_id (b'o' ∷ []) euro context

abbrev opened_account : Aggregate AccountState
opened_account = record {
  state = record {
    account_id = some account_id;
    owner_id = some (b'o' ∷ []);
    currency = some euro;
    status = active;
    balance_minor_units = pos 0;
    version = 1;
  };
  uncommitted_events =
      make_event new_state (account_created account_id (b'o' ∷ []) euro) context
        (account_stream account_id) (stamps 1)
      ∷ [];
}

opens : run_command creation (stamps 1) new_account ≡ ok opened_account
unfolding run_command create apply when make_event
opens = refl

nothing_yet : replay when (account_events empty_stores account_id) new_state ≡ ok new_state
unfolding replay stream get
nothing_yet = refl

opening :
    Appended
      (execute_with_retry account_id (operation account_id creation stamps) nobody empty_stores)
      account_id
      empty_stores
      opened_account.state
opening =
    quiet_success account_id creation stamps empty_stores empty_stores-IsConsistent new_state
      nothing_yet opened_account opens

abbrev open_stores : AccountStores
open_stores = opening.after

-- The opened account, as it is loaded.
abbrev loaded_account : Aggregate AccountState
loaded_account = record opened_account { uncommitted_events = [] }

abbrev ten_and_half : MoneyInput
ten_and_half = MoneyInput.string (b'1' ∷ b'0' ∷ b'.' ∷ b'5' ∷ [])

abbrev deposit_ten : AccountCommand
deposit_ten = deposit_money account_id ten_and_half euro context (b't' ∷ [])

abbrev deposited_account : Aggregate AccountState
deposited_account = record {
  state = record opened_account.state { balance_minor_units = pos 1050; version = 2 };
  uncommitted_events =
      make_event opened_account.state
        (money_deposited (some account_id) (format_minor_units_to_money (pos 1050)) euro
          (b't' ∷ []))
        context (account_stream account_id) (stamps 1)
      ∷ [];
}

parsed_ten : parse_money_to_minor_units ten_and_half ≡ ok (pos 1050)
unfolding parse_money_to_minor_units
parsed_ten = refl

deposits : run_command deposit_ten (stamps 1) loaded_account ≡ ok deposited_account
unfolding run_command ◌+ℤ◌
deposits =
    deposit_outcome loaded_account ten_and_half euro (b't' ∷ []) context (stamps 1) (pos 1050) refl
      refl parsed_ten

deposit_outcome_example :
    deposit ten_and_half euro (b't' ∷ []) context (stamps 1) loaded_account ≡ ok deposited_account
unfolding ◌+ℤ◌
deposit_outcome_example =
    deposit_outcome loaded_account ten_and_half euro (b't' ∷ []) context (stamps 1) (pos 1050) refl
      refl parsed_ten

withdraw_outcome_example :
    withdraw ten_and_half euro (b't' ∷ []) context (stamps 1) loaded_account
    ≡ err (bad_request (text "Insufficient funds"))
withdraw_outcome_example =
    withdraw_outcome loaded_account ten_and_half euro (b't' ∷ []) context (stamps 1) (pos 1050) refl
      refl parsed_ten

run_command-Step_example :
    Step loaded_account.state deposited_account.state × Raises loaded_account deposited_account
run_command-Step_example = run_command-Step deposit_ten (stamps 1) loaded_account deposits

quiet_success_example :
    Appended
      (execute_with_retry account_id (operation account_id deposit_ten stamps) nobody open_stores)
      account_id
      open_stores
      deposited_account.state
quiet_success_example =
    quiet_success account_id deposit_ten stamps open_stores opening.consistent opened_account.state
      opening.result deposited_account deposits

-- A withdrawal that the balance does not cover.
abbrev withdraw_ten : AccountCommand
withdraw_ten = withdraw_money account_id ten_and_half euro context (b't' ∷ [])

refuses :
    run_command withdraw_ten (stamps 1) loaded_account
    ≡ err (bad_request (text "Insufficient funds"))
unfolding run_command
refuses =
    withdraw_outcome loaded_account ten_and_half euro (b't' ∷ []) context (stamps 1) (pos 1050) refl
      refl parsed_ten

nobody-OnlyAppends : OnlyAppends nobody
nobody-OnlyAppends = record {
  reads = λ n stores c. c;
  writes = λ n stores c. c;
  appends = λ n stores id. ([], sym (append-nil (account_events stores id)));
}

execute_with_retry-IsSound_example :
    IsSound account_id deposit_ten stamps
      (execute_with_retry account_id (operation account_id deposit_ten stamps) nobody open_stores)
execute_with_retry-IsSound_example =
    execute_with_retry-IsSound account_id deposit_ten stamps nobody nobody-OnlyAppends open_stores
      opening.consistent

get_by_id-replay_example :
    get_by_id account_id open_stores
    ≡ with_state [] (replay when (account_events open_stores account_id) new_state)
get_by_id-replay_example = get_by_id-replay open_stores account_id opening.consistent
