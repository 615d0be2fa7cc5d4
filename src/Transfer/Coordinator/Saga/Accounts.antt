-- ===== src/Transfer/Coordinator/Saga/Accounts.antt =====
-- Stores with two accounts, of which one has money, for the theorems about the saga.
use event_sourced_core_banki.Base.{
  ℕ, ◌≡◌, refl, sym, ap, ◌∙◌, none, some, [], ◌∷◌, Text, pos, ◌+ℤ◌, ◌==◌, ◌≢◌, get, arith,
}
use event_sourced_core_banki.Common.Result.{ok}
use event_sourced_core_banki.Common.Event.{
  CommandContext, Stamp, account_created, money_deposited, account_frozen,
}
use event_sourced_core_banki.Common.Aggregate.{apply, replay}
use event_sourced_core_banki.Common.Money.{
  MoneyInput, parse_money_to_minor_units, format_minor_units_to_money, with_point, pad_start,
  to_string,
}
use event_sourced_core_banki.Infrastructure.EventStore.{stream}
use event_sourced_core_banki.Account.Aggregate.{
  AccountState, active, frozen, new_state, new_account, account_stream, when, make_event, create,
  deposit, freeze, ensure_active, ensure_currency,
}
use event_sourced_core_banki.Account.Command.{
  AccountCommand, create_account, deposit_money, freeze_account, run_command,
}
use event_sourced_core_banki.Account.Repository.{execute_with_retry}
use event_sourced_core_banki.Account.Repository.Consistency.{
  account_events, empty_stores, empty_stores-IsConsistent,
}
use event_sourced_core_banki.Account.Repository.Retry.{operation}
use event_sourced_core_banki.Account.Repository.Quiet.{nobody, Appended, quiet_success}
use event_sourced_core_banki.Transfer.Aggregate
use event_sourced_core_banki.Transfer.Coordinator.Steps.{account_stream-injective, streams_apart}

abbrev pub alice : Text
alice = b'a' ∷ []

abbrev pub bob : Text
bob = b'b' ∷ []

abbrev pub euro : Text
euro = b'E' ∷ []

abbrev pub transfer_id : Text
transfer_id = b'x' ∷ []

abbrev pub context : CommandContext
context = record {
  command_id = b'c' ∷ [];
  correlation_id = b'r' ∷ [];
  causation_id = none;
  actor = none;
  trace_id = none;
}

abbrev pub stamps : ℕ → Stamp
stamps n = record { uuid = b'u' ∷ []; now = n }

abbrev pub creation : Text → AccountCommand
creation id = create_account id (b'o' ∷ []) euro context

abbrev pub created : Text → AccountState
created id = record {
  account_id = some id;
  owner_id = some (b'o' ∷ []);
  currency = some euro;
  status = active;
  balance_minor_units = pos 0;
  version = 1;
}

creates :
    (c : ℕ)
    → run_command (creation (c ∷ [])) (stamps 1) new_account
      ≡ ok (record {
        state = created (c ∷ []);
        uncommitted_events =
            make_event new_state
              (account_created (c ∷ []) (b'o' ∷ []) euro)
              context
              (account_stream (c ∷ []))
              (stamps 1)
            ∷ [];
      })
unfolding run_command create apply when make_event
creates c = refl

abbrev pub payment : AccountCommand
payment = deposit_money alice (MoneyInput.string (b'7' ∷ [])) euro context (b'd' ∷ [])

abbrev pub funded : AccountState
funded = record (created alice) { balance_minor_units = pos 700; version = 2 }

pays :
    run_command payment (stamps 1) (record { state = created alice; uncommitted_events = [] })
    ≡ ok (record {
      state = funded;
      uncommitted_events =
          make_event
            (created alice)
            (money_deposited (some alice) (format_minor_units_to_money (pos 700)) euro (b'd' ∷ []))
            context
            (account_stream alice)
            (stamps 1)
          ∷ [];
    })
unfolding run_command deposit apply when make_event parse_money_to_minor_units
    format_minor_units_to_money with_point pad_start to_string ◌==◌ ensure_active ensure_currency
    ◌+ℤ◌
pays = refl

abbrev pub freezing : AccountCommand
freezing = freeze_account bob (b'f' ∷ []) context

abbrev pub held : AccountState
held = record (created bob) { status = frozen; version = 2 }

freezes :
    run_command freezing (stamps 1) (record { state = created bob; uncommitted_events = [] })
    ≡ ok (record {
      state = held;
      uncommitted_events =
          make_event
            (created bob)
            (account_frozen (some bob) (b'f' ∷ []))
            context
            (account_stream bob)
            (stamps 1)
          ∷ [];
    })
unfolding run_command freeze apply when make_event
freezes = refl

nothing_yet : (id : Text) → replay when (account_events empty_stores id) new_state ≡ ok new_state
unfolding replay stream get
nothing_yet id = refl

alice-bob : account_stream alice ≢ account_stream bob
alice-bob e =
    let first : ◌≡◌ {A = ℕ} 97 98 =
      ap (λ (t : Text). elim t [ [] ↦ 0 | c ∷ r ↦ c ]) (account_stream-injective alice bob e) in
    omega (arith, first)

pub opening :
    Appended
      (execute_with_retry alice (operation alice (creation alice) stamps) nobody empty_stores)
      alice
      empty_stores
      (created alice)
opening =
    quiet_success alice (creation alice) stamps empty_stores empty_stores-IsConsistent new_state
      (nothing_yet alice) _ (creates b'a')

pub paying :
    Appended
      (execute_with_retry alice (operation alice payment stamps) nobody opening.after)
      alice
      opening.after
      funded
paying =
    quiet_success alice payment stamps opening.after opening.consistent (created alice)
      opening.result _ pays

pub opening_bob :
    Appended
      (execute_with_retry bob (operation bob (creation bob) stamps) nobody paying.after)
      bob
      paying.after
      (created bob)
opening_bob =
    quiet_success bob (creation bob) stamps paying.after paying.consistent new_state
      (ap (λ es. replay when es new_state)
          (paying.elsewhere (account_stream bob) alice-bob
            ∙ opening.elsewhere (account_stream bob) alice-bob)
        ∙ nothing_yet bob)
      _ (creates b'b')

pub freezing_bob :
    Appended
      (execute_with_retry bob (operation bob freezing stamps) nobody opening_bob.after)
      bob
      opening_bob.after
      held
freezing_bob =
    quiet_success bob freezing stamps opening_bob.after opening_bob.consistent (created bob)
      opening_bob.result _ freezes

pub alice_open : replay when (account_events opening_bob.after alice) new_state ≡ ok funded
alice_open =
    ap (λ es. replay when es new_state)
      (opening_bob.elsewhere (account_stream alice) (λ e. alice-bob (sym e)))
    ∙ paying.result

pub alice_still : replay when (account_events freezing_bob.after alice) new_state ≡ ok funded
alice_still =
    ap (λ es. replay when es new_state)
      (freezing_bob.elsewhere (account_stream alice) (λ e. alice-bob (sym e)))
    ∙ alice_open

-- Stores in which no transfer has been initiated.
pub no_transfer :
    replay Aggregate.when
      (stream opening_bob.after.event_store (Aggregate.transfer_stream transfer_id))
      Aggregate.new_state
    ≡ ok Aggregate.new_state
unfolding replay stream get
no_transfer =
    ap (λ es. replay Aggregate.when es Aggregate.new_state)
      (opening_bob.elsewhere _ (streams_apart bob transfer_id)
        ∙ paying.elsewhere _ (streams_apart alice transfer_id)
        ∙ opening.elsewhere _ (streams_apart alice transfer_id))

pub no_transfer_still :
    replay Aggregate.when
      (stream freezing_bob.after.event_store (Aggregate.transfer_stream transfer_id))
      Aggregate.new_state
    ≡ ok Aggregate.new_state
no_transfer_still =
    ap (λ es. replay Aggregate.when es Aggregate.new_state)
      (freezing_bob.elsewhere _ (streams_apart bob transfer_id))
    ∙ no_transfer
