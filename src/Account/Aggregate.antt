-- ===== src/Account/Aggregate.antt =====
-- modules/accounts/domain/account.aggregate.ts. The properties that are declared with `!` start
-- undefined. A command method returns the changed aggregate or the exception; what it needs of the
-- runtime (`randomUUID`, `new Date`) comes in a `Stamp`.
use event_sourced_core_banki.Base.{
  ℕ, ◌+◌, Option, none, some, Bool, true, false, [], ◌++◌, Text, text, is_truthy, ℤ, pos, ◌+ℤ◌,
  ◌-ℤ◌, ltb_ℤ, leb_ℤ, not,
}
use event_sourced_core_banki.Common.Result.{Result, ok, bad_request, ◌>>=◌, ◌>>◌, throw_if}
use event_sourced_core_banki.Common.Optional.{is_set, show_option, differs}
use event_sourced_core_banki.Common.Event.{
  CommandContext, DomainEvent, EventBody, Stamp, account_created, money_deposited, money_withdrawn,
  account_frozen,
}
use event_sourced_core_banki.Common.Aggregate.{Aggregate, apply}
use event_sourced_core_banki.Common.Money.{
  MoneyInput, parse_money_to_minor_units, format_minor_units_to_money, to_string, read_int,
  minor_units_to_number, JsNumber,
}

pub data AccountStatus : Type 0 where
  active frozen : AccountStatus

abbrev pub is_active : AccountStatus → Bool
is_active active = true
is_active frozen = false

pub record AccountState : Type 0 where
  pub account_id : Option Text
  pub owner_id : Option Text
  pub currency : Option Text
  pub status : AccountStatus
  pub balance_minor_units : ℤ
  pub version : ℕ

-- `new AccountAggregate()`
abbrev pub new_state : AccountState
new_state = record {
  account_id = none;
  owner_id = none;
  currency = none;
  status = active;
  balance_minor_units = pos 0;
  version = 0;
}

abbrev pub new_account : Aggregate AccountState
new_account = record { state = new_state; uncommitted_events = [] }

unfoldable pub when : DomainEvent → AccountState → Result AccountState
when event s = elim (event.body) [
  | account_created account_id owner_id currency ↦ ok (record {
    account_id = some account_id;
    owner_id = some owner_id;
    currency = some currency;
    status = active;
    balance_minor_units = s.balance_minor_units;
    version = event.stream_version;
  })
  | money_deposited _ amount _ _ ↦ (do
    minor_units ← parse_money_to_minor_units (MoneyInput.string amount)
    ok (record s {
      balance_minor_units = s.balance_minor_units +ℤ minor_units;
      version = event.stream_version;
    }))
  | money_withdrawn _ amount _ _ ↦ (do
    minor_units ← parse_money_to_minor_units (MoneyInput.string amount)
    ok (record s {
      balance_minor_units = s.balance_minor_units -ℤ minor_units;
      version = event.stream_version;
    }))
  | account_frozen _ _ ↦ ok (record s { status = frozen; version = event.stream_version })
  | _ ↦ ok (record s { version = event.stream_version })
]

unfoldable pub make_event : AccountState → EventBody → CommandContext → Text → Stamp → DomainEvent
make_event s body context stream_id stamp = record {
  event_id = stamp.uuid;
  stream_id = stream_id;
  stream_version = s.version + 1;
  body = body;
  occurred_at = stamp.now;
  metadata = context;
}

-- `account-${accountId}`
unfoldable pub account_stream : Text → Text
account_stream account_id = text "account-" ++ account_id

unfoldable pub ensure_currency : AccountState → Text → Result (Unit {0})
ensure_currency s currency = throw_if (differs s.currency currency) (
    bad_request (
      text "Currency mismatch. Account currency="
      ++ (show_option s.currency ++ (text ", request=" ++ currency))))

unfoldable pub ensure_active : AccountState → Result (Unit {0})
ensure_active s = throw_if (not (is_active s.status)) (bad_request (text "Account is not active"))

unfoldable pub create :
    Text
    → Text
    → Text
    → CommandContext
    → Stamp
    → Aggregate AccountState
    → Result (Aggregate AccountState)
create account_id owner_id currency context stamp a = do
  throw_if (is_set a.state.account_id) (bad_request (text "Account already exists"))
  apply when
      (make_event a.state (account_created account_id owner_id currency) context
        (account_stream account_id) stamp)
      false a

unfoldable pub deposit :
    MoneyInput
    → Text
    → Text
    → CommandContext
    → Stamp
    → Aggregate AccountState
    → Result (Aggregate AccountState)
deposit amount currency transaction_id context stamp a = do
  ensure_active a.state
  ensure_currency a.state currency
  amount_minor_units ← parse_money_to_minor_units amount
  throw_if (leb_ℤ amount_minor_units (pos 0)) (bad_request (text "Deposit amount must be positive"))
  apply when
      (make_event a.state
        (money_deposited a.state.account_id (format_minor_units_to_money amount_minor_units)
          currency transaction_id)
        context (account_stream (show_option a.state.account_id)) stamp)
      false a

unfoldable pub withdraw :
    MoneyInput
    → Text
    → Text
    → CommandContext
    → Stamp
    → Aggregate AccountState
    → Result (Aggregate AccountState)
withdraw amount currency transaction_id context stamp a = do
  ensure_active a.state
  ensure_currency a.state currency
  amount_minor_units ← parse_money_to_minor_units amount
  throw_if (leb_ℤ amount_minor_units (pos 0))
      (bad_request (text "Withdraw amount must be positive"))
  throw_if (ltb_ℤ a.state.balance_minor_units amount_minor_units)
      (bad_request (text "Insufficient funds"))
  apply when
      (make_event a.state
        (money_withdrawn a.state.account_id (format_minor_units_to_money amount_minor_units)
          currency transaction_id)
        context (account_stream (show_option a.state.account_id)) stamp)
      false a

unfoldable pub freeze :
    Text → CommandContext → Stamp → Aggregate AccountState → Result (Aggregate AccountState)
freeze reason context stamp a = do
  throw_if (not (is_truthy reason)) (bad_request (text "Freeze reason is required"))
  throw_if (not (is_active a.state.status)) (bad_request (text "Account already frozen"))
  apply when
      (make_event a.state (account_frozen a.state.account_id reason) context
        (account_stream (show_option a.state.account_id)) stamp)
      false a

-- `get balance()`
unfoldable pub balance : AccountState → JsNumber
balance s = minor_units_to_number s.balance_minor_units

pub record AccountSnapshotState : Type 0 where
  pub account_id : Option Text
  pub owner_id : Option Text
  pub currency : Option Text
  pub status : AccountStatus
  pub balance_minor_units : Text

unfoldable pub get_snapshot_state : AccountState → AccountSnapshotState
get_snapshot_state s = record {
  account_id = s.account_id;
  owner_id = s.owner_id;
  currency = s.currency;
  status = s.status;
  balance_minor_units = to_string s.balance_minor_units;
}

unfoldable pub restore_snapshot :
    AccountSnapshotState → ℕ → Aggregate AccountState → Aggregate AccountState
restore_snapshot snapshot version a = record a {
  state = record {
    account_id = snapshot.account_id;
    owner_id = snapshot.owner_id;
    currency = snapshot.currency;
    status = snapshot.status;
    balance_minor_units = read_int snapshot.balance_minor_units;
    version = version;
  };
}
