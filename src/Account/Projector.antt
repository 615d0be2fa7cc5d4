-- ===== src/Account/Projector.antt =====
-- modules/accounts/query/account-projector.service.ts, over the in-memory read models. An error
-- leaves the read models as they are, since everything that throws stands before the writes.
pub mod Mirror
pub mod Delivery
mod Tests
use event_sourced_core_banki.Base.{
  ℕ, ◌+◌, Option, none, some, Bool, true, false, ◌&&◌, not, if◌then◌else◌, ◌++◌, [], ◌∷◌, eqb, leb,
  Text, text, ◌==◌, is_truthy, ℤ, ◌+ℤ◌, ◌-ℤ◌,
}
use event_sourced_core_banki.Common.Result.{
  Error, Result, ok, err, plain, projection_gap, ◌>>=◌, ◌>>◌, throw_if,
}
use event_sourced_core_banki.Common.Event.{
  DomainEvent, account_created, money_deposited, money_withdrawn, account_frozen, event_type,
}
use event_sourced_core_banki.Common.Optional.{show_option, differs}
use event_sourced_core_banki.Common.Money.{
  MoneyInput, parse_money_to_minor_units, minor_units_to_number, to_string, read_int,
}
use event_sourced_core_banki.Account.Aggregate.{active, frozen}
use event_sourced_core_banki.Account.ReadModel.{
  AccountSummary, AccountReadModels, StatementEntry, EntryKind, TransferDirection,
  account_operation, transfer, incoming, outgoing, reversal, get_account_summary,
  upsert_account_summary, append_account_statement,
}
use event_sourced_core_banki.Transfer.ReadModel.{
  TransferSummary, TransferSummaries, get_transfer_summary,
}

pub record TransferDetails : Type 0 where
  pub transfer_id : Text
  pub direction : TransferDirection
  pub source_account_id : Text
  pub destination_account_id : Text
  pub counterparty_account_id : Text
  pub description : Text

-- `sourceDebitTransactionId !== compensationTransactionId`, for a compensation that is defined
unfoldable pub is_compensation : Option Text → Option Text → Bool
is_compensation source_debit none = false
is_compensation source_debit (some compensation) = differs source_debit compensation

unfoldable pub map_transfer_statement_details : TransferSummary → Text → Option TransferDetails
unfolding is_compensation
map_transfer_statement_details t account_id =
    if t.source_account_id == account_id
    then some (record {
      transfer_id = t.transfer_id;
      direction =
          if is_compensation t.source_debit_transaction_id t.compensation_transaction_id
          then reversal
          else outgoing;
      source_account_id = t.source_account_id;
      destination_account_id = t.destination_account_id;
      counterparty_account_id = t.destination_account_id;
      description =
          (if is_compensation t.source_debit_transaction_id t.compensation_transaction_id
            then text "Transfer reversal back from failed transfer to account "
            else text "Transfer sent to account ")
          ++ t.destination_account_id;
    })
    else if t.destination_account_id == account_id
    then some (record {
      transfer_id = t.transfer_id;
      direction = incoming;
      source_account_id = t.source_account_id;
      destination_account_id = t.destination_account_id;
      counterparty_account_id = t.source_account_id;
      description = text "Transfer received from account " ++ t.source_account_id;
    })
    else none

unfoldable pub details_of : Option TransferSummary → Text → Option TransferDetails
unfolding map_transfer_statement_details
details_of none account_id = none
details_of (some t) account_id = map_transfer_statement_details t account_id

unfoldable pub get_transfer_statement_details :
    TransferSummaries → DomainEvent → Text → Option TransferDetails
unfolding details_of
get_transfer_statement_details transfers event account_id =
    if is_truthy event.metadata.correlation_id
    then details_of (get_transfer_summary transfers event.metadata.correlation_id) account_id
    else none

-- The entry of an event, without an amount.
unfoldable pub plain_entry : DomainEvent → Text → Option Text → StatementEntry
plain_entry event account_id reason = record {
  event_id = event.event_id;
  account_id = account_id;
  stream_version = event.stream_version;
  event_type = event_type event.body;
  entry_kind = none;
  amount_minor_units = none;
  amount = none;
  currency = none;
  transaction_id = none;
  transfer_id = none;
  transfer_direction = none;
  source_account_id = none;
  destination_account_id = none;
  counterparty_account_id = none;
  description = none;
  reason = reason;
  occurred_at = event.occurred_at;
}

-- The entry of a deposit or a withdrawal.
unfoldable pub money_entry :
    DomainEvent → Text → ℤ → Text → Text → Option TransferDetails → StatementEntry
unfolding plain_entry
money_entry event account_id minor_units currency transaction_id none =
    record (plain_entry event account_id none) {
      entry_kind = some account_operation;
      amount_minor_units = some (to_string minor_units);
      amount = some (minor_units_to_number minor_units);
      currency = some currency;
      transaction_id = some transaction_id;
    }
money_entry event account_id minor_units currency transaction_id (some d) =
    record (plain_entry event account_id none) {
      entry_kind = some transfer;
      amount_minor_units = some (to_string minor_units);
      amount = some (minor_units_to_number minor_units);
      currency = some currency;
      transaction_id = some transaction_id;
      transfer_id = some d.transfer_id;
      transfer_direction = some d.direction;
      source_account_id = some d.source_account_id;
      destination_account_id = some d.destination_account_id;
      counterparty_account_id = some d.counterparty_account_id;
      description = some d.description;
    }

-- No summary is stored under an undefined identifier.
unfoldable pub get_required_summary : AccountReadModels → Option Text → Result AccountSummary
get_required_summary m none =
    err (plain (text "Projection missing account summary for account undefined"))
get_required_summary m (some account_id) = elim (get_account_summary m account_id) [
  | none ↦ err (plain (text "Projection missing account summary for account " ++ account_id))
  | some summary ↦ ok summary
]

unfoldable pub ensure_sequential_version : Text → ℕ → ℕ → Result (Unit {0})
ensure_sequential_version account_id current incoming_version =
    throw_if (not (eqb incoming_version (current + 1)))
      (projection_gap account_id (current + 1) incoming_version)

-- The checks on the summary that is there already, if one is.
unfoldable pub project_created :
    Option AccountSummary
    → DomainEvent
    → Text
    → Text
    → Text
    → AccountReadModels
    → Result AccountReadModels
unfolding plain_entry
project_created (some existing) event account_id owner_id currency m =
    if leb event.stream_version existing.version
    then ok m
    else err (projection_gap account_id (existing.version + 1) event.stream_version)
project_created none event account_id owner_id currency m =
    if eqb event.stream_version 1
    then ok (
        append_account_statement
          (upsert_account_summary m (record {
            account_id = account_id;
            owner_id = owner_id;
            currency = currency;
            status = active;
            balance_minor_units = b'0' ∷ [];
            balance = b'0' ∷ [];
            version = event.stream_version;
            created_at = event.occurred_at;
            updated_at = event.occurred_at;
          }))
          (plain_entry event account_id none))
    else err (projection_gap account_id 1 event.stream_version)

unfoldable pub project_account_created :
    DomainEvent → Text → Text → Text → AccountReadModels → Result AccountReadModels
unfolding project_created
project_account_created event account_id owner_id currency m =
    project_created (get_account_summary m account_id) event account_id owner_id currency m

-- `projectMoneyDeposited` with `+`, and `projectMoneyWithdrawn` with `-`.
unfoldable pub project_money :
    (ℤ → ℤ → ℤ)
    → TransferSummaries
    → DomainEvent
    → Option Text
    → Text
    → Text
    → Text
    → AccountReadModels
    → Result AccountReadModels
unfolding get_required_summary
project_money change transfers event account amount currency transaction_id m = do
  summary ← get_required_summary m account
  let account_id = show_option account
  (if leb event.stream_version summary.version then ok m else do
    ensure_sequential_version account_id summary.version event.stream_version
    minor_units ← parse_money_to_minor_units (MoneyInput.string amount)
    let balance = change (read_int summary.balance_minor_units) minor_units
    ok (
        append_account_statement
          (upsert_account_summary m (record summary {
            balance_minor_units = to_string balance;
            balance = minor_units_to_number balance;
            version = event.stream_version;
            updated_at = event.occurred_at;
          }))
          (money_entry event account_id minor_units currency transaction_id
            (get_transfer_statement_details transfers event account_id))))

unfoldable pub project_account_frozen :
    DomainEvent → Option Text → Text → AccountReadModels → Result AccountReadModels
unfolding get_required_summary
project_account_frozen event account reason m = do
  summary ← get_required_summary m account
  let account_id = show_option account
  (if leb event.stream_version summary.version then ok m else do
    ensure_sequential_version account_id summary.version event.stream_version
    ok (
        append_account_statement
          (upsert_account_summary m (record summary {
            status = frozen;
            version = event.stream_version;
            updated_at = event.occurred_at;
          }))
          (plain_entry event account_id (some reason))))

-- Whether the event was one of an account, and the read models after it.
unfoldable pub project :
    TransferSummaries → DomainEvent → AccountReadModels → Result (Bool × AccountReadModels)
project transfers event m = elim (event.body) [
  | account_created account_id owner_id currency ↦ (do
    m' ← project_account_created event account_id owner_id currency m
    ok (true, m'))
  | money_deposited account amount currency transaction_id ↦ (do
    m' ← project_money ◌+ℤ◌ transfers event account amount currency transaction_id m
    ok (true, m'))
  | money_withdrawn account amount currency transaction_id ↦ (do
    m' ← project_money ◌-ℤ◌ transfers event account amount currency transaction_id m
    ok (true, m'))
  | account_frozen account reason ↦ (do
    m' ← project_account_frozen event account reason m
    ok (true, m'))
  | _ ↦ ok (false, m)
]
