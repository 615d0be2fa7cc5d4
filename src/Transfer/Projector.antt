-- ===== src/Transfer/Projector.antt =====
-- modules/transfers/query/transfer-projector.service.ts, over the in-memory read models.
pub mod Mirror
mod Tests
use event_sourced_core_banki.Base.{ℕ, Option, none, some, Bool, true, false, ◌++◌, Text, text}
use event_sourced_core_banki.Common.Result.{Error, Result, ok, err, plain, ◌>>=◌}
use event_sourced_core_banki.Common.Event.{
  DomainEvent, EventBody, transfer_initiated, transfer_debit_started, transfer_debited,
  transfer_credit_started, transfer_completed, transfer_failed, transfer_compensation_started,
  transfer_compensated,
}
use event_sourced_core_banki.Common.Money.{
  MoneyInput, parse_money_to_minor_units, minor_units_to_number, to_string,
}
use event_sourced_core_banki.Common.Optional.{show_option}
use event_sourced_core_banki.Transfer.Aggregate.{
  initiated, debit_in_progress, debited, credit_in_progress, completed, failed,
  compensation_in_progress, compensated,
}
use event_sourced_core_banki.Transfer.ReadModel.{
  TransferSummary, TransferSummaries, get_transfer_summary, upsert_transfer_summary,
}

unfoldable pub missing_summary : Option Text → Error
missing_summary transfer_id =
    plain (text "Projection missing transfer summary for transfer " ++ show_option transfer_id)

-- No summary is stored under an undefined identifier.
unfoldable pub required : TransferSummaries → Option Text → Result TransferSummary
required m none = err (missing_summary none)
required m (some transfer_id) = elim (get_transfer_summary m transfer_id) [
  | none ↦ err (missing_summary (some transfer_id))
  | some summary ↦ ok summary
]

unfoldable pub project_initiated :
    DomainEvent → Text → Text → Text → Text → Text → TransferSummaries → Result TransferSummaries
project_initiated event transfer_id source destination amount currency m = do
  minor_units ← parse_money_to_minor_units (MoneyInput.string amount)
  ok (
      upsert_transfer_summary m (record {
        transfer_id = transfer_id;
        source_account_id = source;
        destination_account_id = destination;
        amount_minor_units = to_string minor_units;
        amount = minor_units_to_number minor_units;
        currency = currency;
        status = initiated;
        failure_reason = none;
        failure_stage = none;
        source_debit_transaction_id = none;
        destination_credit_transaction_id = none;
        compensation_transaction_id = none;
        debit_attempts = 0;
        credit_attempts = 0;
        compensation_attempts = 0;
        created_at = event.occurred_at;
        updated_at = event.occurred_at;
      }))

-- `{ ...existing, … }`, by the event's type.
unfoldable pub next_summary : DomainEvent → EventBody → TransferSummary → TransferSummary
next_summary event (transfer_debit_started _ transaction_id debit_attempts) existing =
    record existing {
      status = debit_in_progress;
      source_debit_transaction_id = some transaction_id;
      debit_attempts = debit_attempts;
      failure_reason = none;
      failure_stage = none;
      updated_at = event.occurred_at;
    }
next_summary event (transfer_debited _ _) existing = record existing {
  status = debited;
  updated_at = event.occurred_at;
}
next_summary event (transfer_credit_started _ transaction_id credit_attempts) existing =
    record existing {
      status = credit_in_progress;
      destination_credit_transaction_id = some transaction_id;
      credit_attempts = credit_attempts;
      failure_reason = none;
      failure_stage = none;
      updated_at = event.occurred_at;
    }
next_summary event (transfer_completed _) existing = record existing {
  status = completed;
  updated_at = event.occurred_at;
}
next_summary event (transfer_failed _ reason stage) existing = record existing {
  status = failed;
  failure_reason = some reason;
  failure_stage = some stage;
  updated_at = event.occurred_at;
}
next_summary event (transfer_compensation_started _ transaction_id compensation_attempts) existing =
    record existing {
      status = compensation_in_progress;
      compensation_transaction_id = some transaction_id;
      compensation_attempts = compensation_attempts;
      updated_at = event.occurred_at;
    }
next_summary event (transfer_compensated _ _) existing = record existing {
  status = compensated;
  updated_at = event.occurred_at;
}
next_summary event _ existing = existing

unfoldable pub project_later :
    DomainEvent → EventBody → Option Text → TransferSummaries → Result (Bool × TransferSummaries)
project_later event body transfer_id m = do
  existing ← required m transfer_id
  ok (true, upsert_transfer_summary m (next_summary event body existing))

-- Whether the event was one of a transfer, and the read models after it.
unfoldable pub project_body :
    DomainEvent → EventBody → TransferSummaries → Result (Bool × TransferSummaries)
project_body event (transfer_initiated transfer_id source destination amount currency) m = do
  m' ← project_initiated event transfer_id source destination amount currency m
  ok (true, m')
project_body event (transfer_debit_started id t n) m =
    project_later event (transfer_debit_started id t n) id m
project_body event (transfer_debited id t) m = project_later event (transfer_debited id t) id m
project_body event (transfer_credit_started id t n) m =
    project_later event (transfer_credit_started id t n) id m
project_body event (transfer_completed id) m = project_later event (transfer_completed id) id m
project_body event (transfer_failed id reason stage) m =
    project_later event (transfer_failed id reason stage) id m
project_body event (transfer_compensation_started id t n) m =
    project_later event (transfer_compensation_started id t n) id m
project_body event (transfer_compensated id t) m =
    project_later event (transfer_compensated id t) id m
project_body event _ m = ok (false, m)

unfoldable pub project : DomainEvent → TransferSummaries → Result (Bool × TransferSummaries)
unfolding project_body
project event m = project_body event event.body m
