-- ===== src/Transfer/ReadModel.antt =====
-- modules/transfers/query/transfer-read-model.repository.ts and
-- in-memory-transfer-read-model.repository.ts.
pub mod Stuck
use event_sourced_core_banki.Base.{
  ℕ, ◌+◌, ◌*◌, Option, none, some, Bool, not, ◌||◌, List, [], ◌∷◌, take, select, ltb, leb,
  if◌then◌else◌, Text, Dict, get, put, remove, values,
}
use event_sourced_core_banki.Common.Event.{FailureStage}
use event_sourced_core_banki.Common.Money.{JsNumber}
use event_sourced_core_banki.Transfer.Aggregate.{
  TransferStatus, completed, compensated, failed, status_eq, failed_in_credit,
}

pub record TransferSummary : Type 0 where
  pub transfer_id : Text
  pub source_account_id : Text
  pub destination_account_id : Text
  pub amount_minor_units : Text
  pub amount : JsNumber
  pub currency : Text
  pub status : TransferStatus
  pub failure_reason : Option Text
  pub failure_stage : Option FailureStage
  pub source_debit_transaction_id : Option Text
  pub destination_credit_transaction_id : Option Text
  pub compensation_transaction_id : Option Text
  pub debit_attempts : ℕ
  pub credit_attempts : ℕ
  pub compensation_attempts : ℕ
  pub created_at : ℕ
  pub updated_at : ℕ

abbrev pub TransferSummaries : Type 0
TransferSummaries = Dict TransferSummary

unfoldable pub get_transfer_summary : TransferSummaries → Text → Option TransferSummary
get_transfer_summary summaries transfer_id = get summaries transfer_id

unfoldable pub upsert_transfer_summary : TransferSummaries → TransferSummary → TransferSummaries
upsert_transfer_summary summaries summary = elim (get summaries summary.transfer_id) [
  | none ↦ put summaries summary.transfer_id summary
  | some current ↦
      if ltb summary.updated_at current.updated_at
      then summaries
      else put summaries summary.transfer_id summary
]

-- The filter of `listPendingTransfers`.
unfoldable pub is_pending : TransferSummary → Bool
is_pending summary =
    not (
      status_eq summary.status completed
      || status_eq summary.status compensated
      || status_eq summary.status failed)
    || failed_in_credit summary.failure_stage

unfoldable pub insert_summary : TransferSummary → List TransferSummary → List TransferSummary
insert_summary m [] = m ∷ []
insert_summary m (x ∷ xs) =
    if leb m.updated_at x.updated_at then m ∷ x ∷ xs else x ∷ insert_summary m xs

-- The stable sort by `updatedAt`.
unfoldable pub sort_summaries : List TransferSummary → List TransferSummary
unfolding insert_summary
sort_summaries [] = []
sort_summaries (m ∷ ms) = insert_summary m (sort_summaries ms)

unfoldable pub list_pending_transfers : TransferSummaries → ℕ → List TransferSummary
list_pending_transfers summaries limit =
    take limit (sort_summaries (select is_pending (values summaries)))

-- `updatedAt <= now - olderThanSeconds * 1000`
unfoldable pub list_stuck_transfers : ℕ → TransferSummaries → ℕ → ℕ → List TransferSummary
list_stuck_transfers now summaries older_than_seconds limit = take limit (
    select (λ summary. leb (summary.updated_at + older_than_seconds * 1000) now)
      (list_pending_transfers summaries limit))

unfoldable pub reset_transfer : TransferSummaries → Text → TransferSummaries
reset_transfer summaries transfer_id = remove summaries transfer_id

abbrev pub reset_all : TransferSummaries → TransferSummaries
reset_all summaries = []
