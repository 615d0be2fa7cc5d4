-- ===== src/Infrastructure/Transactions.antt =====
-- infrastructure/transactions: the registry that runs the movement of a transaction id at most
-- once, and its in-memory record repository. A handler changes the rest of the world, `W`. A
-- missing option is its neutral value. Nothing reads the times of a record, so they are left out.
pub mod Once
use event_sourced_core_banki.Base.{
  Option, none, some, Bool, true, false, ◌||◌, not, if◌then◌else◌, ◌++◌, Text, text, ◌==◌, ℤ, Dict,
  get, put,
}
use event_sourced_core_banki.Common.Result.{Error, Result, ok, err, conflict, throw_if, ◌>>=◌, ◌>>◌}
use event_sourced_core_banki.Common.Message.{message}
use event_sourced_core_banki.Common.Money.{
  MoneyInput, JsNumber, parse_money_to_minor_units, minor_units_to_number, to_string,
}

pub data TransactionRecordStatus : Type 0 where
  pending completed failed_retryable failed_terminal : TransactionRecordStatus

pub data TransactionOperationType : Type 0 where
  deposit withdraw : TransactionOperationType

pub record TransactionRecord : Type 0 where
  pub transaction_id : Text
  pub account_id : Text
  pub operation_type : TransactionOperationType
  pub status : TransactionRecordStatus
  pub amount_minor_units : Text
  pub amount : JsNumber
  pub currency : Text
  pub idempotency_key : Option Text
  pub error_message : Option Text

pub record ReserveTransactionInput : Type 0 where
  pub transaction_id : Text
  pub account_id : Text
  pub operation_type : TransactionOperationType
  pub amount : MoneyInput
  pub currency : Text
  pub idempotency_key : Option Text

-- `{ status: string }`
pub record Response : Type 0 where
  pub status : Text

abbrev pub accepted : Response
accepted = record { status = text "accepted" }

abbrev pub TransactionRecords : Type 0
TransactionRecords = Dict TransactionRecord

unfoldable pub new_record : ReserveTransactionInput → ℤ → TransactionRecord
new_record input amount_minor_units = record {
  transaction_id = input.transaction_id;
  account_id = input.account_id;
  operation_type = input.operation_type;
  status = pending;
  amount_minor_units = to_string amount_minor_units;
  amount = minor_units_to_number amount_minor_units;
  currency = input.currency;
  idempotency_key = input.idempotency_key;
  error_message = none;
}

-- `none` is `{ created: true, … }`; `some record` is the existing record.
unfoldable pub reserve :
    TransactionRecords
    → ReserveTransactionInput
    → Result (Option TransactionRecord × TransactionRecords)
reserve records input = elim (get records (input.transaction_id)) [
  | some existing ↦ ok (some existing, records)
  | none ↦ do
    amount_minor_units ← parse_money_to_minor_units (input.amount)
    ok (none, put records (input.transaction_id) (new_record input amount_minor_units))
]

unfoldable pub mark_pending : TransactionRecords → Text → TransactionRecords
mark_pending records transaction_id = elim (get records transaction_id) [
  | none ↦ records
  | some current ↦ put records transaction_id (record current { status = pending })
]

unfoldable pub mark_completed : TransactionRecords → Text → TransactionRecords
mark_completed records transaction_id = elim (get records transaction_id) [
  | none ↦ records
  | some current ↦
      put records transaction_id (record current { status = completed; error_message = none })
]

unfoldable pub mark_failed :
    TransactionRecords → Text → Text → TransactionRecordStatus → TransactionRecords
mark_failed records transaction_id error_message status = elim (get records transaction_id) [
  | none ↦ records
  | some current ↦
      put records transaction_id
        (record current { status = status; error_message = some error_message })
]

unfoldable pub same_operation : TransactionOperationType → TransactionOperationType → Bool
same_operation deposit deposit = true
same_operation withdraw withdraw = true
same_operation _ _ = false

-- The test of `ensureSameTransactionIntent`, for an amount that was parsed.
unfoldable pub same_intent : ReserveTransactionInput → TransactionRecord → ℤ → Bool
unfolding same_operation
same_intent input r amount = not (
    not (input.account_id == r.account_id)
    || not (same_operation (input.operation_type) (r.operation_type))
    || not (to_string amount == r.amount_minor_units)
    || not (input.currency == r.currency))

unfoldable pub other_movement : Text → Error
other_movement transaction_id = conflict (
    text "Transaction "
    ++ (transaction_id ++ text " has already been used for a different money movement"))

-- `parseMoneyToMinorUnits` throws only where both tests before it in the condition pass.
unfoldable pub ensure_same_transaction_intent :
    ReserveTransactionInput → TransactionRecord → Result (Unit {0})
unfolding same_intent other_movement
ensure_same_transaction_intent input r =
    if not (input.account_id == r.account_id)
      || not (same_operation (input.operation_type) (r.operation_type))
    then err (other_movement (input.transaction_id))
    else do
      amount ← parse_money_to_minor_units (input.amount)
      throw_if (not (same_intent input r amount)) (other_movement (input.transaction_id))

unfoldable pub previously_failed : Text → Error
previously_failed transaction_id = conflict (
    text "Transaction "
    ++ (transaction_id ++ text " previously failed. Retry with a new transactionId."))

unfoldable pub already_in_progress : Text → Error
already_in_progress transaction_id =
    conflict (text "Transaction " ++ (transaction_id ++ text " is already in progress"))

module _ {W : Type 0} (is_retryable_error : Error → Bool) where
  -- The `try` and `catch` around the handler.
  unfoldable pub finish :
      Text → TransactionRecords → Result Response × W → Result Response × TransactionRecords × W
  finish transaction_id records (ok response, w) =
      (ok response, mark_completed records transaction_id, w)
  finish transaction_id records (err e, w) = (
    err e,
    mark_failed records transaction_id (message e)
        (if is_retryable_error e then failed_retryable else failed_terminal),
    w,
  )

  -- What follows the intent check, by the status of the existing record.
  unfoldable pub resume :
      Bool
      → Text
      → TransactionRecordStatus
      → (W → Result Response × W)
      → TransactionRecords
      → W
      → Result Response × TransactionRecords × W
  resume retry_failed transaction_id completed handler records w = (ok accepted, records, w)
  resume retry_failed transaction_id pending handler records w =
      (err (already_in_progress transaction_id), records, w)
  resume true transaction_id failed_retryable handler records w =
      finish transaction_id (mark_pending records transaction_id) (handler w)
  resume false transaction_id failed_retryable handler records w =
      (err (previously_failed transaction_id), records, w)
  resume retry_failed transaction_id failed_terminal handler records w =
      (err (previously_failed transaction_id), records, w)

  unfoldable pub run_existing :
      Bool
      → ReserveTransactionInput
      → TransactionRecord
      → (W → Result Response × W)
      → TransactionRecords
      → W
      → Result (Unit {0})
      → Result Response × TransactionRecords × W
  unfolding resume
  run_existing retry_failed input r handler records w (err e) = (err e, records, w)
  run_existing retry_failed input r handler records w (ok _) =
      resume retry_failed (input.transaction_id) (r.status) handler records w

  unfoldable pub run_reserved :
      Bool
      → ReserveTransactionInput
      → (W → Result Response × W)
      → TransactionRecords
      → W
      → Result (Option TransactionRecord × TransactionRecords)
      → Result Response × TransactionRecords × W
  unfolding run_existing finish
  run_reserved retry_failed input handler before w (err e) = (err e, before, w)
  run_reserved retry_failed input handler before w (ok (some r, records)) =
      run_existing retry_failed input r handler records w (ensure_same_transaction_intent input r)
  run_reserved retry_failed input handler before w (ok (none, records)) =
      finish (input.transaction_id) records (handler w)

  unfoldable pub execute :
      Bool
      → ReserveTransactionInput
      → (W → Result Response × W)
      → TransactionRecords
      → W
      → Result Response × TransactionRecords × W
  unfolding run_reserved
  execute retry_failed input handler records w =
      run_reserved retry_failed input handler records w (reserve records input)
