-- ===== src/Infrastructure/Transactions/Once.antt =====
-- A transaction id moves money at most once: which calls of the registry run their handler.
use event_sourced_core_banki.Base.{
  ◌≡◌, ◌≢◌, refl, ◌∙◌, ◌⊎◌, inl, inr, eq_iff, Option, none, some, Bool, true, false, arith, Text,
  eq_refl, ℤ, get, put, get-put_self, if◌then◌else◌,
}
use event_sourced_core_banki.Common.Result.{Error, Result, ok, err}
use event_sourced_core_banki.Common.Message.{message}
use event_sourced_core_banki.Common.Money.{parse_money_to_minor_units, to_string}
use event_sourced_core_banki.Infrastructure.Transactions.{
  TransactionRecordStatus, TransactionOperationType, TransactionRecord, TransactionRecords,
  ReserveTransactionInput, Response, accepted, pending, completed, failed_retryable,
  failed_terminal, deposit, withdraw, same_operation, same_intent, ensure_same_transaction_intent,
  other_movement, previously_failed, new_record, reserve, mark_completed, mark_failed, finish,
  resume, run_existing, run_reserved, execute,
}

same_operation_refl : (o : TransactionOperationType) → same_operation o o ≡ true
unfolding same_operation
same_operation_refl deposit = refl
same_operation_refl withdraw = refl

-- What `reserve` stores is the input's own intent.
pub same_intent-new_record :
    (input : ReserveTransactionInput) (n : ℤ) (status : TransactionRecordStatus)
    (error : Option Text)
    → parse_money_to_minor_units (input.amount) ≡ ok n
    → ensure_same_transaction_intent input
        (record (new_record input n) { status = status; error_message = error })
      ≡ ok tt
unfolding ensure_same_transaction_intent same_intent new_record
same_intent-new_record input n status error parsed = ground (
  arith,
  parsed,
  eq_refl (input.account_id),
  eq_refl (input.currency),
  eq_refl (to_string n),
  same_operation_refl (input.operation_type),
)

reserve-existing :
    (records : TransactionRecords) (input : ReserveTransactionInput) (r : TransactionRecord)
    → get records (input.transaction_id) ≡ some r
    → reserve records input ≡ ok (some r, records)
unfolding reserve
reserve-existing records input r known = ground arith

same_operation_only : (o p : TransactionOperationType) → same_operation o p ≡ true → o ≡ p
unfolding same_operation
same_operation_only deposit deposit h = refl
same_operation_only withdraw withdraw h = refl
same_operation_only deposit withdraw h = cc
same_operation_only withdraw deposit h = cc

-- The request, with this amount, differs from the record in account, operation, amount or currency.
abbrev pub IsOther : ReserveTransactionInput → TransactionRecord → ℤ → Type 0
IsOther input r n =
    (input.account_id ≢ r.account_id)
    ⊎ ((input.operation_type ≢ r.operation_type)
        ⊎ ((to_string n ≢ r.amount_minor_units) ⊎ (input.currency ≢ r.currency)))

IsOther-same_intent :
    (input : ReserveTransactionInput) (r : TransactionRecord) (n : ℤ)
    → IsOther input r n
    → same_intent input r n ≡ false
unfolding same_intent
IsOther-same_intent input r n (inl h) = ground (arith, eq_iff input.account_id r.account_id)
IsOther-same_intent input r n (inr (inl h)) =
    ground (arith, same_operation_only input.operation_type r.operation_type)
IsOther-same_intent input r n (inr (inr (inl h))) =
    ground (arith, eq_iff (to_string n) r.amount_minor_units)
IsOther-same_intent input r n (inr (inr (inr h))) = ground (arith, eq_iff input.currency r.currency)

intent-differs :
    (input : ReserveTransactionInput) (r : TransactionRecord) (n : ℤ)
    → parse_money_to_minor_units (input.amount) ≡ ok n
    → same_intent input r n ≡ false
    → ensure_same_transaction_intent input r ≡ err (other_movement (input.transaction_id))
unfolding ensure_same_transaction_intent
intent-differs input r n parsed h = ground (arith, parsed, h)

module _ {W : Type 0} (is_retryable_error : Error → Bool) where
  resume-unchanged :
      (retry_failed : Bool) (transaction_id : Text) (status : TransactionRecordStatus)
      (handler : W → Result Response × W) (records : TransactionRecords) (w : W)
      → (status ≡ failed_retryable → retry_failed ≡ false)
      → (answer : Result Response) × (resume is_retryable_error retry_failed transaction_id status
            handler records w
          ≡ (answer, records, w))
  unfolding resume
  resume-unchanged retry_failed transaction_id completed handler records w h = (_, refl)
  resume-unchanged retry_failed transaction_id pending handler records w h = (_, refl)
  resume-unchanged retry_failed transaction_id failed_terminal handler records w h = (_, refl)
  resume-unchanged false transaction_id failed_retryable handler records w h = (_, refl)
  resume-unchanged true transaction_id failed_retryable handler records w h = ground (arith, h refl)

  run_existing-unchanged :
      (retry_failed : Bool) (input : ReserveTransactionInput) (r : TransactionRecord)
      (handler : W → Result Response × W) (records : TransactionRecords) (w : W)
      (intent : Result (Unit {0}))
      → (r.status ≡ failed_retryable → retry_failed ≡ false)
      → (answer : Result Response) × (run_existing is_retryable_error retry_failed input r handler
            records w intent
          ≡ (answer, records, w))
  unfolding run_existing
  run_existing-unchanged retry_failed input r handler records w (err e) h = (_, refl)
  run_existing-unchanged retry_failed input r handler records w (ok tt) h =
      resume-unchanged retry_failed (input.transaction_id) (r.status) handler records w h

  -- A known transaction id runs no handler and changes no record, whatever the request, unless its
  -- record failed with a retryable error and the caller retries such transactions.
  pub known_unchanged :
      (retry_failed : Bool) (input : ReserveTransactionInput) (r : TransactionRecord)
      (handler : W → Result Response × W) (records : TransactionRecords) (w : W)
      → get records (input.transaction_id) ≡ some r
      → (r.status ≡ failed_retryable → retry_failed ≡ false)
      → (answer : Result Response) × (execute is_retryable_error retry_failed input handler records
            w
          ≡ (answer, records, w))
  unfolding execute run_reserved
  known_unchanged retry_failed input r handler records w known h =
      rw (reserve-existing records input r known) (
        run_existing-unchanged retry_failed input r handler records w
          (ensure_same_transaction_intent input r) h)

  -- A known transaction id whose request has an amount that parses and another account, operation,
  -- amount or currency is a conflict that runs no handler and changes no record.
  pub other_intent_refused :
      (retry_failed : Bool) (input : ReserveTransactionInput) (r : TransactionRecord) (n : ℤ)
      (handler : W → Result Response × W) (records : TransactionRecords) (w : W)
      → get records (input.transaction_id) ≡ some r
      → parse_money_to_minor_units (input.amount) ≡ ok n
      → IsOther input r n
      → execute is_retryable_error retry_failed input handler records w
        ≡ (err (other_movement (input.transaction_id)), records, w)
  unfolding execute run_reserved
  other_intent_refused retry_failed input r n handler records w known parsed h = rw (
    reserve-existing records input r known,
    intent-differs input r n parsed (IsOther-same_intent input r n h),
  )

-- What the record of a transaction id becomes when its handler has run.
unfoldable pub after_run : (Error → Bool) → Result Response → TransactionRecord → TransactionRecord
after_run is_retryable_error (ok _) r = record r { status = completed; error_message = none }
after_run is_retryable_error (err e) r = record r {
  status = if is_retryable_error e then failed_retryable else failed_terminal;
  error_message = some (message e);
}

pub after_run-same :
    (is_retryable_error : Error → Bool) (input : ReserveTransactionInput) (n : ℤ)
    (answer : Result Response)
    → parse_money_to_minor_units (input.amount) ≡ ok n
    → ensure_same_transaction_intent input
        (after_run is_retryable_error answer (new_record input n))
      ≡ ok tt
unfolding after_run
after_run-same is_retryable_error input n (ok response) parsed =
    same_intent-new_record input n _ _ parsed
after_run-same is_retryable_error input n (err e) parsed = same_intent-new_record input n _ _ parsed

module _ {W : Type 0} (is_retryable_error : Error → Bool) where
  -- A new transaction id, with an amount that parses, is reserved and its handler runs.
  pub execute-new :
      (retry_failed : Bool) (input : ReserveTransactionInput) (n : ℤ)
      (handler : W → Result Response × W) (records : TransactionRecords) (w : W)
      → get records (input.transaction_id) ≡ none
      → parse_money_to_minor_units (input.amount) ≡ ok n
      → execute is_retryable_error retry_failed input handler records w
        ≡ finish is_retryable_error
            (input.transaction_id)
            (put records (input.transaction_id) (new_record input n))
            (handler w)
  unfolding execute run_reserved reserve
  execute-new retry_failed input n handler records w fresh parsed = ground arith

  -- A known transaction id with the same intent is resumed by its status.
  pub execute-existing :
      (retry_failed : Bool) (input : ReserveTransactionInput) (r : TransactionRecord)
      (handler : W → Result Response × W) (records : TransactionRecords) (w : W)
      → get records (input.transaction_id) ≡ some r
      → ensure_same_transaction_intent input r ≡ ok tt
      → execute is_retryable_error retry_failed input handler records w
        ≡ resume is_retryable_error retry_failed (input.transaction_id) (r.status) handler records w
  unfolding execute run_reserved run_existing
  execute-existing retry_failed input r handler records w known same =
      rw (reserve-existing records input r known, same)

  pub finish-record :
      (transaction_id : Text) (records : TransactionRecords) (r : TransactionRecord)
      (p : Result Response × W)
      → get records transaction_id ≡ some r
      → get (finish is_retryable_error transaction_id records p).1 transaction_id
        ≡ some (after_run is_retryable_error (p.0) r)
  unfolding finish mark_completed mark_failed after_run
  finish-record transaction_id records r (ok response, w) known =
      ground
        (arith, get-put_self records transaction_id (after_run is_retryable_error (ok response) r))
  finish-record transaction_id records r (err e, w) known =
      ground (arith, get-put_self records transaction_id (after_run is_retryable_error (err e) r))

  module _ (retry_failed : Bool) (input : ReserveTransactionInput) (n : ℤ)
      (handler again : W → Result Response × W) (records : TransactionRecords) (w w' : W)
      (fresh : get records (input.transaction_id) ≡ none)
      (parsed : parse_money_to_minor_units (input.amount) ≡ ok n) where
    abbrev first : Result Response × TransactionRecords × W
    first = execute is_retryable_error retry_failed input handler records w

    abbrev second : Result Response × TransactionRecords × W
    second = execute is_retryable_error retry_failed input again first.1 w'

    pub first-record :
        get first.1 (input.transaction_id)
        ≡ some (after_run is_retryable_error (handler w).0 (new_record input n))
    first-record = rw (execute-new retry_failed input n handler records w fresh parsed) (
        finish-record (input.transaction_id) _ (new_record input n) (handler w)
          (get-put_self records (input.transaction_id) (new_record input n)))

    second-resume :
        second
        ≡ resume is_retryable_error retry_failed
            (input.transaction_id)
            ((after_run is_retryable_error (handler w).0 (new_record input n)).status)
            again
            first.1
            w'
    second-resume =
        execute-existing retry_failed input _ again first.1 w' first-record
          (after_run-same is_retryable_error input n (handler w).0 parsed)

    -- After a movement of a new transaction id, with an amount that parses, that succeeded, the
    -- same request is accepted again without running its handler and without changing a record.
    pub repeat_accepted :
        (response : Response) → (handler w).0 ≡ ok response → second ≡ (ok accepted, first.1, w')
    unfolding resume after_run
    repeat_accepted response h = second-resume ∙ rw (h) refl

    -- After a movement of a new transaction id, with an amount that parses, that failed with an
    -- error that is not retryable, the same request is a conflict, runs no handler and changes no
    -- record.
    pub repeat_refused :
        (e : Error)
        → (handler w).0 ≡ err e
        → is_retryable_error e ≡ false
        → second ≡ (err (previously_failed (input.transaction_id)), first.1, w')
    unfolding resume after_run
    repeat_refused e h terminal = second-resume ∙ rw (h, terminal) refl
