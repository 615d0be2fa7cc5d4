-- ===== src/Transfer/Aggregate.antt =====
-- modules/transfers/domain/transfer.aggregate.ts and transfer-status.enum.ts. The properties that
-- are declared with `!` or `?` start undefined.
use event_sourced_core_banki.Base.{
  ℕ, ◌+◌, Option, none, some, Bool, true, false, not, ◌||◌, [], ◌++◌, Text, text, is_truthy, ◌==◌,
  ℤ, pos, leb_ℤ,
}
use event_sourced_core_banki.Common.Result.{Result, ok, bad_request, ◌>>=◌, ◌>>◌, throw_if}
use event_sourced_core_banki.Common.Event.{
  CommandContext, DomainEvent, EventBody, FailureStage, credit, Stamp, transfer_initiated,
  transfer_debit_started, transfer_debited, transfer_credit_started, transfer_completed,
  transfer_failed, transfer_compensation_started, transfer_compensated,
}
use event_sourced_core_banki.Common.Aggregate.{Aggregate, apply}
use event_sourced_core_banki.Common.Money.{
  MoneyInput, parse_money_to_minor_units, format_minor_units_to_money,
}
use event_sourced_core_banki.Common.Optional.{is_set, show_option}

pub data TransferStatus : Type 0 where
  initiated debit_in_progress debited credit_in_progress completed failed : TransferStatus
  compensation_in_progress compensated : TransferStatus

pub record TransferState : Type 0 where
  pub transfer_id : Option Text
  pub source_account_id : Option Text
  pub destination_account_id : Option Text
  pub amount_minor_units : ℤ
  pub currency : Option Text
  pub status : Option TransferStatus
  pub version : ℕ
  pub failure_reason : Option Text
  pub failure_stage : Option FailureStage
  pub source_debit_transaction_id : Option Text
  pub destination_credit_transaction_id : Option Text
  pub compensation_transaction_id : Option Text
  pub debit_attempts : ℕ
  pub credit_attempts : ℕ
  pub compensation_attempts : ℕ
  pub created_at : Option ℕ
  pub updated_at : Option ℕ

-- `new TransferAggregate()`
abbrev pub new_state : TransferState
new_state = record {
  transfer_id = none;
  source_account_id = none;
  destination_account_id = none;
  amount_minor_units = pos 0;
  currency = none;
  status = none;
  version = 0;
  failure_reason = none;
  failure_stage = none;
  source_debit_transaction_id = none;
  destination_credit_transaction_id = none;
  compensation_transaction_id = none;
  debit_attempts = 0;
  credit_attempts = 0;
  compensation_attempts = 0;
  created_at = none;
  updated_at = none;
}

abbrev pub new_transfer : Aggregate TransferState
new_transfer = record { state = new_state; uncommitted_events = [] }

unfoldable pub when : DomainEvent → TransferState → Result TransferState
when event s0 =
    let s = record s0 { version = event.stream_version; updated_at = some event.occurred_at } in
    elim (event.body) [
      | transfer_initiated transfer_id source destination amount currency ↦ (do
        minor_units ← parse_money_to_minor_units (MoneyInput.string amount)
        ok (record s {
          transfer_id = some transfer_id;
          source_account_id = some source;
          destination_account_id = some destination;
          amount_minor_units = minor_units;
          currency = some currency;
          status = some initiated;
          created_at = some event.occurred_at;
          failure_reason = none;
          failure_stage = none;
        }))
      | transfer_debit_started _ transaction_id debit_attempts ↦ ok (record s {
        status = some debit_in_progress;
        source_debit_transaction_id = some transaction_id;
        debit_attempts = debit_attempts;
        failure_reason = none;
        failure_stage = none;
      })
      | transfer_debited _ _ ↦ ok (record s { status = some debited })
      | transfer_credit_started _ transaction_id credit_attempts ↦ ok (record s {
        status = some credit_in_progress;
        destination_credit_transaction_id = some transaction_id;
        credit_attempts = credit_attempts;
        failure_reason = none;
        failure_stage = none;
      })
      | transfer_completed _ ↦ ok (record s { status = some completed })
      | transfer_failed _ reason stage ↦ ok (record s {
        status = some failed;
        failure_reason = some reason;
        failure_stage = some stage;
      })
      | transfer_compensation_started _ transaction_id compensation_attempts ↦ ok (record s {
        status = some compensation_in_progress;
        compensation_transaction_id = some transaction_id;
        compensation_attempts = compensation_attempts;
      })
      | transfer_compensated _ _ ↦ ok (record s { status = some compensated })
      | _ ↦ ok s
    ]

-- `data.transferId`
unfoldable pub body_transfer_id : EventBody → Option Text
body_transfer_id (transfer_initiated id _ _ _ _) = some id
body_transfer_id (transfer_debit_started id _ _) = id
body_transfer_id (transfer_debited id _) = id
body_transfer_id (transfer_credit_started id _ _) = id
body_transfer_id (transfer_completed id) = id
body_transfer_id (transfer_failed id _ _) = id
body_transfer_id (transfer_compensation_started id _ _) = id
body_transfer_id (transfer_compensated id _) = id
body_transfer_id _ = none

-- `transfer-${id}`
unfoldable pub transfer_stream : Text → Text
transfer_stream transfer_id = text "transfer-" ++ transfer_id

-- `this.transferId || data.transferId`
unfoldable pub event_transfer_id : TransferState → EventBody → Option Text
unfolding body_transfer_id
event_transfer_id s body = elim (is_set s.transfer_id) [
  | true ↦ s.transfer_id
  | false ↦ body_transfer_id body
]

unfoldable pub make_event : TransferState → EventBody → CommandContext → Stamp → DomainEvent
unfolding event_transfer_id
make_event s body context stamp = record {
  event_id = stamp.uuid;
  stream_id = transfer_stream (show_option (event_transfer_id s body));
  stream_version = s.version + 1;
  body = body;
  occurred_at = stamp.now;
  metadata = context;
}

-- The text of a status, for the messages.
unfoldable pub show_status : Option TransferStatus → Text
show_status none = text "UNKNOWN"
show_status (some initiated) = text "INITIATED"
show_status (some debit_in_progress) = text "DEBIT_IN_PROGRESS"
show_status (some debited) = text "DEBITED"
show_status (some credit_in_progress) = text "CREDIT_IN_PROGRESS"
show_status (some completed) = text "COMPLETED"
show_status (some failed) = text "FAILED"
show_status (some compensation_in_progress) = text "COMPENSATION_IN_PROGRESS"
show_status (some compensated) = text "COMPENSATED"

abbrev pub status_eq : TransferStatus → TransferStatus → Bool
status_eq initiated initiated = true
status_eq debit_in_progress debit_in_progress = true
status_eq debited debited = true
status_eq credit_in_progress credit_in_progress = true
status_eq completed completed = true
status_eq failed failed = true
status_eq compensation_in_progress compensation_in_progress = true
status_eq compensated compensated = true
status_eq _ _ = false

-- `this.status === status`
abbrev pub has_status : Option TransferStatus → TransferStatus → Bool
has_status none t = false
has_status (some s) t = status_eq s t

-- `[first, second].includes(this.status)`
abbrev pub is_one_of : Option TransferStatus → TransferStatus → TransferStatus → Bool
is_one_of status first second = has_status status first || has_status status second

unfoldable pub initiate :
    Text
    → Text
    → Text
    → MoneyInput
    → Text
    → CommandContext
    → Stamp
    → Aggregate TransferState
    → Result (Aggregate TransferState)
initiate transfer_id source destination amount currency context stamp a = do
  throw_if (is_set a.state.transfer_id) (bad_request (text "Transfer already exists"))
  throw_if (source == destination)
      (bad_request (text "Source and destination accounts must be different"))
  amount_minor_units ← parse_money_to_minor_units amount
  throw_if (leb_ℤ amount_minor_units (pos 0))
      (bad_request (text "Transfer amount must be positive"))
  apply when
      (make_event a.state
        (transfer_initiated transfer_id source destination
          (format_minor_units_to_money amount_minor_units) currency)
        context stamp)
      false a

-- `this.apply(this.makeEvent(...))` behind the guard on the status
unfoldable pub guarded :
    Bool
    → Text
    → EventBody
    → CommandContext
    → Stamp
    → Aggregate TransferState
    → Result (Aggregate TransferState)
guarded allowed what body context stamp a = do
  throw_if (not allowed) (
      bad_request
        (text "Cannot " ++ (what ++ (text " from status " ++ show_status a.state.status))))
  apply when (make_event a.state body context stamp) false a

unfoldable pub start_debit :
    Text → CommandContext → Stamp → Aggregate TransferState → Result (Aggregate TransferState)
start_debit transaction_id context stamp a =
    guarded (is_one_of a.state.status initiated debit_in_progress) (text "start debit")
      (transfer_debit_started a.state.transfer_id transaction_id (a.state.debit_attempts + 1))
      context stamp a

unfoldable pub mark_debited :
    CommandContext → Stamp → Aggregate TransferState → Result (Aggregate TransferState)
mark_debited context stamp a =
    guarded (has_status a.state.status debit_in_progress) (text "mark transfer debited")
      (transfer_debited a.state.transfer_id a.state.source_debit_transaction_id) context stamp a

unfoldable pub start_credit :
    Text → CommandContext → Stamp → Aggregate TransferState → Result (Aggregate TransferState)
start_credit transaction_id context stamp a =
    guarded (is_one_of a.state.status debited credit_in_progress) (text "start credit")
      (transfer_credit_started a.state.transfer_id transaction_id (a.state.credit_attempts + 1))
      context stamp a

unfoldable pub complete :
    CommandContext → Stamp → Aggregate TransferState → Result (Aggregate TransferState)
complete context stamp a =
    guarded (has_status a.state.status credit_in_progress) (text "complete transfer")
      (transfer_completed a.state.transfer_id) context stamp a

unfoldable pub fail :
    Text
    → FailureStage
    → CommandContext
    → Stamp
    → Aggregate TransferState
    → Result (Aggregate TransferState)
fail reason stage context stamp a = do
  throw_if (not (is_one_of a.state.status debit_in_progress credit_in_progress))
      (bad_request (text "Cannot fail transfer from status " ++ show_status a.state.status))
  throw_if (not (is_truthy reason)) (bad_request (text "Failure reason is required"))
  apply when (make_event a.state (transfer_failed a.state.transfer_id reason stage) context stamp)
      false a

-- `this.failureStage !== 'CREDIT'`
abbrev pub failed_in_credit : Option FailureStage → Bool
failed_in_credit (some credit) = true
failed_in_credit _ = false

unfoldable pub start_compensation :
    Text → CommandContext → Stamp → Aggregate TransferState → Result (Aggregate TransferState)
start_compensation transaction_id context stamp a = do
  throw_if (not (is_one_of a.state.status failed compensation_in_progress))
      (bad_request (text "Cannot start compensation from status " ++ show_status a.state.status))
  throw_if (not (failed_in_credit a.state.failure_stage)) (
      bad_request
        (text "Compensation is only allowed after a debited transfer fails during credit"))
  apply when
      (make_event a.state
        (transfer_compensation_started a.state.transfer_id transaction_id
          (a.state.compensation_attempts + 1))
        context stamp)
      false a

unfoldable pub mark_compensated :
    CommandContext → Stamp → Aggregate TransferState → Result (Aggregate TransferState)
mark_compensated context stamp a =
    guarded (has_status a.state.status compensation_in_progress) (text "mark transfer compensated")
      (transfer_compensated a.state.transfer_id a.state.compensation_transaction_id) context stamp a
