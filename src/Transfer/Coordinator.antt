-- ===== src/Transfer/Coordinator.antt =====
-- modules/transfers/application/services/transfer-coordinator.service.ts: the saga that drives a
-- transfer by commands to the transfer and, through the transaction registry, to its accounts. Logs
-- and metrics are left out. A method returns its result and the bank after it. What a pass draws
-- from outside (identifiers, the clock, the writes of other instances, the text that a number
-- prints as) is an argument. A field of a transfer that is undefined is passed on as its text; a
-- transfer that has been initiated has them all.
use event_sourced_core_banki.Base.{
  ℕ, Option, none, some, Bool, true, false, ◌||◌, List, [], ◌∷◌, ◌++◌, if◌then◌else◌, Text, text,
}
use event_sourced_core_banki.Common.Result.{Error, Result, ok, err, retryable}
use event_sourced_core_banki.Common.Event.{CommandContext, FailureStage, debit, credit, Stamp}
use event_sourced_core_banki.Common.Aggregate.{Aggregate}
use event_sourced_core_banki.Common.Message.{message, includes}
use event_sourced_core_banki.Common.Money.{MoneyInput, JsNumber, minor_units_to_number, to_string}
use event_sourced_core_banki.Common.Optional.{show_option}
use event_sourced_core_banki.Infrastructure.Transactions
use event_sourced_core_banki.Infrastructure.Transactions.{
  TransactionRecords, TransactionOperationType, ReserveTransactionInput, Response, accepted,
  deposit, withdraw,
}
use event_sourced_core_banki.Account.Command.{
  AccountCommand, deposit_money, withdraw_money, command_account,
}
use event_sourced_core_banki.Account.Command
use event_sourced_core_banki.Account.Repository
use event_sourced_core_banki.Account.Repository.{AccountStores}
use event_sourced_core_banki.Transfer.Aggregate.{
  TransferStatus, initiated, debit_in_progress, debited, credit_in_progress, failed,
  compensation_in_progress, TransferState, failed_in_credit, is_one_of,
}
use event_sourced_core_banki.Transfer.Command.{
  TransferCommand, start_debit_transfer, mark_transfer_debited, start_credit_transfer,
  complete_transfer, fail_transfer, start_transfer_compensation, complete_transfer_compensation,
  command_transfer, run_command,
}
use event_sourced_core_banki.Transfer.ReadModel.{
  TransferSummary, TransferSummaries, list_pending_transfers,
}
use event_sourced_core_banki.Transfer.Repository.{Others, get_by_id, execute_with_retry}
-- What the coordinator works on. The transfers stand in the event store of the accounts.
pub mod Steps
pub mod Movements
pub mod Stage
pub mod Accepting
pub mod Terms
pub mod Debit
pub mod Credit
pub mod Compensation
pub mod Known
pub mod Recorded
pub mod Saga

pub record Bank : Type 0 where
  pub stores : AccountStores
  pub transactions : TransactionRecords

abbrev pub Outcome : Type 0
Outcome = Result (Unit {0}) × Bank

-- What a call of the command bus draws from outside.
pub record TransferCall : Type 0 where
  pub stamps : ℕ → Stamp
  pub others : Others

pub record AccountCall : Type 0 where
  pub stamps : ℕ → Stamp
  pub others : Repository.Others

-- The calls of one pass over a transfer: the start of a stage, the movement, the end of the stage.
pub record Pass : Type 0 where
  pub command_id : Text
  pub starting : TransferCall
  pub moving : AccountCall
  pub ending : TransferCall
  pub failing : TransferCall
  -- `String(number)`
  pub print_number : JsNumber → Text

-- What follows a call runs only when the call did not throw.
unfoldable pub then_do : Outcome → (Bank → Outcome) → Outcome
then_do (ok _, bank) next = next bank
then_do (err e, bank) next = (err e, bank)

-- `try { … } catch (error) { … }`
unfoldable pub catching : Outcome → (Error → Bank → Outcome) → Outcome
catching (ok _, bank) handler = (ok tt, bank)
catching (err e, bank) handler = handler e bank

-- `this.commandBus.execute(command)`, by the handlers of transfers.
unfoldable pub execute_transfer_command : TransferCall → TransferCommand → Bank → Outcome
execute_transfer_command call command bank =
    let (answer, event_store) =
      execute_with_retry (command_transfer command) (λ n. run_command command (call.stamps n))
        call.others bank.stores.event_store in
    (answer, record bank { stores = record bank.stores { event_store = event_store } })

-- The movement that the registry runs: the command, then `{ status: 'accepted' }`.
unfoldable pub answer_accepted : Result (Unit {0}) × AccountStores → Result Response × AccountStores
answer_accepted (ok _, stores) = (ok accepted, stores)
answer_accepted (err e, stores) = (err e, stores)

unfoldable pub run_movement :
    AccountCall → AccountCommand → AccountStores → Result Response × AccountStores
unfolding answer_accepted
run_movement call command stores = answer_accepted (
    Repository.execute_with_retry (command_account command)
      (λ n. Command.run_command command (call.stamps n)) call.others stores)

-- `error instanceof RetryableTransferProcessingError`
unfoldable pub is_retryable_error : Error → Bool
is_retryable_error (retryable _) = true
is_retryable_error _ = false

unfoldable pub drop_response : Result Response × TransactionRecords × AccountStores → Outcome
drop_response (ok _, transactions, stores) =
    (ok tt, record { stores = stores; transactions = transactions })
drop_response (err e, transactions, stores) =
    (err e, record { stores = stores; transactions = transactions })

-- `this.transactionRegistry.execute(input, movement, { retryFailed: true, … })`
unfoldable pub register_movement :
    AccountCall → ReserveTransactionInput → AccountCommand → Bank → Outcome
unfolding drop_response
register_movement call input command bank = drop_response (
    Transactions.execute is_retryable_error true input (run_movement call command) bank.transactions
      bank.stores)

unfoldable pub is_terminal_domain_error : Error → Bool
is_terminal_domain_error e =
    includes (message e) (text "Insufficient funds")
    || includes (message e) (text "Account is not active")
    || includes (message e) (text "Currency mismatch")
    || includes (message e) (text "not found")

unfoldable pub make_context : Text → Text → CommandContext
make_context command_id transfer_id = record {
  command_id = command_id;
  correlation_id = transfer_id;
  causation_id = some (text "transfer-coordinator:" ++ transfer_id);
  actor = some (text "transfer-coordinator");
  trace_id = none;
}

-- The input of the registry for an account of the transfer.
unfoldable pub reservation :
    Text → Option Text → TransactionOperationType → TransferState → ReserveTransactionInput
reservation transaction_id account_id operation_type transfer = record {
  transaction_id = transaction_id;
  account_id = show_option account_id;
  operation_type = operation_type;
  amount = MoneyInput.string (to_string transfer.amount_minor_units);
  currency = show_option transfer.currency;
  idempotency_key = transfer.transfer_id;
}

-- `minorUnitsToNumber(transfer.amountMinorUnits)`, as the money module reads it.
unfoldable pub moved_amount : (JsNumber → Text) → TransferState → MoneyInput
moved_amount print_number transfer =
    MoneyInput.number (print_number (minor_units_to_number transfer.amount_minor_units))

-- The `catch` block of a debit or a credit.
unfoldable pub settle_failure :
    TransferCall → Text → FailureStage → CommandContext → Error → Bank → Outcome
settle_failure call transfer_id stage context e bank =
    if is_terminal_domain_error e
    then execute_transfer_command call (fail_transfer transfer_id (message e) stage context) bank
    else (err (retryable (message e)), bank)

-- `const transfer = await this.transferRepository.getById(transferId)`, then the rest.
unfoldable pub with_transfer :
    Result (Aggregate TransferState) → (TransferState → Bank → Outcome) → Bank → Outcome
with_transfer (ok transfer) next bank = next transfer.state bank
with_transfer (err e) next bank = (err e, bank)

module _ (pass : Pass) (transfer_id : Text) (context : CommandContext) (transaction_id : Text) where
  -- The first command of a stage, under its condition.
  unfoldable pub start_stage : Bool → TransferCommand → Bank → Outcome
  start_stage true command bank = execute_transfer_command pass.starting command bank
  start_stage false command bank = (ok tt, bank)

  -- The `try` blocks: the movement, then the command that ends the stage.
  unfoldable pub debit_source : TransferState → Bank → Outcome
  debit_source transfer bank =
      then_do
        (register_movement pass.moving
          (reservation transaction_id transfer.source_account_id withdraw transfer)
          (withdraw_money (show_option transfer.source_account_id)
            (moved_amount pass.print_number transfer) (show_option transfer.currency) context
            transaction_id)
          bank)
        (λ moved.
          execute_transfer_command pass.ending (mark_transfer_debited transfer_id context) moved)

  unfoldable pub credit_destination : TransferState → Bank → Outcome
  credit_destination transfer bank =
      then_do
        (register_movement pass.moving
          (reservation transaction_id transfer.destination_account_id deposit transfer)
          (deposit_money (show_option transfer.destination_account_id)
            (moved_amount pass.print_number transfer) (show_option transfer.currency) context
            transaction_id)
          bank)
        (λ moved.
          execute_transfer_command pass.ending (complete_transfer transfer_id context) moved)

  unfoldable pub refund_source : TransferState → Bank → Outcome
  refund_source transfer bank =
      then_do
        (register_movement pass.moving
          (reservation transaction_id transfer.source_account_id deposit transfer)
          (deposit_money (show_option transfer.source_account_id)
            (moved_amount pass.print_number transfer) (show_option transfer.currency) context
            transaction_id)
          bank)
        (λ moved.
          execute_transfer_command pass.ending (complete_transfer_compensation transfer_id context)
            moved)

  -- `transfer` is what the method has read before the stage started.
  unfoldable pub debit_transfer : TransferState → Bank → Outcome
  debit_transfer transfer bank =
      then_do
        (start_stage (is_one_of transfer.status initiated debit_in_progress)
          (start_debit_transfer transfer_id transaction_id context) bank)
        (λ started.
          catching (debit_source transfer started)
            (settle_failure pass.failing transfer_id debit context))

  unfoldable pub credit_transfer : TransferState → Bank → Outcome
  credit_transfer transfer bank =
      then_do
        (start_stage (is_one_of transfer.status debited credit_in_progress)
          (start_credit_transfer transfer_id transaction_id context) bank)
        (λ started.
          catching (credit_destination transfer started)
            (settle_failure pass.failing transfer_id credit context))

  unfoldable pub compensate_transfer : TransferState → Bank → Outcome
  compensate_transfer transfer bank =
      then_do
        (start_stage (is_one_of transfer.status failed compensation_in_progress)
          (start_transfer_compensation transfer_id transaction_id context) bank)
        (λ started.
          catching (refund_source transfer started)
            (λ e after. (err (retryable (message e)), after)))

  unfoldable pub process_debit : Bank → Outcome
  process_debit bank =
      with_transfer (get_by_id transfer_id bank.stores.event_store) debit_transfer bank

  unfoldable pub process_credit : Bank → Outcome
  process_credit bank =
      with_transfer (get_by_id transfer_id bank.stores.event_store) credit_transfer bank

  unfoldable pub process_compensation : Bank → Outcome
  process_compensation bank =
      with_transfer (get_by_id transfer_id bank.stores.event_store) compensate_transfer bank

-- `transfer.sourceDebitTransactionId ?? `${transfer.transferId}:debit``
unfoldable pub or_default : Option Text → Option Text → Text → Text
or_default (some transaction_id) transfer_id suffix = transaction_id
or_default none transfer_id suffix = show_option transfer_id ++ suffix

-- The `switch` on the status of the transfer.
unfoldable pub dispatch : Pass → CommandContext → TransferState → Bank → Outcome
dispatch pass context transfer bank =
    let transfer_id = show_option transfer.transfer_id in
    let compensate : Bank → Outcome = λ b.
      process_compensation pass transfer_id context
        (or_default transfer.compensation_transaction_id transfer.transfer_id
          (text ":compensation"))
        b in
    if is_one_of transfer.status initiated debit_in_progress
    then process_debit pass transfer_id context
        (or_default transfer.source_debit_transaction_id transfer.transfer_id (text ":debit")) bank
    else if is_one_of transfer.status debited credit_in_progress
    then process_credit pass transfer_id context
        (or_default transfer.destination_credit_transaction_id transfer.transfer_id
          (text ":credit"))
        bank
    else if is_one_of transfer.status failed failed
    then if failed_in_credit transfer.failure_stage then compensate bank else (ok tt, bank)
    else if is_one_of transfer.status compensation_in_progress compensation_in_progress
    then compensate bank
    else (ok tt, bank)

-- The `catch` block around the `switch` logs the error, and the method returns.
unfoldable pub process_transfer : Pass → Text → Bank → Outcome
process_transfer pass transfer_id bank =
    with_transfer (get_by_id transfer_id bank.stores.event_store)
      (λ transfer before.
        catching (dispatch pass (make_context pass.command_id transfer_id) transfer before)
          (λ e after. (ok tt, after)))
      bank

-- The `for` loop, with one pass for each transfer.
unfoldable pub process_transfers : (Text → Pass) → List TransferSummary → Bank → Outcome
process_transfers passes [] bank = (ok tt, bank)
process_transfers passes (summary ∷ summaries) bank =
    then_do (process_transfer (passes summary.transfer_id) summary.transfer_id bank)
      (λ after. process_transfers passes summaries after)

unfoldable pub process_pending_transfers_once : (Text → Pass) → TransferSummaries → Bank → Outcome
process_pending_transfers_once passes summaries bank =
    process_transfers passes (list_pending_transfers summaries 50) bank
