-- ===== src/Transfer/Coordinator/Recorded.antt =====
-- What the registry records of a movement that the coordinator hands to it.
use event_sourced_core_banki.Base.{
  ℕ, ◌*◌, ◌≡◌, refl, ap, ◌∙◌, Option, none, some, Text, pos, get, put, get-put_self, true,
}
use event_sourced_core_banki.Common.Result.{Result, ok, err}
use event_sourced_core_banki.Common.Money.{MoneyInput, parse_money_to_minor_units, to_string}
use event_sourced_core_banki.Common.Money.Scale.{parse-to_string}
use event_sourced_core_banki.Infrastructure.Transactions
use event_sourced_core_banki.Infrastructure.Transactions.{
  TransactionRecord, TransactionRecords, TransactionOperationType, ReserveTransactionInput,
  Response, new_record,
}
use event_sourced_core_banki.Infrastructure.Transactions.Once.{
  execute-new, finish-record, after_run,
}
use event_sourced_core_banki.Account.Command.{AccountCommand}
use event_sourced_core_banki.Account.Repository.{AccountStores}
use event_sourced_core_banki.Transfer.Aggregate.{TransferState}
use event_sourced_core_banki.Transfer.Coordinator.{
  Bank, AccountCall, reservation, register_movement, run_movement, drop_response,
  is_retryable_error,
}

drop_response-transactions :
    (p : Result Response × TransactionRecords × AccountStores)
    → (drop_response p).1.transactions ≡ p.1
unfolding drop_response
drop_response-transactions (ok _, transactions, stores) = refl
drop_response-transactions (err e, transactions, stores) = refl

after_run-amount :
    (answer : Result Response) (r : TransactionRecord)
    → (after_run is_retryable_error answer r).amount_minor_units ≡ r.amount_minor_units
unfolding after_run
after_run-amount (ok _) r = refl
after_run-amount (err e) r = refl

-- Whatever the account answers, after a movement of a transfer over n minor units that the
-- coordinator hands to the registry under a new transaction id, the registry's record states a
-- hundred times n.
pub records_hundredfold :
    (call : AccountCall) (command : AccountCommand) (bank : Bank) (transaction_id : Text)
    (account_id : Option Text) (operation_type : TransactionOperationType)
    (transfer : TransferState) (n : ℕ)
    → transfer.amount_minor_units ≡ pos n
    → get bank.transactions transaction_id ≡ none
    → (r : TransactionRecord) × (get
          (register_movement call
            (reservation transaction_id account_id operation_type transfer)
            command
            bank).1.transactions
          transaction_id
        ≡ some r)
      × (r.amount_minor_units ≡ to_string (pos (n * 100)))
unfolding register_movement reservation new_record
records_hundredfold call command bank transaction_id account_id operation_type transfer n amount
      fresh =
    let input = reservation transaction_id account_id operation_type transfer in
    let parsed : parse_money_to_minor_units (input.amount) ≡ ok (pos (n * 100)) =
      ap (λ a. parse_money_to_minor_units (MoneyInput.string (to_string a))) amount
      ∙ parse-to_string n in
    let fill = new_record input (pos (n * 100)) in
    let answer = run_movement call command bank.stores in
    (
      after_run is_retryable_error answer.0 fill,
      ap (λ records. get records transaction_id)
            (drop_response-transactions (
                Transactions.execute is_retryable_error true input (run_movement call command)
                  bank.transactions bank.stores)
              ∙ ap (λ p. p.1)
                  (execute-new is_retryable_error true input (pos (n * 100))
                    (run_movement call command) bank.transactions bank.stores fresh parsed))
          ∙ finish-record is_retryable_error transaction_id
              (put bank.transactions transaction_id fill) fill answer
              (get-put_self bank.transactions transaction_id fill),
      after_run-amount answer.0 fill,
    )
