-- ===== src/Api/Accounts.antt =====
-- modules/accounts/accounts.controller.ts.
pub mod Requests
pub mod Once
use event_sourced_core_banki.Base.{
  ℕ, Option, none, some, Bool, false, List, [], ◌∷◌, ◌++◌, Text, text,
}
use event_sourced_core_banki.Common.Result.{Error, Result, ok, err, not_found, ◌>>=◌}
use event_sourced_core_banki.Common.Money.{JsNumber}
use event_sourced_core_banki.Infrastructure.Idempotency
use event_sourced_core_banki.Infrastructure.Transactions
use event_sourced_core_banki.Infrastructure.Transactions.{
  TransactionRecords, TransactionOperationType, ReserveTransactionInput, Response, deposit,
  withdraw,
}
use event_sourced_core_banki.Account.Aggregate.{AccountStatus}
use event_sourced_core_banki.Account.Command.{
  AccountCommand, create_account, deposit_money, withdraw_money, freeze_account,
}
use event_sourced_core_banki.Account.ReadModel.{
  AccountSummary, StatementEntry, AccountReadModels, get_account_summary, get_account_statement,
}
use event_sourced_core_banki.Account.Repository.{AccountStores}
use event_sourced_core_banki.Transfer.Coordinator.{Bank, AccountCall, run_movement}
use event_sourced_core_banki.Api.{
  ApiResponse, CreateAccountDto, DepositMoneyDto, FreezeAccountDto, Payload, creating, moving,
  freezing, Service, Answer, answer_of, request_context,
}

-- The handlers that the idempotency service runs.
unfoldable pub reply :
    Result Response → TransactionRecords → AccountStores → Result ApiResponse × Bank
reply (ok response) transactions stores = (
  ok (record { transfer_id = none; status = response.status }),
  record { stores = stores; transactions = transactions },
)
reply (err e) transactions stores = (err e, record { stores = stores; transactions = transactions })

-- `commandBus.execute`, then `{ status: 'accepted' }`
unfoldable pub run_account_command : AccountCall → AccountCommand → Bank → Result ApiResponse × Bank
unfolding reply
run_account_command call command bank =
    let (response, stores) = run_movement call command bank.stores in
    reply response bank.transactions stores

-- `transactionRegistry.execute`, without options
unfoldable pub run_transaction :
    AccountCall → ReserveTransactionInput → AccountCommand → Bank → Result ApiResponse × Bank
unfolding reply
run_transaction call input command bank =
    let (response, transactions, stores) =
      Transactions.execute (λ e. false) false input (run_movement call command) bank.transactions
        bank.stores in
    reply response transactions stores

unfoldable pub transaction_input :
    Text → TransactionOperationType → Option Text → DepositMoneyDto → ReserveTransactionInput
transaction_input account_id operation_type key dto = record {
  transaction_id = dto.transaction_id;
  account_id = account_id;
  operation_type = operation_type;
  amount = dto.amount;
  currency = dto.currency;
  idempotency_key = key;
}

module _ (hash_request : Text → Payload → Text) (call : AccountCall) (correlation_id : Text)
    (key : Option Text) where
  unfoldable pub post_account : CreateAccountDto → Service → Answer
  unfolding answer_of
  post_account dto service = answer_of (
      Idempotency.execute hash_request key (text "accounts.create") (creating dto)
        (run_account_command call (
          create_account dto.account_id dto.owner_id dto.currency
            (request_context key correlation_id dto.actor)))
        service.records service.bank)

  unfoldable pub post_deposit : Text → DepositMoneyDto → Service → Answer
  unfolding answer_of
  post_deposit account_id dto service = answer_of (
      Idempotency.execute hash_request key (text "accounts.deposit") (moving account_id dto)
        (run_transaction call (transaction_input account_id deposit key dto) (
          deposit_money account_id dto.amount dto.currency
            (request_context key correlation_id dto.actor) dto.transaction_id))
        service.records service.bank)

  unfoldable pub post_withdrawal : Text → DepositMoneyDto → Service → Answer
  unfolding answer_of
  post_withdrawal account_id dto service = answer_of (
      Idempotency.execute hash_request key (text "accounts.withdraw") (moving account_id dto)
        (run_transaction call (transaction_input account_id withdraw key dto) (
          withdraw_money account_id dto.amount dto.currency
            (request_context key correlation_id dto.actor) dto.transaction_id))
        service.records service.bank)

  unfoldable pub post_freeze : Text → FreezeAccountDto → Service → Answer
  unfolding answer_of
  post_freeze account_id dto service = answer_of (
      Idempotency.execute hash_request key (text "accounts.freeze") (freezing account_id dto)
        (run_account_command call
          (freeze_account account_id dto.reason (request_context key correlation_id dto.actor)))
        service.records service.bank)

-- `if (!summary) throw new NotFoundException(…)`
unfoldable pub found : Text → Option AccountSummary → Result AccountSummary
found account_id none = err (not_found (text "Account " ++ (account_id ++ text " not found")))
found account_id (some summary) = ok summary

unfoldable pub get_account_details : AccountReadModels → Text → Result AccountSummary
unfolding found
get_account_details models account_id = found account_id (get_account_summary models account_id)

pub record AccountBalance : Type 0 where
  pub account_id : Text
  pub balance : JsNumber
  pub currency : Text
  pub status : AccountStatus
  pub version : ℕ

unfoldable pub get_account_balance : AccountReadModels → Text → Result AccountBalance
get_account_balance models account_id = do
  summary ← found account_id (get_account_summary models account_id)
  ok (record {
    account_id = summary.account_id;
    balance = summary.balance;
    currency = summary.currency;
    status = summary.status;
    version = summary.version;
  })

-- `limit` and `offset` are not negative.
unfoldable pub get_account_history :
    AccountReadModels → Text → ℕ → ℕ → Result (Text × List StatementEntry)
get_account_history models account_id limit offset = do
  summary ← found account_id (get_account_summary models account_id)
  ok (account_id, get_account_statement models account_id limit offset)
