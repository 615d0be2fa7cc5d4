-- ===== src/Api/Accounts/Once.antt =====
-- A movement that is requested under two idempotency keys, but with one transaction id, moves money
-- once.
use event_sourced_core_banki.Base.{
  ◌≢◌, ◌≡◌, refl, sym, ap, ◌∙◌, none, some, true, Text, text, ℤ, get, is_truthy,
}
use event_sourced_core_banki.Common.Result.{ok}
use event_sourced_core_banki.Common.Money.{parse_money_to_minor_units}
use event_sourced_core_banki.Infrastructure.Transactions.{
  TransactionOperationType, deposit, withdraw,
}
use event_sourced_core_banki.Account.Command.{AccountCommand, deposit_money, withdraw_money}
use event_sourced_core_banki.Transfer.Coordinator.{AccountCall}
use event_sourced_core_banki.Api.{
  ApiResponse, DepositMoneyDto, Payload, moving, Service, Answer, request_context,
}
use event_sourced_core_banki.Api.Accounts.{
  run_transaction, transaction_input, post_deposit, post_withdrawal,
}
use event_sourced_core_banki.Api.Accounts.Requests.{
  accepted_reply, answered, run_transaction-again, handled_by, answered-elsewhere,
}

-- The second request is accepted, and leaves the bank as the first has left it.
abbrev pub IsOnce : Answer → Answer → Type 0
IsOnce first second = (second.0 ≡ ok accepted_reply) × (second.1.bank ≡ first.1.bank)

module _ (hash_request : Text → Payload → Text) (call again : AccountCall)
    (correlation_id second_id key second_key account_id : Text) (dto : DepositMoneyDto) (n : ℤ)
    (service : Service) (answer : ApiResponse) (given : is_truthy key ≡ true)
    (second_given : is_truthy second_key ≡ true) (apart : key ≢ second_key)
    (new : get service.records key ≡ none) (second_new : get service.records second_key ≡ none)
    (fresh : get service.bank.transactions dto.transaction_id ≡ none)
    (parsed : parse_money_to_minor_units dto.amount ≡ ok n) where
  posted-IsOnce :
      (operation : Text) (payload : Payload) (kind : TransactionOperationType)
      (command repeated : AccountCommand)
      → (answered hash_request key operation payload
          (run_transaction call (transaction_input account_id kind (some key) dto) command)
          service
          given
          new).0
        ≡ ok answer
      → IsOnce
          (answered hash_request key operation payload
            (run_transaction call (transaction_input account_id kind (some key) dto) command)
            service
            given
            new)
          (answered hash_request second_key operation payload
            (run_transaction again
              (transaction_input account_id kind (some second_key) dto)
              repeated)
            (answered hash_request key operation payload
              (run_transaction call (transaction_input account_id kind (some key) dto) command)
              service
              given
              new).1
            second_given
            (answered-elsewhere key second_key apart hash_request operation payload
                (run_transaction call (transaction_input account_id kind (some key) dto) command)
                service
                given
                new
              ∙ second_new))
  unfolding transaction_input
  posted-IsOnce operation payload kind command repeated done =
      let input = transaction_input account_id kind (some key) dto in
      let first = run_transaction call input command service.bank in
      let by =
        handled_by hash_request key operation payload (run_transaction call input command) service
          given new first refl in
      let more =
        handled_by hash_request second_key operation payload
          (run_transaction again (record input { idempotency_key = some second_key }) repeated) _
          second_given
          (answered-elsewhere key second_key apart hash_request operation payload
              (run_transaction call input command) service given new
            ∙ second_new)
          (ok accepted_reply, first.1)
          (ap (run_transaction again (record input { idempotency_key = some second_key }) repeated)
              by.1
            ∙ run_transaction-again input (some second_key) n call again command repeated
                service.bank answer fresh parsed (sym by.0 ∙ done)) in
      (more.0, more.1 ∙ sym by.1)

  abbrev withdrawal : Answer
  withdrawal = post_withdrawal hash_request call correlation_id (some key) account_id dto service

  pub withdrawal-IsOnce :
      withdrawal.0 ≡ ok answer
      → IsOnce withdrawal (
          post_withdrawal hash_request again second_id
            (some second_key)
            account_id
            dto
            withdrawal.1)
  unfolding post_withdrawal
  withdrawal-IsOnce done =
      posted-IsOnce (text "accounts.withdraw") (moving account_id dto) withdraw
        (withdraw_money account_id dto.amount dto.currency
          (request_context (some key) correlation_id dto.actor) dto.transaction_id)
        (withdraw_money account_id dto.amount dto.currency
          (request_context (some second_key) second_id dto.actor) dto.transaction_id)
        done

  abbrev deposition : Answer
  deposition = post_deposit hash_request call correlation_id (some key) account_id dto service

  -- When an HTTP deposit under a new idempotency key and a new transaction id, with an amount that
  -- parses, was accepted, the same deposit under another new idempotency key (both not empty) is
  -- accepted too and leaves the stores of the bank and the transaction records as the first left
  -- them: the money is deposited once.
  pub deposit-IsOnce :
      deposition.0 ≡ ok answer
      → IsOnce deposition
          (post_deposit hash_request again second_id (some second_key) account_id dto deposition.1)
  unfolding post_deposit
  deposit-IsOnce done =
      posted-IsOnce (text "accounts.deposit") (moving account_id dto) deposit
        (deposit_money account_id dto.amount dto.currency
          (request_context (some key) correlation_id dto.actor) dto.transaction_id)
        (deposit_money account_id dto.amount dto.currency
          (request_context (some second_key) second_id dto.actor) dto.transaction_id)
        done
