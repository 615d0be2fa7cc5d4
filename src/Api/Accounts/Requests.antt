-- ===== src/Api/Accounts/Requests.antt =====
-- What the registry and the idempotency service make of a request that comes under two keys.
use event_sourced_core_banki.Base.{
  arith, get-put_self, get-put_ne, ◌≢◌, ◌≡◌, refl, sym, ap, ◌∙◌, Option, none, some, Bool, true,
  false, Text, ℤ, get, put, is_truthy,
}
use event_sourced_core_banki.Common.Result.{Error, Result, ok, err}
use event_sourced_core_banki.Common.Money.{parse_money_to_minor_units}
use event_sourced_core_banki.Infrastructure.Idempotency
use event_sourced_core_banki.Infrastructure.Idempotency.{
  IdempotencyRecords, IdempotencyRecord, completed, failed,
}
use event_sourced_core_banki.Common.Message.{message}
use event_sourced_core_banki.Infrastructure.Idempotency.Once
use event_sourced_core_banki.Infrastructure.Transactions.{
  TransactionRecords, ReserveTransactionInput, Response, accepted, new_record,
  ensure_same_transaction_intent, same_intent, finish, resume, execute,
}
use event_sourced_core_banki.Infrastructure.Transactions.Once.{
  after_run, after_run-same, execute-new, execute-existing, first-record,
}
use event_sourced_core_banki.Account.Command.{AccountCommand}
use event_sourced_core_banki.Account.Repository.{AccountStores}
use event_sourced_core_banki.Transfer.Coordinator.{Bank, AccountCall, run_movement}
use event_sourced_core_banki.Api.{ApiResponse, Payload, Service, Answer, answer_of}
use event_sourced_core_banki.Api.Accounts.{reply, run_transaction}

-- The same request under another key.
same_under_key :
    (input : ReserveTransactionInput) (key : Option Text)
    → (r : _)
    → ensure_same_transaction_intent (record input { idempotency_key = key }) r
      ≡ ensure_same_transaction_intent input r
unfolding ensure_same_transaction_intent same_intent
same_under_key input key r = refl

module _ {W : Type 0} (retryable : Error → Bool) where
  finish-answer :
      (id : Text) (records : TransactionRecords) (p : Result Response × W)
      → (finish retryable id records p).0 ≡ p.0
  unfolding finish
  finish-answer id records (ok r, w) = refl
  finish-answer id records (err e, w) = refl

  -- The registry runs the movement of a transaction id that is new once, whatever the key.
  module _ (input : ReserveTransactionInput) (key : Option Text) (n : ℤ)
      (handler again : W → Result Response × W) (records : TransactionRecords) (w : W)
      (fresh : get records input.transaction_id ≡ none)
      (parsed : parse_money_to_minor_units input.amount ≡ ok n) where
    abbrev first : Result Response × TransactionRecords × W
    first = execute retryable false input handler records w

    handled : (response : Response) → first.0 ≡ ok response → (handler w).0 ≡ ok response
    handled response h =
        sym (
          ap (λ (t : Result Response × TransactionRecords × W). t.0)
            (execute-new retryable false input n handler records w fresh parsed)
          ∙ finish-answer input.transaction_id
              (put records input.transaction_id (new_record input n)) (handler w))
        ∙ h

    not_again :
        (response : Response)
        → first.0 ≡ ok response
        → execute retryable false (record input { idempotency_key = key }) again first.1 first.2
          ≡ (ok accepted, first.1, first.2)
    unfolding resume after_run
    not_again response h =
        execute-existing retryable false (record input { idempotency_key = key }) _ again first.1
          first.2 (first-record retryable false input n handler again records w w fresh parsed)
          (same_under_key input key _ ∙ after_run-same retryable input n (handler w).0 parsed)
        ∙ rw (handled response h) refl

reply-ok :
    (r : Result Response) (transactions : TransactionRecords) (stores : AccountStores)
    {answer : ApiResponse}
    → (reply r transactions stores).0 ≡ ok answer
    → (response : Response) × (r ≡ ok response)
unfolding reply
reply-ok (ok response) transactions stores h = (response, refl)
reply-ok (err e) transactions stores h = cc

reply-bank :
    (r : Result Response) (transactions : TransactionRecords) (stores : AccountStores)
    → (reply r transactions stores).1 ≡ record { stores = stores; transactions = transactions }
unfolding reply
reply-bank (ok response) transactions stores = refl
reply-bank (err e) transactions stores = refl

abbrev pub accepted_reply : ApiResponse
accepted_reply = record { transfer_id = none; status = accepted.status }

pub run_transaction-again :
    (input : ReserveTransactionInput) (key : Option Text) (n : ℤ) (call again : AccountCall)
    (command repeated : AccountCommand) (bank : Bank) (answer : ApiResponse)
    → get bank.transactions input.transaction_id ≡ none
    → parse_money_to_minor_units input.amount ≡ ok n
    → (run_transaction call input command bank).0 ≡ ok answer
    → run_transaction again
        (record input { idempotency_key = key })
        repeated
        (run_transaction call input command bank).1
      ≡ (ok accepted_reply, (run_transaction call input command bank).1)
unfolding run_transaction
run_transaction-again input key n call again command repeated bank answer fresh parsed h =
    let done =
      execute (λ e. false) false input (run_movement call command) bank.transactions bank.stores in
    let (response, e) = reply-ok done.0 done.1 done.2 h in
    rw (reply-bank done.0 done.1 done.2) (
      ap (λ (t : Result Response × TransactionRecords × AccountStores). reply t.0 t.1 t.2)
        (not_again (λ e. false) input key n (run_movement call command)
          (run_movement again repeated) bank.transactions bank.stores fresh parsed response e)
      ∙ unfold reply in refl)

-- A movement of a new transaction id that the account accepts.
pub run_transaction-new :
    (input : ReserveTransactionInput) (n : ℤ) (call : AccountCall) (command : AccountCommand)
    (bank : Bank) (stores : AccountStores)
    → get bank.transactions input.transaction_id ≡ none
    → parse_money_to_minor_units input.amount ≡ ok n
    → run_movement call command bank.stores ≡ (ok accepted, stores)
    → (run_transaction call input command bank).0 ≡ ok accepted_reply
unfolding run_transaction finish reply
run_transaction-new input n call command bank stores fresh parsed moved =
    rw
      (
        execute-new (λ e. false) false input n (run_movement call command) bank.transactions
            bank.stores fresh parsed,
        moved,
      )
      refl

-- A request with a new idempotency key is answered by its handler.
module _ (hash_request : Text → Payload → Text) (key operation : Text) (payload : Payload)
    (handler : Bank → Result ApiResponse × Bank) (service : Service) (given : is_truthy key ≡ true)
    (new : get service.records key ≡ none) where
  abbrev pub answered : Answer
  answered = answer_of (
      Idempotency.execute hash_request (some key) operation payload handler service.records
        service.bank)

  pub handled_by :
      (p : Result ApiResponse × Bank)
      → handler service.bank ≡ p
      → (answered.0 ≡ p.0) × (answered.1.bank ≡ p.1)
  unfolding answer_of Idempotency.finish
  handled_by (ok response, bank) e =
      rw
        (
          Once.execute-new hash_request key operation payload handler service.records service.bank
              given new,
          e,
        )
        (refl, refl)
  handled_by (err error, bank) e =
      rw
        (
          Once.execute-new hash_request key operation payload handler service.records service.bank
              given new,
          e,
        )
        (refl, refl)

-- A request leaves the records of other keys as they are.
module _ (key j : Text) (apart : key ≢ j) where
  finish-elsewhere :
      (records : IdempotencyRecords ApiResponse) (r : IdempotencyRecord ApiResponse)
      (p : Result ApiResponse × Bank)
      → get (Idempotency.finish key (put records key r) p).1 j ≡ get records j
  unfolding Idempotency.finish Idempotency.mark_completed Idempotency.mark_failed
  finish-elsewhere records r (ok response, bank) =
      let after : IdempotencyRecord ApiResponse = record r {
        status = completed;
        response_payload = some response;
        error_message = none;
      } in
      ground (
        arith,
        get-put_self records key r,
        get-put_ne (put records key r) after apart,
        get-put_ne records r apart,
      )
  finish-elsewhere records r (err e, bank) =
      let after : IdempotencyRecord ApiResponse = record r {
        status = failed;
        error_message = some (message e);
      } in
      ground (
        arith,
        get-put_self records key r,
        get-put_ne (put records key r) after apart,
        get-put_ne records r apart,
      )

  pub answered-elsewhere :
      (hash_request : Text → Payload → Text) (operation : Text) (payload : Payload)
      (handler : Bank → Result ApiResponse × Bank) (service : Service)
      (given : is_truthy key ≡ true) (new : get service.records key ≡ none)
      → get (answered hash_request key operation payload handler service given new).1.records j
        ≡ get service.records j
  unfolding answer_of
  answered-elsewhere hash_request operation payload handler service given new =
      ap (λ (t : Result ApiResponse × IdempotencyRecords ApiResponse × Bank). get t.1 j)
        (Once.execute-new hash_request key operation payload handler service.records service.bank
          given new)
      ∙ finish-elsewhere service.records _ (handler service.bank)
