-- ===== src/Transfer/Coordinator/Movements.antt =====
-- What a movement of the coordinator does to the bank when no other instance writes: the registry
-- runs the command to the account once, and not again.
use event_sourced_core_banki.Base.{
  ◌≡◌, ◌≢◌, refl, ◌∙◌, some, none, true, [], arith, Text, ℤ, get, put, get-put_self, get-put_ne,
}
use event_sourced_core_banki.Common.Result.{ok, err, bad_request}
use event_sourced_core_banki.Common.Aggregate.{Aggregate, replay}
use event_sourced_core_banki.Common.Message.{message}
use event_sourced_core_banki.Common.Money.{parse_money_to_minor_units}
use event_sourced_core_banki.Infrastructure.Transactions.{
  TransactionRecord, TransactionRecords, ReserveTransactionInput, accepted, completed,
  failed_terminal, new_record, mark_completed, mark_failed, finish, resume,
  ensure_same_transaction_intent,
}
use event_sourced_core_banki.Infrastructure.Transactions.Once.{
  execute-new, execute-existing, same_intent-new_record,
}
use event_sourced_core_banki.Account.Aggregate.{AccountState, new_state, account_stream, when}
use event_sourced_core_banki.Account.Command.{AccountCommand, command_account, run_command}
use event_sourced_core_banki.Account.Repository.{execute_with_retry}
use event_sourced_core_banki.Account.Repository.Consistency.{account_events, IsConsistent}
use event_sourced_core_banki.Account.Repository.Retry.{operation}
use event_sourced_core_banki.Account.Repository.Quiet.{
  nobody, Appended, quiet_success, quiet_refusal,
}
use event_sourced_core_banki.Transfer.Aggregate.{transfer_stream}
use event_sourced_core_banki.Transfer.Repository.Quiet.{transfer_events}
use event_sourced_core_banki.Transfer.Coordinator.{
  Bank, Outcome, AccountCall, answer_accepted, run_movement, is_retryable_error, drop_response,
  register_movement,
}
use event_sourced_core_banki.Transfer.Coordinator.Steps.{streams_apart, account_stream-injective}

-- The registry knows the movement as completed.
pub record IsCompleted (transactions : TransactionRecords) (input : ReserveTransactionInput)
    : Type 0 where
  pub known : TransactionRecord
  pub recorded : get transactions input.transaction_id ≡ some known
  pub status : known.status ≡ completed
  pub same : ensure_same_transaction_intent input known ≡ ok tt

-- A movement that was done. It changed one account, its record, and no transfer.
pub record MovementDone (outcome : Outcome) (account_id : Text) (input : ReserveTransactionInput)
    (before : Bank) (s : AccountState) : Type 0 where
  pub after : Bank
  pub answer : outcome ≡ (ok tt, after)
  pub consistent : IsConsistent after.stores
  pub moved : replay when (account_events after.stores account_id) new_state ≡ ok s
  pub accounts :
      (id : Text)
      → account_id ≢ id
      → account_events after.stores id ≡ account_events before.stores id
  pub transfers :
      (id : Text)
      → transfer_events after.stores.event_store id ≡ transfer_events before.stores.event_store id
  pub recorded : IsCompleted after.transactions input
  pub records :
      (id : Text)
      → input.transaction_id ≢ id
      → get after.transactions id ≡ get before.transactions id

mark_completed-put :
    (records : TransactionRecords) (k : Text) (r : TransactionRecord)
    → mark_completed (put records k r) k
      ≡ put (put records k r) k (record r { status = completed; error_message = none })
unfolding mark_completed
mark_completed-put records k r = ground (arith, get-put_self records k r)

-- A movement that the account refused. It changed no more than its record.
pub record MovementRefused (outcome : Outcome) (message : Text) (input : ReserveTransactionInput)
    (before : Bank) : Type 0 where
  pub after : Bank
  pub answer : outcome ≡ (err (bad_request message), after)
  pub stores : after.stores ≡ before.stores
  pub known : TransactionRecord
  pub recorded : get after.transactions input.transaction_id ≡ some known
  pub status : known.status ≡ failed_terminal
  pub records :
      (id : Text)
      → input.transaction_id ≢ id
      → get after.transactions id ≡ get before.transactions id

mark_failed-put :
    (records : TransactionRecords) (k text : Text) (r : TransactionRecord)
    → mark_failed (put records k r) k text failed_terminal
      ≡ put (put records k r) k (record r { status = failed_terminal; error_message = some text })
unfolding mark_failed
mark_failed-put records k text r = ground (arith, get-put_self records k r)

module _ (call : AccountCall) (quiet : call.others ≡ nobody) (input : ReserveTransactionInput)
    (n : ℤ) (parsed : parse_money_to_minor_units input.amount ≡ ok n) (command : AccountCommand)
    (bank : Bank) (fresh : get bank.transactions input.transaction_id ≡ none)
    (c : IsConsistent bank.stores) (s : AccountState)
    (loaded : replay when (account_events bank.stores (command_account command)) new_state
      ≡ ok s) where
  abbrev account_id : Text
  account_id = command_account command

  abbrev reserved : TransactionRecords
  reserved = put bank.transactions input.transaction_id (new_record input n)

  module _ (a : Aggregate AccountState)
      (ran : run_command command (call.stamps 1) (record { state = s; uncommitted_events = [] })
        ≡ ok a) where
    abbrev appended :
        Appended
          (execute_with_retry account_id
            (operation account_id command call.stamps)
            nobody
            bank.stores)
          account_id
          bank.stores
          a.state
    appended = quiet_success account_id command call.stamps bank.stores c s loaded a ran

    abbrev done : TransactionRecord
    done = record (new_record input n) { status = completed; error_message = none }

    abbrev after_movement : Bank
    after_movement = record {
      stores = appended.after;
      transactions = put reserved input.transaction_id done;
    }

    ran_once : run_movement call command bank.stores ≡ (ok accepted, appended.after)
    unfolding run_movement answer_accepted
    ran_once = rw (quiet, appended.answer) refl

    answered : register_movement call input command bank ≡ (ok tt, after_movement)
    unfolding register_movement drop_response finish
    answered =
        rw
          (
            execute-new is_retryable_error true input n (run_movement call command)
                bank.transactions bank.stores fresh parsed,
            ran_once,
            mark_completed-put bank.transactions input.transaction_id (new_record input n),
          )
          refl

    -- A movement with a new transaction id that the account accepts.
    pub register-MovementDone :
        MovementDone (register_movement call input command bank) account_id input bank a.state
    register-MovementDone = record {
      after = after_movement;
      answer = answered;
      consistent = appended.consistent;
      moved = appended.result;
      accounts = λ id ne.
          appended.elsewhere (account_stream id)
            (λ e. ne (account_stream-injective account_id id e));
      transfers = λ id. appended.elsewhere (transfer_stream id) (streams_apart account_id id);
      recorded = record {
        known = done;
        recorded = get-put_self reserved input.transaction_id done;
        status = refl;
        same = same_intent-new_record input n completed none parsed;
      };
      records = λ id ne.
          get-put_ne reserved done ne ∙ get-put_ne bank.transactions (new_record input n) ne;
    }

  module _ (reason : Text)
      (ran : run_command command (call.stamps 1) (record { state = s; uncommitted_events = [] })
        ≡ err (bad_request reason)) where
    abbrev spoiled : TransactionRecord
    spoiled = record (new_record input n) { status = failed_terminal; error_message = some reason }

    ran_in_vain : run_movement call command bank.stores ≡ (err (bad_request reason), bank.stores)
    unfolding run_movement answer_accepted
    ran_in_vain =
        rw
          (
            quiet,
            quiet_refusal account_id command call.stamps bank.stores c s loaded (bad_request reason)
                (λ stream expected actual e. cc) ran,
          )
          refl

    refused : register_movement call input command bank ≡ (
      err (bad_request reason),
      record { stores = bank.stores; transactions = put reserved input.transaction_id spoiled },
    )
    unfolding register_movement drop_response finish is_retryable_error message
    refused =
        rw
          (
            execute-new is_retryable_error true input n (run_movement call command)
                bank.transactions bank.stores fresh parsed,
            ran_in_vain,
            mark_failed-put bank.transactions input.transaction_id reason (new_record input n),
          )
          refl

    -- A movement with a new transaction id that the account refuses.
    pub register-MovementRefused :
        MovementRefused (register_movement call input command bank) reason input bank
    register-MovementRefused = record {
      after = record {
        stores = bank.stores;
        transactions = put reserved input.transaction_id spoiled;
      };
      answer = refused;
      stores = refl;
      known = spoiled;
      recorded = get-put_self reserved input.transaction_id spoiled;
      status = refl;
      records = λ id ne.
          get-put_ne reserved spoiled ne ∙ get-put_ne bank.transactions (new_record input n) ne;
    }

-- A movement that the registry knows as completed is not run again.
pub register-completed :
    (call : AccountCall) (input : ReserveTransactionInput) (command : AccountCommand) (bank : Bank)
    → IsCompleted bank.transactions input
    → register_movement call input command bank ≡ (ok tt, bank)
unfolding register_movement drop_response resume
register-completed call input command bank known =
    rw
      (
        execute-existing is_retryable_error true input known.known (run_movement call command)
            bank.transactions bank.stores known.recorded known.same,
        known.status,
      )
      refl
