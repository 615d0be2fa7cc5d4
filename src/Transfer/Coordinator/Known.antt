-- ===== src/Transfer/Coordinator/Known.antt =====
-- A transaction id that the registry knows: the coordinator moves no money under it again.
use event_sourced_core_banki.Base.{
  ◌≡◌, ◌≢◌, refl, sym, ap, subst, ◌∙◌, some, Bool-cases, inl, inr, Bool, true, false, Text, get,
}
use event_sourced_core_banki.Common.Result.{Error, Result, ok, err}
use event_sourced_core_banki.Common.Event.{CommandContext, FailureStage, debit, credit}
use event_sourced_core_banki.Common.Aggregate.{Aggregate}
use event_sourced_core_banki.Common.Message.{message}
use event_sourced_core_banki.Infrastructure.Transactions.{
  TransactionRecord, ReserveTransactionInput, Response, failed_retryable,
}
use event_sourced_core_banki.Infrastructure.Transactions.Once.{known_unchanged}
use event_sourced_core_banki.Account.Aggregate.{account_stream}
use event_sourced_core_banki.Account.Command.{AccountCommand}
use event_sourced_core_banki.Account.Repository.Consistency.{account_events}
use event_sourced_core_banki.Transfer.Aggregate.{TransferState}
use event_sourced_core_banki.Transfer.Command.{
  TransferCommand, fail_transfer, command_transfer, run_command,
}
use event_sourced_core_banki.Transfer.Repository.{get_by_id}
use event_sourced_core_banki.Transfer.Repository.Quiet.{nobody}
use event_sourced_core_banki.Transfer.Repository.Elsewhere.{execute_with_retry-elsewhere}
use event_sourced_core_banki.Transfer.Coordinator.{
  Bank, Outcome, TransferCall, AccountCall, Pass, then_do, catching, execute_transfer_command,
  run_movement, is_retryable_error, drop_response, register_movement, settle_failure,
  is_terminal_domain_error, with_transfer, start_stage, debit_source, debit_transfer, process_debit,
  credit_destination, credit_transfer, process_credit, refund_source, compensate_transfer,
  process_compensation, reservation,
}
use event_sourced_core_banki.Transfer.Coordinator.Steps.{IsQuiet, streams_apart}

-- No account and no transaction record has changed.
pub record Idle (before after : Bank) : Type 0 where
  pub accounts : (id : Text) → account_events after.stores id ≡ account_events before.stores id
  pub records : after.transactions ≡ before.transactions

Idle-refl : (b : Bank) → Idle b b
Idle-refl b = record { accounts = λ id. refl; records = refl }

Idle-trans : {a b c : Bank} → Idle a b → Idle b c → Idle a c
Idle-trans f g = record {
  accounts = λ id. g.accounts id ∙ f.accounts id;
  records = g.records ∙ f.records;
}

-- A command to a transfer moves no money, whatever it comes to.
execute-Idle :
    (call : TransferCall)
    → call.others ≡ nobody
    → (command : TransferCommand) (bank : Bank)
    → Idle bank (execute_transfer_command call command bank).1
unfolding execute_transfer_command
execute-Idle call quiet command bank = record {
  accounts = λ id. rw quiet (
      execute_with_retry-elsewhere (command_transfer command) (account_stream id)
        (λ e. streams_apart id (command_transfer command) (sym e))
        (λ n. run_command command (call.stamps n)) bank.stores.event_store);
  records = refl;
}

then_do-Idle :
    (before : Bank) (outcome : Outcome) (next : Bank → Outcome)
    → Idle before outcome.1
    → ((b : Bank) → Idle before b → Idle before (next b).1)
    → Idle before (then_do outcome next).1
unfolding then_do
then_do-Idle before (ok _, b) next h k = k b h
then_do-Idle before (err e, b) next h k = h

catching-Idle :
    (before : Bank) (outcome : Outcome) (handler : Error → Bank → Outcome)
    → Idle before outcome.1
    → ((e : Error) (b : Bank) → Idle before b → Idle before (handler e b).1)
    → Idle before (catching outcome handler).1
unfolding catching
catching-Idle before (ok _, b) handler h k = h
catching-Idle before (err e, b) handler h k = k e b h

-- The registry knows the transaction id, and the record does not wait for a retry.
pub record IsKnown (bank : Bank) (transaction_id : Text) : Type 0 where
  pub known : TransactionRecord
  pub recorded : get bank.transactions transaction_id ≡ some known
  pub closed : known.status ≢ failed_retryable

dropped :
    (answer : Result Response) (before bank : Bank)
    → Idle before bank
    → Idle before (drop_response (answer, bank.transactions, bank.stores)).1
unfolding drop_response
dropped (ok _) before bank idle = record { accounts = idle.accounts; records = idle.records }
dropped (err e) before bank idle = record { accounts = idle.accounts; records = idle.records }

register-Idle :
    (call : AccountCall) (input : ReserveTransactionInput) (command : AccountCommand)
    (before bank : Bank)
    → IsKnown before input.transaction_id
    → Idle before bank
    → Idle before (register_movement call input command bank).1
unfolding register_movement
register-Idle call input command before bank known idle =
    let (answer, e) =
      known_unchanged is_retryable_error true input known.known (run_movement call command)
        bank.transactions bank.stores
        (ap (λ r. get r input.transaction_id) idle.records ∙ known.recorded)
        (λ s. absurd (known.closed s)) in
    rw e (dropped answer before bank idle)

module _ (pass : Pass) (quiet : IsQuiet pass) (transfer_id : Text) (context : CommandContext)
    (transaction_id : Text) (before : Bank) (known : IsKnown before transaction_id) where
  start-Idle :
      (b : Bool) (command : TransferCommand) (bank : Bank)
      → Idle before bank
      → Idle before (start_stage pass transfer_id context transaction_id b command bank).1
  unfolding start_stage
  start-Idle true command bank idle =
      Idle-trans idle (execute-Idle pass.starting quiet.starting command bank)
  start-Idle false command bank idle = idle

  settle-Idle :
      (stage : FailureStage) (e : Error) (bank : Bank)
      → Idle before bank
      → Idle before (settle_failure pass.failing transfer_id stage context e bank).1
  unfolding settle_failure
  settle-Idle stage e bank idle =
      let command = fail_transfer transfer_id (message e) stage context in
      elim (Bool-cases (is_terminal_domain_error e)) [
        | inl t ↦ rw t (Idle-trans idle (execute-Idle pass.failing quiet.failing command bank))
        | inr f ↦ rw f idle
      ]

  -- The movement, and the command behind it.
  moved-Idle :
      (input : ReserveTransactionInput) (command : AccountCommand) (finish : TransferCommand)
      (bank : Bank)
      → input.transaction_id ≡ transaction_id
      → Idle before bank
      → Idle before
          (then_do
            (register_movement pass.moving input command bank)
            (λ moved. execute_transfer_command pass.ending finish moved)).1
  moved-Idle input command finish bank same idle =
      then_do-Idle before _ _
        (register-Idle pass.moving input command before bank
          (subst (λ k. IsKnown before k) (sym same) known) idle)
        (λ b h. Idle-trans h (execute-Idle pass.ending quiet.ending finish b))

  with-Idle :
      (r : Result (Aggregate TransferState)) (next : TransferState → Bank → Outcome)
      → ((t : TransferState) → Idle before (next t before).1)
      → Idle before (with_transfer r next before).1
  unfolding with_transfer
  with-Idle (ok a) next h = h a.state
  with-Idle (err e) next h = Idle-refl before

  debit-Idle : Idle before (process_debit pass transfer_id context transaction_id before).1
  unfolding process_debit debit_transfer debit_source reservation
  debit-Idle = with-Idle (get_by_id transfer_id before.stores.event_store) _ (λ t.
      then_do-Idle before _ _ (start-Idle _ _ before (Idle-refl before))
        (λ b h. catching-Idle before _ _ (moved-Idle _ _ _ b refl h) (settle-Idle debit)))

  credit-Idle : Idle before (process_credit pass transfer_id context transaction_id before).1
  unfolding process_credit credit_transfer credit_destination reservation
  credit-Idle = with-Idle (get_by_id transfer_id before.stores.event_store) _ (λ t.
      then_do-Idle before _ _ (start-Idle _ _ before (Idle-refl before))
        (λ b h. catching-Idle before _ _ (moved-Idle _ _ _ b refl h) (settle-Idle credit)))

  compensation-Idle :
      Idle before (process_compensation pass transfer_id context transaction_id before).1
  unfolding process_compensation compensate_transfer refund_source reservation
  compensation-Idle = with-Idle (get_by_id transfer_id before.stores.event_store) _ (λ t.
      then_do-Idle before _ _ (start-Idle _ _ before (Idle-refl before))
        (λ b h. catching-Idle before _ _ (moved-Idle _ _ _ b refl h) (λ e b' k. k)))

  -- When no other instance writes, and the registry knows a transaction id whose record has not
  -- failed retryably, neither a debit nor a credit nor a compensation under that id changes an
  -- account or a transaction record, whatever state the transfer is in.
  pub known_moves_nothing :
      Idle before (process_debit pass transfer_id context transaction_id before).1
      × Idle before (process_credit pass transfer_id context transaction_id before).1
      × Idle before (process_compensation pass transfer_id context transaction_id before).1
  known_moves_nothing = (debit-Idle, credit-Idle, compensation-Idle)
