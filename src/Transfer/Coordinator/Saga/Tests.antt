-- ===== src/Transfer/Coordinator/Saga/Tests.antt =====
-- The theorems about the saga at transfers between two accounts.
use event_sourced_core_banki.Base.{
  ℕ, ◌≡◌, refl, ap, ◌∙◌, none, some, [], ◌∷◌, Text, pos, ◌==◌, get, inl, arith, put, get-put_self,
  ◌*◌, ℤ, take, length, ◌-◌,
}
use event_sourced_core_banki.Common.Result.{ok}
use event_sourced_core_banki.Common.Event.{transfer_initiated}
use event_sourced_core_banki.Common.Aggregate.{Aggregate, apply, replay}
use event_sourced_core_banki.Common.Money.{
  MoneyInput, parse_money_to_minor_units, format_minor_units_to_money, with_point, pad_start,
  to_string, minor_units_to_number,
}
use event_sourced_core_banki.Infrastructure.EventStore.{stream}
use event_sourced_core_banki.Account.Aggregate.{AccountState, new_state, when}
use event_sourced_core_banki.Account.Repository.{AccountStores}
use event_sourced_core_banki.Account.Repository.Consistency.{account_events, IsConsistent}
use event_sourced_core_banki.Account.Repository.Quiet.{nobody}
use event_sourced_core_banki.Transfer.Aggregate
use event_sourced_core_banki.Transfer.Command
use event_sourced_core_banki.Transfer.Repository.Quiet
use event_sourced_core_banki.Transfer.Lifecycle.Commands.{IsNamed}
use event_sourced_core_banki.Transfer.Coordinator.{
  Bank, Pass, TransferCall, execute_transfer_command, then_do, process_transfer, moved_amount,
}
use event_sourced_core_banki.Transfer.Coordinator.Steps.{
  IsQuiet, Holds, TransferDone, execute-TransferDone,
}
use event_sourced_core_banki.Transfer.Coordinator.Terms.{IsAccount}
use event_sourced_core_banki.Transfer.Coordinator.Saga.{
  IsWaiting, Prints, debit_id, credit_id, compensation_id,
}
use event_sourced_core_banki.Common.Money.Scale.{parse-to_string}
use event_sourced_core_banki.Infrastructure.Transactions.{
  ReserveTransactionInput, TransactionRecord, completed, new_record, withdraw,
}
use event_sourced_core_banki.Infrastructure.Transactions.Once.{same_intent-new_record}
use event_sourced_core_banki.Transfer.Coordinator.{
  process_debit, process_credit, process_compensation, reservation, register_movement,
}
use event_sourced_core_banki.Transfer.Coordinator.Recorded.{records_hundredfold}
use event_sourced_core_banki.Account.Command.{AccountCommand, withdraw_money}
use event_sourced_core_banki.Transfer.Coordinator.Stage.{StageIdle}
use event_sourced_core_banki.Transfer.Coordinator.Debit.{debit_input, debit_ended, debit-repeated}
use event_sourced_core_banki.Transfer.Coordinator.Known.{Idle, known_moves_nothing}
use event_sourced_core_banki.Transfer.Coordinator.Saga.Outcomes.{
  Completes, Refunds, saga-Completes, saga-Refunds,
}
use event_sourced_core_banki.Transfer.Coordinator.Saga.Failure.{Rejects, saga-Rejects}
use event_sourced_core_banki.Transfer.Coordinator.Saga.Accounts.{
  alice, bob, euro, transfer_id, context, stamps, created, funded, held, opening_bob, freezing_bob,
  alice_open, alice_still, no_transfer, no_transfer_still,
}

abbrev initiation : ℕ → Command.TransferCommand
initiation digit =
    Command.initiate_transfer transfer_id alice bob (MoneyInput.string (digit ∷ [])) euro context

abbrev call : TransferCall
call = record { stamps = stamps; others = Quiet.nobody }

abbrev waiting : ℤ → Aggregate.TransferState
waiting z = record Aggregate.new_state {
  transfer_id = some transfer_id;
  source_account_id = some alice;
  destination_account_id = some bob;
  amount_minor_units = z;
  currency = some euro;
  status = some Aggregate.initiated;
  version = 1;
  created_at = some 1;
  updated_at = some 1;
}

abbrev initiated_by : ℤ → Aggregate Aggregate.TransferState
initiated_by z = record {
  state = waiting z;
  uncommitted_events =
      Aggregate.make_event Aggregate.new_state
        (transfer_initiated transfer_id alice bob (format_minor_units_to_money z) euro) context
        (stamps 1)
      ∷ [];
}

initiates :
    Command.run_command (initiation b'5') (stamps 1) Aggregate.new_transfer
    ≡ ok (initiated_by (pos 500))
unfolding Command.run_command Aggregate.initiate apply Aggregate.when Aggregate.make_event
    parse_money_to_minor_units format_minor_units_to_money with_point pad_start to_string ◌==◌
initiates = refl

initiates_more :
    Command.run_command (initiation b'9') (stamps 1) Aggregate.new_transfer
    ≡ ok (initiated_by (pos 900))
unfolding Command.run_command Aggregate.initiate apply Aggregate.when Aggregate.make_event
    parse_money_to_minor_units format_minor_units_to_money with_point pad_start to_string ◌==◌
initiates_more = refl

module _ (stores : AccountStores) (c : IsConsistent stores)
    (nothing : replay Aggregate.when
        (stream stores.event_store (Aggregate.transfer_stream transfer_id))
        Aggregate.new_state
      ≡ ok Aggregate.new_state)
    (digit : ℕ) (z : ℤ)
    (ran : Command.run_command (initiation digit) (stamps 1) Aggregate.new_transfer
      ≡ ok (initiated_by z)) where
  abbrev untouched : Bank
  untouched = record { stores = stores; transactions = [] }

  asked :
      TransferDone
        (execute_transfer_command call (initiation digit) untouched)
        transfer_id
        untouched
        (waiting z)
  unfolding IsNamed Command.command_transfer
  asked =
      execute-TransferDone call refl (initiation digit) untouched Aggregate.new_state
        (record { consistent = c; loaded = nothing; well = inl (refl, refl) }) refl (initiated_by z)
        ran

  asked-IsWaiting : IsWaiting asked.after transfer_id (waiting z)
  unfolding get
  asked-IsWaiting = record {
    holds = asked.holds;
    own = refl;
    status = refl;
    no_debit = refl;
    no_credit = refl;
    no_compensation = refl;
    new_debit = ap (λ r. get r (debit_id transfer_id)) asked.records;
    new_credit = ap (λ r. get r (credit_id transfer_id)) asked.records;
    new_compensation = ap (λ r. get r (compensation_id transfer_id)) asked.records;
  }

  abbrev asked-IsAccount :
      (id : Text) (s : AccountState)
      → replay when (account_events stores id) new_state ≡ ok s
      → s.currency ≡ some euro
      → IsAccount asked.after.stores id s.status euro
  asked-IsAccount id s r e = record {
    state = s;
    replayed = ap (λ es. replay when es new_state) (asked.accounts id) ∙ r;
    has_status = refl;
    has_currency = e;
  }

-- What a number of this test prints as: without a fraction of two zeros.
abbrev print_number : Text → Text
print_number s = take (length s - 3) s

abbrev pass : Pass
pass = record {
  command_id = b'p' ∷ [];
  starting = call;
  moving = record { stamps = stamps; others = nobody };
  ending = call;
  failing = call;
  print_number = print_number;
}

quiet : IsQuiet pass
quiet = record { starting = refl; moving = refl; ending = refl; failing = refl }

prints : Prints pass (waiting (pos 500))
unfolding moved_amount minor_units_to_number parse_money_to_minor_units format_minor_units_to_money
    with_point pad_start to_string
prints = refl

Prints-more : Prints pass (waiting (pos 900))
unfolding moved_amount minor_units_to_number parse_money_to_minor_units format_minor_units_to_money
    with_point pad_start to_string
Prints-more = refl

-- The bank with both accounts active, the one with a frozen destination, and a larger transfer.
abbrev bank_open : Bank
bank_open =
    (asked opening_bob.after opening_bob.consistent no_transfer b'5' (pos 500) initiates).after

abbrev bank_frozen : Bank
bank_frozen =
    (asked freezing_bob.after freezing_bob.consistent no_transfer_still b'5' (pos 500)
      initiates).after

abbrev bank_more : Bank
bank_more =
    (asked opening_bob.after opening_bob.consistent no_transfer b'9' (pos 900) initiates_more).after

saga-Completes_example :
    Completes
      (then_do
        (process_transfer pass transfer_id bank_open)
        (λ b. process_transfer pass transfer_id b))
      transfer_id
      bank_open
      (waiting (pos 500))
      funded
      (created bob)
saga-Completes_example =
    saga-Completes pass quiet transfer_id bank_open (waiting (pos 500))
      (asked-IsWaiting opening_bob.after opening_bob.consistent no_transfer b'5' (pos 500)
        initiates)
      prints
      (asked-IsAccount opening_bob.after opening_bob.consistent no_transfer b'5' (pos 500) initiates
        alice funded alice_open refl)
      (omega arith) pass quiet prints
      (asked-IsAccount opening_bob.after opening_bob.consistent no_transfer b'5' (pos 500) initiates
        bob (created bob) opening_bob.result refl)

saga-Refunds_example :
    Refunds
      (then_do
        (then_do
          (process_transfer pass transfer_id bank_frozen)
          (λ b. process_transfer pass transfer_id b))
        (λ b. process_transfer pass transfer_id b))
      transfer_id
      bank_frozen
      (waiting (pos 500))
      funded
saga-Refunds_example =
    saga-Refunds pass quiet transfer_id bank_frozen (waiting (pos 500))
      (asked-IsWaiting freezing_bob.after freezing_bob.consistent no_transfer_still b'5' (pos 500)
        initiates)
      prints
      (asked-IsAccount freezing_bob.after freezing_bob.consistent no_transfer_still b'5' (pos 500)
        initiates alice funded alice_still refl)
      (omega arith) pass quiet prints pass quiet prints
      (asked-IsAccount freezing_bob.after freezing_bob.consistent no_transfer_still b'5' (pos 500)
        initiates bob held freezing_bob.result refl)

saga-Rejects_example : Rejects (process_transfer pass transfer_id bank_more) transfer_id bank_more
saga-Rejects_example =
    saga-Rejects pass quiet transfer_id bank_more (waiting (pos 900))
      (asked-IsWaiting opening_bob.after opening_bob.consistent no_transfer b'9' (pos 900)
        initiates_more)
      Prints-more
      (asked-IsAccount opening_bob.after opening_bob.consistent no_transfer b'9' (pos 900)
        initiates_more alice funded alice_open refl)
      refl

abbrev debit_of : ReserveTransactionInput
debit_of = debit_input (debit_id transfer_id) (waiting (pos 500))

abbrev done_before : TransactionRecord
done_before = record (new_record debit_of (pos (500 * 100))) {
  status = completed;
  error_message = none;
}

-- The bank after a crash between the debit and its mark.
abbrev bank_crashed : Bank
bank_crashed = record bank_open { transactions = put [] (debit_id transfer_id) done_before }

crashed-Holds : Holds bank_crashed transfer_id (waiting (pos 500))
crashed-Holds =
    let h =
      (asked-IsWaiting opening_bob.after opening_bob.consistent no_transfer b'5' (pos 500)
        initiates).holds in
    record { consistent = h.consistent; loaded = h.loaded; well = h.well }

debit-repeated_example :
    StageIdle
      (process_debit pass transfer_id context (debit_id transfer_id) bank_crashed)
      transfer_id
      bank_crashed
      (debit_ended pass (debit_id transfer_id) (waiting (pos 500)))
unfolding reservation
debit-repeated_example =
    debit-repeated pass quiet transfer_id context (debit_id transfer_id) bank_crashed
      (waiting (pos 500)) crashed-Holds prints refl
      (record {
        known = done_before;
        recorded = get-put_self [] (debit_id transfer_id) done_before;
        status = refl;
        same =
            same_intent-new_record debit_of (pos (500 * 100)) completed none (parse-to_string 500);
      })

known_moves_nothing_example :
    Idle bank_crashed (process_debit pass transfer_id context (debit_id transfer_id) bank_crashed).1
    × Idle bank_crashed
        (process_credit pass transfer_id context (debit_id transfer_id) bank_crashed).1
    × Idle bank_crashed
        (process_compensation pass transfer_id context (debit_id transfer_id) bank_crashed).1
known_moves_nothing_example =
    known_moves_nothing pass quiet transfer_id context (debit_id transfer_id) bank_crashed (record {
      known = done_before;
      recorded = get-put_self [] (debit_id transfer_id) done_before;
      closed = λ e. cc;
    })

-- The withdrawal of 5.00 that the debit runs.
abbrev withdrawal : AccountCommand
withdrawal =
    withdraw_money alice (MoneyInput.string (b'5' ∷ [])) euro context (debit_id transfer_id)

records_hundredfold_example :
    (r : TransactionRecord) × (get
        (register_movement pass.moving
          (reservation (debit_id transfer_id) (some alice) withdraw (waiting (pos 500)))
          withdrawal
          bank_open).1.transactions
        (debit_id transfer_id)
      ≡ some r)
    × (r.amount_minor_units ≡ to_string (pos (500 * 100)))
records_hundredfold_example =
    records_hundredfold pass.moving withdrawal bank_open (debit_id transfer_id) (some alice)
      withdraw (waiting (pos 500)) 500 refl
      (asked-IsWaiting opening_bob.after opening_bob.consistent no_transfer b'5' (pos 500)
        initiates).new_debit
