-- ===== src/Transfer/Coordinator/Credit.antt =====
-- `processCredit` when no other instance writes: an active destination is credited once, a frozen
-- destination fails the transfer, and a credit that was recorded before is only marked.
use event_sourced_core_banki.Base.{◌+◌, ◌≡◌, refl, none, true, [], Text, text, ◌+ℤ◌, get, is_truthy}
use event_sourced_core_banki.Common.Result.{ok, bad_request}
use event_sourced_core_banki.Common.Event.{CommandContext, credit}
use event_sourced_core_banki.Common.Message.{message, includes}
use event_sourced_core_banki.Common.Money.{parse_money_to_minor_units}
use event_sourced_core_banki.Infrastructure.Transactions.{ReserveTransactionInput, deposit}
use event_sourced_core_banki.Account.Aggregate.{active, frozen}
use event_sourced_core_banki.Account.Amounts.{deposit_accepted, deposit_frozen}
use event_sourced_core_banki.Account.Command
use event_sourced_core_banki.Account.Command.{AccountCommand, deposit_money, command_account}
use event_sourced_core_banki.Transfer.Aggregate.{
  TransferState, debited, credit_in_progress, is_one_of,
}
use event_sourced_core_banki.Transfer.Command.{
  start_credit_transfer, complete_transfer, fail_transfer, command_transfer,
}
use event_sourced_core_banki.Transfer.Lifecycle.{IsAgreed}
use event_sourced_core_banki.Transfer.Coordinator.{
  Bank, Pass, TransferCall, reservation, moved_amount, settle_failure, start_stage,
  credit_destination, credit_transfer, process_credit, is_terminal_domain_error,
  execute_transfer_command,
}
use event_sourced_core_banki.Transfer.Coordinator.Steps.{IsQuiet, Holds}
use event_sourced_core_banki.Transfer.Coordinator.Movements.{IsCompleted}
use event_sourced_core_banki.Transfer.Coordinator.Stage.{
  Accepts, StageDone, StageIdle, StageFailed, stage-done, stage-repeated, stage-failed,
}
use event_sourced_core_banki.Transfer.Coordinator.Accepting.{
  after_start_credit, after_complete, after_fail, start_credit-Accepts, complete-Accepts,
  fail-Accepts, parse-positive,
}
use event_sourced_core_banki.Transfer.Coordinator.Terms.{
  IsAccount, destination_of, currency_of, one_of-IsAgreed, with_transfer-loaded,
}

-- The refusal of an account that is frozen is a terminal domain error.
frozen_handled :
    (call : TransferCall) (transfer_id : Text) (context : CommandContext) (b : Bank)
    → settle_failure call transfer_id credit context (bad_request (text "Account is not active")) b
      ≡ execute_transfer_command call
          (fail_transfer transfer_id (text "Account is not active") credit context)
          b
unfolding settle_failure is_terminal_domain_error message includes text
frozen_handled call transfer_id context b = refl

frozen_stated : is_truthy (text "Account is not active") ≡ true
unfolding text
frozen_stated = refl

-- The input of the registry, and the transfer in the stage and behind it.
abbrev pub credit_input : Text → TransferState → ReserveTransactionInput
credit_input transaction_id t = reservation transaction_id t.destination_account_id deposit t

abbrev pub credit_started : Pass → Text → TransferState → TransferState
credit_started pass transaction_id t = after_start_credit t transaction_id (pass.starting.stamps 1)

abbrev pub credit_ended : Pass → Text → TransferState → TransferState
credit_ended pass transaction_id t =
    after_complete (credit_started pass transaction_id t) (pass.ending.stamps 1)

module _ (pass : Pass) (quiet : IsQuiet pass) (transfer_id : Text) (context : CommandContext)
    (transaction_id : Text) (bank : Bank) (t : TransferState) (h : Holds bank transfer_id t)
    (printed : parse_money_to_minor_units (moved_amount pass.print_number t)
      ≡ ok t.amount_minor_units)
    (waiting : is_one_of t.status debited credit_in_progress ≡ true) where
  unfolds :
      process_credit pass transfer_id context transaction_id bank
      ≡ credit_transfer pass transfer_id context transaction_id t bank
  unfolding process_credit
  unfolds = with_transfer-loaded bank transfer_id t h _

  g : IsAgreed t
  g = one_of-IsAgreed t debited credit_in_progress h.well waiting

  starts :
      Accepts
        (start_credit_transfer transfer_id transaction_id context)
        pass.starting
        t
        (credit_started pass transaction_id t)
  starts = start_credit-Accepts transfer_id context pass.starting t transaction_id waiting

  ends :
      Accepts
        (complete_transfer transfer_id context)
        pass.ending
        (credit_started pass transaction_id t)
        (credit_ended pass transaction_id t)
  ends =
      complete-Accepts transfer_id context pass.ending (credit_started pass transaction_id t) refl

  abbrev deposition : AccountCommand
  deposition =
      deposit_money (destination_of t) (moved_amount pass.print_number t) (currency_of t) context
        transaction_id

  module _ (fresh : get bank.transactions transaction_id ≡ none) where
    pub credit-done :
        (destination : IsAccount bank.stores (destination_of t) active (currency_of t))
        → StageDone
            (process_credit pass transfer_id context transaction_id bank)
            transfer_id
            (destination_of t)
            (credit_input transaction_id t)
            bank
            (credit_ended pass transaction_id t)
            (record destination.state {
              balance_minor_units = destination.state.balance_minor_units +ℤ t.amount_minor_units;
              version = destination.state.version + 1;
            })
    unfolding credit_transfer start_stage credit_destination command_transfer command_account
        Command.run_command reservation
    credit-done destination =
        let (n, parsed) = parse-positive t.amount_minor_units g.positive in
        rw (unfolds, waiting)
          (stage-done pass quiet (start_credit_transfer transfer_id transaction_id context)
            (complete_transfer transfer_id context) (credit_input transaction_id t) n parsed
            deposition (settle_failure pass.failing transfer_id credit context) bank t
            (credit_started pass transaction_id t) (credit_ended pass transaction_id t) h refl
            starts fresh destination.state destination.replayed _
            (deposit_accepted (record { state = destination.state; uncommitted_events = [] })
              (moved_amount pass.print_number t) (currency_of t) transaction_id context
              (pass.moving.stamps 1) t.amount_minor_units destination.has_status
              destination.has_currency printed g.positive)
            ends)

    -- When the destination is frozen.
    pub credit-failed :
        (destination : IsAccount bank.stores (destination_of t) frozen (currency_of t))
        → StageFailed
            (process_credit pass transfer_id context transaction_id bank)
            transfer_id
            (credit_input transaction_id t)
            bank
            (after_fail
              (credit_started pass transaction_id t)
              (text "Account is not active")
              credit
              (pass.failing.stamps 1))
    unfolding credit_transfer start_stage credit_destination command_transfer command_account
        Command.run_command reservation
    credit-failed destination =
        let (n, parsed) = parse-positive t.amount_minor_units g.positive in
        rw (unfolds, waiting)
          (stage-failed pass quiet (start_credit_transfer transfer_id transaction_id context)
            (complete_transfer transfer_id context) (credit_input transaction_id t) n parsed
            deposition (settle_failure pass.failing transfer_id credit context) bank t
            (credit_started pass transaction_id t) (credit_ended pass transaction_id t) h refl
            starts fresh destination.state destination.replayed (text "Account is not active")
            (fail_transfer transfer_id (text "Account is not active") credit context)
            (after_fail (credit_started pass transaction_id t) (text "Account is not active") credit
              (pass.failing.stamps 1))
            (deposit_frozen (record { state = destination.state; uncommitted_events = [] })
              (moved_amount pass.print_number t) (currency_of t) transaction_id context
              (pass.moving.stamps 1) destination.has_status)
            (frozen_handled pass.failing transfer_id context) refl
            (fail-Accepts transfer_id context pass.failing (credit_started pass transaction_id t)
              (text "Account is not active") credit refl frozen_stated))

  -- When the registry has completed the debit before.
  pub credit-repeated :
      IsCompleted bank.transactions (credit_input transaction_id t)
      → StageIdle
          (process_credit pass transfer_id context transaction_id bank)
          transfer_id
          bank
          (credit_ended pass transaction_id t)
  unfolding credit_transfer start_stage credit_destination command_transfer reservation
  credit-repeated known =
      let (n, parsed) = parse-positive t.amount_minor_units g.positive in
      rw (unfolds, waiting)
        (stage-repeated pass quiet (start_credit_transfer transfer_id transaction_id context)
          (complete_transfer transfer_id context) (credit_input transaction_id t) n parsed
          deposition (settle_failure pass.failing transfer_id credit context) bank t
          (credit_started pass transaction_id t) (credit_ended pass transaction_id t) h refl starts
          ends known)
