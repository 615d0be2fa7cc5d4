-- ===== src/Transfer/Coordinator/Debit.antt =====
-- `processDebit` when no other instance writes: a funded source is debited once, a source that
-- lacks the money fails the transfer, and a debit that was recorded before is only marked.
use event_sourced_core_banki.Base.{
  ◌+◌, ◌≡◌, refl, none, true, [], Text, text, ◌-ℤ◌, ◌≤ℤ◌, ltb_ℤ, get, is_truthy,
}
use event_sourced_core_banki.Common.Result.{ok, bad_request}
use event_sourced_core_banki.Common.Event.{CommandContext, debit}
use event_sourced_core_banki.Common.Message.{message, includes}
use event_sourced_core_banki.Common.Money.{parse_money_to_minor_units}
use event_sourced_core_banki.Infrastructure.Transactions.{ReserveTransactionInput, withdraw}
use event_sourced_core_banki.Account.Aggregate.{active}
use event_sourced_core_banki.Account.Amounts.{withdraw_accepted, withdraw_unfunded}
use event_sourced_core_banki.Account.Command
use event_sourced_core_banki.Account.Command.{AccountCommand, withdraw_money, command_account}
use event_sourced_core_banki.Transfer.Aggregate.{
  TransferState, initiated, debit_in_progress, is_one_of,
}
use event_sourced_core_banki.Transfer.Command.{
  start_debit_transfer, mark_transfer_debited, fail_transfer, command_transfer,
}
use event_sourced_core_banki.Transfer.Lifecycle.{IsAgreed}
use event_sourced_core_banki.Transfer.Coordinator.{
  Bank, Pass, TransferCall, reservation, moved_amount, settle_failure, start_stage, debit_source,
  debit_transfer, process_debit, is_terminal_domain_error, execute_transfer_command,
}
use event_sourced_core_banki.Transfer.Coordinator.Steps.{IsQuiet, Holds}
use event_sourced_core_banki.Transfer.Coordinator.Movements.{IsCompleted}
use event_sourced_core_banki.Transfer.Coordinator.Stage.{
  Accepts, StageDone, StageIdle, StageFailed, stage-done, stage-repeated, stage-failed,
}
use event_sourced_core_banki.Transfer.Coordinator.Accepting.{
  after_start_debit, after_mark_debited, after_fail, start_debit-Accepts, mark_debited-Accepts,
  fail-Accepts, parse-positive,
}
use event_sourced_core_banki.Transfer.Coordinator.Terms.{
  IsAccount, source_of, currency_of, one_of-IsAgreed, with_transfer-loaded,
}

-- The refusal of a source that lacks the money is a terminal domain error.
unfunded_handled :
    (call : TransferCall) (transfer_id : Text) (context : CommandContext) (b : Bank)
    → settle_failure call transfer_id debit context (bad_request (text "Insufficient funds")) b
      ≡ execute_transfer_command call
          (fail_transfer transfer_id (text "Insufficient funds") debit context)
          b
unfolding settle_failure is_terminal_domain_error message includes text
unfunded_handled call transfer_id context b = refl

unfunded_stated : is_truthy (text "Insufficient funds") ≡ true
unfolding text
unfunded_stated = refl

-- The input of the registry, and the transfer in the stage and behind it.
abbrev pub debit_input : Text → TransferState → ReserveTransactionInput
debit_input transaction_id t = reservation transaction_id t.source_account_id withdraw t

abbrev pub debit_started : Pass → Text → TransferState → TransferState
debit_started pass transaction_id t = after_start_debit t transaction_id (pass.starting.stamps 1)

abbrev pub debit_ended : Pass → Text → TransferState → TransferState
debit_ended pass transaction_id t =
    after_mark_debited (debit_started pass transaction_id t) (pass.ending.stamps 1)

module _ (pass : Pass) (quiet : IsQuiet pass) (transfer_id : Text) (context : CommandContext)
    (transaction_id : Text) (bank : Bank) (t : TransferState) (h : Holds bank transfer_id t)
    (printed : parse_money_to_minor_units (moved_amount pass.print_number t)
      ≡ ok t.amount_minor_units)
    (waiting : is_one_of t.status initiated debit_in_progress ≡ true) where
  unfolds :
      process_debit pass transfer_id context transaction_id bank
      ≡ debit_transfer pass transfer_id context transaction_id t bank
  unfolding process_debit
  unfolds = with_transfer-loaded bank transfer_id t h _

  g : IsAgreed t
  g = one_of-IsAgreed t initiated debit_in_progress h.well waiting

  starts :
      Accepts
        (start_debit_transfer transfer_id transaction_id context)
        pass.starting
        t
        (debit_started pass transaction_id t)
  starts = start_debit-Accepts transfer_id context pass.starting t transaction_id waiting

  marks :
      Accepts
        (mark_transfer_debited transfer_id context)
        pass.ending
        (debit_started pass transaction_id t)
        (debit_ended pass transaction_id t)
  marks =
      mark_debited-Accepts transfer_id context pass.ending (debit_started pass transaction_id t)
        refl

  abbrev withdrawal : AccountCommand
  withdrawal =
      withdraw_money (source_of t) (moved_amount pass.print_number t) (currency_of t) context
        transaction_id

  module _ (fresh : get bank.transactions transaction_id ≡ none)
      (source : IsAccount bank.stores (source_of t) active (currency_of t)) where
    -- When no other instance writes, and the transfer is initiated (or its debit in progress), the
    -- transaction id new and the source active, in the currency and funded.
    pub debit-done :
        t.amount_minor_units ≤ℤ source.state.balance_minor_units
        → StageDone
            (process_debit pass transfer_id context transaction_id bank)
            transfer_id
            (source_of t)
            (debit_input transaction_id t)
            bank
            (debit_ended pass transaction_id t)
            (record source.state {
              balance_minor_units = source.state.balance_minor_units -ℤ t.amount_minor_units;
              version = source.state.version + 1;
            })
    unfolding debit_transfer start_stage debit_source command_transfer command_account
        Command.run_command reservation
    debit-done funds =
        let (n, parsed) = parse-positive t.amount_minor_units g.positive in
        rw (unfolds, waiting)
          (stage-done pass quiet (start_debit_transfer transfer_id transaction_id context)
            (mark_transfer_debited transfer_id context) (debit_input transaction_id t) n parsed
            withdrawal (settle_failure pass.failing transfer_id debit context) bank t
            (debit_started pass transaction_id t) (debit_ended pass transaction_id t) h refl starts
            fresh source.state source.replayed _
            (withdraw_accepted (record { state = source.state; uncommitted_events = [] })
              (moved_amount pass.print_number t) (currency_of t) transaction_id context
              (pass.moving.stamps 1) t.amount_minor_units source.has_status source.has_currency
              printed g.positive funds)
            marks)

    -- When the source does not have the money.
    pub debit-failed :
        ltb_ℤ source.state.balance_minor_units t.amount_minor_units ≡ true
        → StageFailed
            (process_debit pass transfer_id context transaction_id bank)
            transfer_id
            (debit_input transaction_id t)
            bank
            (after_fail
              (debit_started pass transaction_id t)
              (text "Insufficient funds")
              debit
              (pass.failing.stamps 1))
    unfolding debit_transfer start_stage debit_source command_transfer command_account
        Command.run_command reservation
    debit-failed lack =
        let (n, parsed) = parse-positive t.amount_minor_units g.positive in
        rw (unfolds, waiting)
          (stage-failed pass quiet (start_debit_transfer transfer_id transaction_id context)
            (mark_transfer_debited transfer_id context) (debit_input transaction_id t) n parsed
            withdrawal (settle_failure pass.failing transfer_id debit context) bank t
            (debit_started pass transaction_id t) (debit_ended pass transaction_id t) h refl starts
            fresh source.state source.replayed (text "Insufficient funds")
            (fail_transfer transfer_id (text "Insufficient funds") debit context)
            (after_fail (debit_started pass transaction_id t) (text "Insufficient funds") debit
              (pass.failing.stamps 1))
            (withdraw_unfunded (record { state = source.state; uncommitted_events = [] })
              (moved_amount pass.print_number t) (currency_of t) transaction_id context
              (pass.moving.stamps 1) t.amount_minor_units source.has_status source.has_currency
              printed g.positive lack)
            (unfunded_handled pass.failing transfer_id context) refl
            (fail-Accepts transfer_id context pass.failing (debit_started pass transaction_id t)
              (text "Insufficient funds") debit refl unfunded_stated))

  -- When no other instance writes, a debit of a transfer that is initiated or in debit (its amount
  -- prints as a number that reads back), whose movement the registry has completed before, as
  -- after a crash, changes no account and leaves the transfer debited.
  pub debit-repeated :
      IsCompleted bank.transactions (debit_input transaction_id t)
      → StageIdle
          (process_debit pass transfer_id context transaction_id bank)
          transfer_id
          bank
          (debit_ended pass transaction_id t)
  unfolding debit_transfer start_stage debit_source command_transfer reservation
  debit-repeated known =
      let (n, parsed) = parse-positive t.amount_minor_units g.positive in
      rw (unfolds, waiting)
        (stage-repeated pass quiet (start_debit_transfer transfer_id transaction_id context)
          (mark_transfer_debited transfer_id context) (debit_input transaction_id t) n parsed
          withdrawal (settle_failure pass.failing transfer_id debit context) bank t
          (debit_started pass transaction_id t) (debit_ended pass transaction_id t) h refl starts
          marks known)
