-- ===== src/Transfer/Coordinator/Compensation.antt =====
-- `processCompensation` when no other instance writes: an active source gets the amount back once,
-- and a compensation that was recorded before is only marked.
use event_sourced_core_banki.Base.{◌+◌, ◌≡◌, refl, none, true, [], Text, ◌+ℤ◌, get}
use event_sourced_core_banki.Common.Result.{ok, err, retryable}
use event_sourced_core_banki.Common.Event.{CommandContext}
use event_sourced_core_banki.Common.Message.{message}
use event_sourced_core_banki.Common.Money.{parse_money_to_minor_units}
use event_sourced_core_banki.Infrastructure.Transactions.{ReserveTransactionInput, deposit}
use event_sourced_core_banki.Account.Aggregate.{active}
use event_sourced_core_banki.Account.Amounts.{deposit_accepted}
use event_sourced_core_banki.Account.Command
use event_sourced_core_banki.Account.Command.{AccountCommand, deposit_money, command_account}
use event_sourced_core_banki.Transfer.Aggregate.{
  TransferState, failed, compensation_in_progress, is_one_of, failed_in_credit,
}
use event_sourced_core_banki.Transfer.Command.{
  start_transfer_compensation, complete_transfer_compensation, command_transfer,
}
use event_sourced_core_banki.Transfer.Lifecycle.{IsAgreed}
use event_sourced_core_banki.Transfer.Coordinator.{
  Bank, Pass, reservation, moved_amount, start_stage, refund_source, compensate_transfer,
  process_compensation,
}
use event_sourced_core_banki.Transfer.Coordinator.Steps.{IsQuiet, Holds}
use event_sourced_core_banki.Transfer.Coordinator.Movements.{IsCompleted}
use event_sourced_core_banki.Transfer.Coordinator.Stage.{
  Accepts, StageDone, StageIdle, stage-done, stage-repeated,
}
use event_sourced_core_banki.Transfer.Coordinator.Accepting.{
  after_start_compensation, after_compensated, start_compensation-Accepts, mark_compensated-Accepts,
  parse-positive,
}
use event_sourced_core_banki.Transfer.Coordinator.Terms.{
  IsAccount, source_of, currency_of, one_of-IsAgreed, with_transfer-loaded,
}

-- The input of the registry, and the transfer in the stage and behind it.
abbrev pub refund_input : Text → TransferState → ReserveTransactionInput
refund_input transaction_id t = reservation transaction_id t.source_account_id deposit t

abbrev pub refund_started : Pass → Text → TransferState → TransferState
refund_started pass transaction_id t =
    after_start_compensation t transaction_id (pass.starting.stamps 1)

abbrev pub refund_ended : Pass → Text → TransferState → TransferState
refund_ended pass transaction_id t =
    after_compensated (refund_started pass transaction_id t) (pass.ending.stamps 1)

module _ (pass : Pass) (quiet : IsQuiet pass) (transfer_id : Text) (context : CommandContext)
    (transaction_id : Text) (bank : Bank) (t : TransferState) (h : Holds bank transfer_id t)
    (printed : parse_money_to_minor_units (moved_amount pass.print_number t)
      ≡ ok t.amount_minor_units)
    (waiting : is_one_of t.status failed compensation_in_progress ≡ true)
    (staged : failed_in_credit t.failure_stage ≡ true) where
  unfolds :
      process_compensation pass transfer_id context transaction_id bank
      ≡ compensate_transfer pass transfer_id context transaction_id t bank
  unfolding process_compensation
  unfolds = with_transfer-loaded bank transfer_id t h _

  g : IsAgreed t
  g = one_of-IsAgreed t failed compensation_in_progress h.well waiting

  starts :
      Accepts
        (start_transfer_compensation transfer_id transaction_id context)
        pass.starting
        t
        (refund_started pass transaction_id t)
  starts =
      start_compensation-Accepts transfer_id context pass.starting t transaction_id waiting staged

  ends :
      Accepts
        (complete_transfer_compensation transfer_id context)
        pass.ending
        (refund_started pass transaction_id t)
        (refund_ended pass transaction_id t)
  ends =
      mark_compensated-Accepts transfer_id context pass.ending
        (refund_started pass transaction_id t) refl

  abbrev refund : AccountCommand
  refund =
      deposit_money (source_of t) (moved_amount pass.print_number t) (currency_of t) context
        transaction_id

  module _ (fresh : get bank.transactions transaction_id ≡ none) where
    pub compensation-done :
        (source : IsAccount bank.stores (source_of t) active (currency_of t))
        → StageDone
            (process_compensation pass transfer_id context transaction_id bank)
            transfer_id
            (source_of t)
            (refund_input transaction_id t)
            bank
            (refund_ended pass transaction_id t)
            (record source.state {
              balance_minor_units = source.state.balance_minor_units +ℤ t.amount_minor_units;
              version = source.state.version + 1;
            })
    unfolding compensate_transfer start_stage refund_source command_transfer command_account
        Command.run_command reservation
    compensation-done source =
        let (n, parsed) = parse-positive t.amount_minor_units g.positive in
        rw (unfolds, waiting)
          (stage-done pass quiet (start_transfer_compensation transfer_id transaction_id context)
            (complete_transfer_compensation transfer_id context) (refund_input transaction_id t) n
            parsed refund (λ e after. (err (retryable (message e)), after)) bank t
            (refund_started pass transaction_id t) (refund_ended pass transaction_id t) h refl
            starts fresh source.state source.replayed _
            (deposit_accepted (record { state = source.state; uncommitted_events = [] })
              (moved_amount pass.print_number t) (currency_of t) transaction_id context
              (pass.moving.stamps 1) t.amount_minor_units source.has_status source.has_currency
              printed g.positive)
            ends)

  -- When the registry has completed the debit before.
  pub compensation-repeated :
      IsCompleted bank.transactions (refund_input transaction_id t)
      → StageIdle
          (process_compensation pass transfer_id context transaction_id bank)
          transfer_id
          bank
          (refund_ended pass transaction_id t)
  unfolding compensate_transfer start_stage refund_source command_transfer reservation
  compensation-repeated known =
      let (n, parsed) = parse-positive t.amount_minor_units g.positive in
      rw (unfolds, waiting)
        (stage-repeated pass quiet (start_transfer_compensation transfer_id transaction_id context)
          (complete_transfer_compensation transfer_id context) (refund_input transaction_id t) n
          parsed refund (λ e after. (err (retryable (message e)), after)) bank t
          (refund_started pass transaction_id t) (refund_ended pass transaction_id t) h refl starts
          ends known)
