-- ===== src/Transfer/Coordinator/Saga.antt =====
-- Passes of `processTransfer` over one transfer when no other instance writes: from its initiation
-- to its completion, to its failure, or to the refund of its source.
pub mod Outcomes
pub mod Failure
pub mod Accounts
mod Tests
use event_sourced_core_banki.Base.{
  ◌+◌, ◌≡◌, ◌≢◌, refl, sym, ap, subst, ◌∙◌, some, none, true, false, [], ◌∷◌, ◌++◌, length,
  length-append, arith, Text, text, ℤ, ◌+ℤ◌, ◌-ℤ◌, ◌≤ℤ◌, ltb_ℤ, get, int_laws,
}
use event_sourced_core_banki.Common.Result.{Error, ok, err}
use event_sourced_core_banki.Common.Event.{CommandContext, debit, credit}
use event_sourced_core_banki.Common.Aggregate.{replay}
use event_sourced_core_banki.Common.Money.{parse_money_to_minor_units}
use event_sourced_core_banki.Account.Aggregate.{
  AccountState, AccountStatus, active, frozen, new_state, when,
}
use event_sourced_core_banki.Account.Repository.Consistency.{account_events}
use event_sourced_core_banki.Transfer.Aggregate.{
  TransferState, initiated, debited, completed, failed, compensated,
}
use event_sourced_core_banki.Transfer.Lifecycle.{IsAgreed}
use event_sourced_core_banki.Transfer.Coordinator.{
  Bank, Outcome, Pass, catching, make_context, moved_amount, or_default, dispatch, process_debit,
  process_credit, process_compensation, process_transfer,
}
use event_sourced_core_banki.Transfer.Coordinator.Steps.{IsQuiet, Holds}
use event_sourced_core_banki.Transfer.Coordinator.Stage.{StageDone, StageIdle, StageFailed}
use event_sourced_core_banki.Transfer.Coordinator.Terms.{
  IsAccount, source_of, destination_of, currency_of, source-destination, one_of-IsAgreed,
  with_transfer-loaded,
}
use event_sourced_core_banki.Transfer.Coordinator.Debit.{debit-done, debit-failed}
use event_sourced_core_banki.Transfer.Coordinator.Credit.{credit-done, credit-failed}
use event_sourced_core_banki.Transfer.Coordinator.Compensation.{compensation-done}

-- The default transaction ids.
abbrev pub debit_id : Text → Text
debit_id transfer_id = transfer_id ++ text ":debit"

abbrev pub credit_id : Text → Text
credit_id transfer_id = transfer_id ++ text ":credit"

abbrev pub compensation_id : Text → Text
compensation_id transfer_id = transfer_id ++ text ":compensation"

debit-credit_ne : (id : Text) → debit_id id ≢ credit_id id
unfolding text
debit-credit_ne id e =
    omega (arith, ap length e, length-append id (text ":debit"), length-append id (text ":credit"))

debit-compensation_ne : (id : Text) → debit_id id ≢ compensation_id id
unfolding text
debit-compensation_ne id e =
    omega (
      arith,
      ap length e,
      length-append id (text ":debit"),
      length-append id (text ":compensation"),
    )

credit-compensation_ne : (id : Text) → credit_id id ≢ compensation_id id
unfolding text
credit-compensation_ne id e =
    omega (
      arith,
      ap length e,
      length-append id (text ":credit"),
      length-append id (text ":compensation"),
    )

-- A transfer that was initiated and that the coordinator has not seen.
pub record IsWaiting (bank : Bank) (transfer_id : Text) (t : TransferState) : Type 0 where
  pub holds : Holds bank transfer_id t
  pub own : t.transfer_id ≡ some transfer_id
  pub status : t.status ≡ some initiated
  pub no_debit : t.source_debit_transaction_id ≡ none
  pub no_credit : t.destination_credit_transaction_id ≡ none
  pub no_compensation : t.compensation_transaction_id ≡ none
  pub new_debit : get bank.transactions (debit_id transfer_id) ≡ none
  pub new_credit : get bank.transactions (credit_id transfer_id) ≡ none
  pub new_compensation : get bank.transactions (compensation_id transfer_id) ≡ none

-- Printing the amount as a number and reading it back gives the amount.
abbrev pub Prints : Pass → TransferState → Type 0
Prints pass t =
    parse_money_to_minor_units (moved_amount pass.print_number t) ≡ ok t.amount_minor_units

-- The logged error of a pass.
abbrev logged : Error → Bank → Outcome
logged e after = (ok tt, after)

module _ (pass : Pass) (transfer_id : Text) (bank : Bank) (t : TransferState)
    (h : Holds bank transfer_id t) (own : t.transfer_id ≡ some transfer_id) where
  abbrev context : CommandContext
  context = make_context pass.command_id transfer_id

  dispatched :
      process_transfer pass transfer_id bank ≡ catching (dispatch pass context t bank) logged
  unfolding process_transfer
  dispatched = with_transfer-loaded bank transfer_id t h _

  to_debit :
      {after : Bank}
      → t.status ≡ some initiated
      → t.source_debit_transaction_id ≡ none
      → process_debit pass transfer_id context (debit_id transfer_id) bank ≡ (ok tt, after)
      → process_transfer pass transfer_id bank ≡ (ok tt, after)
  unfolding dispatch or_default catching
  to_debit status unused e = dispatched ∙ rw (status, unused, own, e) refl

  to_credit :
      {after : Bank}
      → t.status ≡ some debited
      → t.destination_credit_transaction_id ≡ none
      → process_credit pass transfer_id context (credit_id transfer_id) bank ≡ (ok tt, after)
      → process_transfer pass transfer_id bank ≡ (ok tt, after)
  unfolding dispatch or_default catching
  to_credit status unused e = dispatched ∙ rw (status, unused, own, e) refl

  to_compensation :
      {after : Bank}
      → t.status ≡ some failed
      → t.failure_stage ≡ some credit
      → t.compensation_transaction_id ≡ none
      → process_compensation pass transfer_id context (compensation_id transfer_id) bank
        ≡ (ok tt, after)
      → process_transfer pass transfer_id bank ≡ (ok tt, after)
  unfolding dispatch or_default catching
  to_compensation status stage unused e = dispatched ∙ rw (status, stage, unused, own, e) refl
