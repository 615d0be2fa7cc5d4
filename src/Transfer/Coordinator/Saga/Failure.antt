-- ===== src/Transfer/Coordinator/Saga/Failure.antt =====
-- A source without the money, when no other instance writes.
use event_sourced_core_banki.Base.{◌≡◌, refl, some, true, Text, text, ltb_ℤ}
use event_sourced_core_banki.Common.Result.{ok}
use event_sourced_core_banki.Common.Event.{debit}
use event_sourced_core_banki.Account.Aggregate.{active}
use event_sourced_core_banki.Account.Repository.Consistency.{account_events}
use event_sourced_core_banki.Transfer.Aggregate.{
  TransferState, initiated, debit_in_progress, failed, is_one_of,
}
use event_sourced_core_banki.Transfer.Coordinator.{
  Bank, Outcome, Pass, make_context, dispatch, catching, process_transfer,
}
use event_sourced_core_banki.Transfer.Coordinator.Steps.{IsQuiet, Holds}
use event_sourced_core_banki.Transfer.Coordinator.Terms.{IsAccount, source_of, currency_of}
use event_sourced_core_banki.Transfer.Coordinator.Accepting.{after_fail}
use event_sourced_core_banki.Transfer.Coordinator.Debit.{debit_started, debit-failed}
use event_sourced_core_banki.Transfer.Coordinator.Saga.{
  IsWaiting, Prints, debit_id, to_debit, dispatched,
}

-- The transfer has failed in the debit, no account was changed, and the coordinator is done with it.
pub record Rejects (outcome : Outcome) (transfer_id : Text) (before : Bank) : Type 0 where
  pub after : Bank
  pub answer : outcome ≡ (ok tt, after)
  pub state : TransferState
  pub holds : Holds after transfer_id state
  pub status : state.status ≡ some failed
  pub stage : state.failure_stage ≡ some debit
  pub accounts : (id : Text) → account_events after.stores id ≡ account_events before.stores id
  pub settled : (pass : Pass) → process_transfer pass transfer_id after ≡ (ok tt, after)

-- When no other instance writes, a pass over a transfer that is initiated and that the coordinator
-- has not seen, whose active source, in its currency, has less than the amount, and whose amount
-- prints as a number that reads back, fails the transfer in the debit stage and changes no
-- account; a further pass then changes nothing at all.
pub saga-Rejects :
    (pass : Pass)
    → IsQuiet pass
    → (transfer_id : Text) (bank : Bank) (t : TransferState) → IsWaiting bank transfer_id t
    → Prints pass t
    → (source : IsAccount bank.stores (source_of t) active (currency_of t))
    → ltb_ℤ source.state.balance_minor_units t.amount_minor_units ≡ true
    → Rejects (process_transfer pass transfer_id bank) transfer_id bank
unfolding dispatch catching
saga-Rejects pass quiet transfer_id bank t w printed source lack =
    let waiting : is_one_of t.status initiated debit_in_progress ≡ true = rw (w.status) refl in
    let first =
      debit-failed pass quiet transfer_id (make_context pass.command_id transfer_id)
        (debit_id transfer_id) bank t w.holds printed waiting w.new_debit source lack in
    record {
      after = first.after;
      answer = to_debit pass transfer_id bank t w.holds w.own w.status w.no_debit first.answer;
      state =
          after_fail (debit_started pass (debit_id transfer_id) t) (text "Insufficient funds") debit
            (pass.failing.stamps 1);
      holds = first.holds;
      status = refl;
      stage = refl;
      accounts = first.accounts;
      settled = λ later. dispatched later transfer_id first.after _ first.holds w.own;
    }
