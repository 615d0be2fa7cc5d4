-- ===== src/Transfer/Coordinator/Saga/Outcomes.antt =====
-- Where the passes over an initiated transfer lead, when no other instance writes.
use event_sourced_core_banki.Base.{
  ◌+◌, ◌≡◌, ◌≢◌, refl, sym, ap, ◌∙◌, some, none, true, Text, text, ℤ, ◌+ℤ◌, ◌-ℤ◌, ◌≤ℤ◌, eq_of_parts,
  int_laws, get,
}
use event_sourced_core_banki.Common.Result.{ok}
use event_sourced_core_banki.Common.Event.{credit}
use event_sourced_core_banki.Common.Aggregate.{replay}
use event_sourced_core_banki.Account.Aggregate.{
  AccountState, AccountStatus, active, frozen, new_state, when,
}
use event_sourced_core_banki.Account.Repository.Consistency.{account_events}
use event_sourced_core_banki.Transfer.Aggregate.{
  TransferState, initiated, debit_in_progress, completed, compensated, is_one_of,
}
use event_sourced_core_banki.Transfer.Coordinator.{
  Bank, Outcome, Pass, then_do, make_context, process_debit, process_transfer, moved_amount,
  reservation,
}
use event_sourced_core_banki.Transfer.Coordinator.Steps.{IsQuiet, Holds}
use event_sourced_core_banki.Transfer.Coordinator.Stage.{StageDone}
use event_sourced_core_banki.Transfer.Coordinator.Terms.{
  IsAccount, source_of, destination_of, currency_of, source-destination, one_of-IsAgreed,
}
use event_sourced_core_banki.Transfer.Coordinator.Debit.{debit_input, debit_ended, debit-done}
use event_sourced_core_banki.Transfer.Coordinator.Credit.{
  credit_started, credit_ended, credit-done, credit-failed,
}
use event_sourced_core_banki.Transfer.Coordinator.Compensation.{refund_ended, compensation-done}
use event_sourced_core_banki.Transfer.Coordinator.Accepting.{after_fail}
use event_sourced_core_banki.Transfer.Coordinator.Saga.{
  IsWaiting, Prints, debit_id, credit_id, compensation_id, debit-credit_ne, debit-compensation_ne,
  credit-compensation_ne, to_debit, to_credit, to_compensation,
}

-- The transfer is completed, and its amount has gone from the source to the destination.
pub record Completes (outcome : Outcome) (transfer_id : Text) (before : Bank) (t : TransferState)
    (s d : AccountState) : Type 0 where
  pub after : Bank
  pub answer : outcome ≡ (ok tt, after)
  pub state : TransferState
  pub holds : Holds after transfer_id state
  pub status : state.status ≡ some completed
  pub source : AccountState
  pub destination : AccountState
  pub replayed_source :
      replay when (account_events after.stores (source_of t)) new_state ≡ ok source
  pub replayed_destination :
      replay when (account_events after.stores (destination_of t)) new_state ≡ ok destination
  pub debited : source.balance_minor_units ≡ s.balance_minor_units -ℤ t.amount_minor_units
  pub credited : destination.balance_minor_units ≡ d.balance_minor_units +ℤ t.amount_minor_units
  pub conserved :
      source.balance_minor_units +ℤ destination.balance_minor_units
      ≡ s.balance_minor_units +ℤ d.balance_minor_units
  pub others :
      (id : Text)
      → source_of t ≢ id
      → destination_of t ≢ id
      → account_events after.stores id ≡ account_events before.stores id

-- The transfer is compensated: the source has its balance again, and no other account was changed.
pub record Refunds (outcome : Outcome) (transfer_id : Text) (before : Bank) (t : TransferState)
    (s : AccountState) : Type 0 where
  pub after : Bank
  pub answer : outcome ≡ (ok tt, after)
  pub state : TransferState
  pub holds : Holds after transfer_id state
  pub status : state.status ≡ some compensated
  pub source : AccountState
  pub replayed : replay when (account_events after.stores (source_of t)) new_state ≡ ok source
  pub refunded : source.balance_minor_units ≡ s.balance_minor_units
  pub others :
      (id : Text)
      → source_of t ≢ id
      → account_events after.stores id ≡ account_events before.stores id

sum_conserved : (b d z : ℤ) → (b -ℤ z) +ℤ (d +ℤ z) ≡ b +ℤ d
sum_conserved b d z = eq_of_parts ((b -ℤ z) +ℤ (d +ℤ z)) (b +ℤ d) (omega int_laws)

back_and_forth : (b z : ℤ) → (b -ℤ z) +ℤ z ≡ b
back_and_forth b z = eq_of_parts ((b -ℤ z) +ℤ z) b (omega int_laws)

waiting-first :
    (t : TransferState)
    → t.status ≡ some initiated
    → is_one_of t.status initiated debit_in_progress ≡ true
waiting-first t status = rw status refl

-- An account that a stage has left alone is as before.
abbrev kept :
    (before after : Bank) (account_id : Text) {status : AccountStatus} {currency : Text}
    → account_events after.stores account_id ≡ account_events before.stores account_id
    → IsAccount before.stores account_id status currency
    → IsAccount after.stores account_id status currency
kept before after account_id same account = record {
  state = account.state;
  replayed = ap (λ es. replay when es new_state) same ∙ account.replayed;
  has_status = account.has_status;
  has_currency = account.has_currency;
}

module _ (pass : Pass) (quiet : IsQuiet pass) (transfer_id : Text) (bank : Bank) (t : TransferState)
    (w : IsWaiting bank transfer_id t) (printed : Prints pass t)
    (source : IsAccount bank.stores (source_of t) active (currency_of t)) where
  waiting : is_one_of t.status initiated debit_in_progress ≡ true
  waiting = waiting-first t w.status

  apart : source_of t ≢ destination_of t
  apart = source-destination t (one_of-IsAgreed t initiated debit_in_progress w.holds.well waiting)

  module _ (funds : t.amount_minor_units ≤ℤ source.state.balance_minor_units) where
    abbrev first :
        StageDone
          (process_debit pass transfer_id
            (make_context pass.command_id transfer_id)
            (debit_id transfer_id)
            bank)
          transfer_id
          (source_of t)
          (debit_input (debit_id transfer_id) t)
          bank
          (debit_ended pass (debit_id transfer_id) t)
          (record source.state {
            balance_minor_units = source.state.balance_minor_units -ℤ t.amount_minor_units;
            version = source.state.version + 1;
          })
    first =
        debit-done pass quiet transfer_id (make_context pass.command_id transfer_id)
          (debit_id transfer_id) bank t w.holds printed waiting w.new_debit source funds

    pass_first : process_transfer pass transfer_id bank ≡ (ok tt, first.after)
    pass_first = to_debit pass transfer_id bank t w.holds w.own w.status w.no_debit first.answer

    abbrev t1 : TransferState
    t1 = debit_ended pass (debit_id transfer_id) t

    new_id :
        (id : Text)
        → debit_id transfer_id ≢ id
        → get bank.transactions id ≡ none
        → get first.after.transactions id ≡ none
    unfolding reservation
    new_id id ne fresh = first.records id ne ∙ fresh

    module _ (pass2 : Pass) (quiet2 : IsQuiet pass2) (printed2 : Prints pass2 t) where
      printed_later : Prints pass2 t1
      unfolding moved_amount
      printed_later = printed2

      -- When no other instance writes, two passes of the coordinator over a transfer that is
      -- initiated and that it has not seen, between active accounts in the transfer's currency of
      -- which the source has the amount, and whose amount prints as a number that reads back,
      -- complete the transfer: the amount has gone from the source to the destination, the sum of
      -- both balances is unchanged, and so is every other account.
      pub saga-Completes :
          (destination : IsAccount bank.stores (destination_of t) active (currency_of t))
          → Completes
              (then_do
                (process_transfer pass transfer_id bank)
                (λ b. process_transfer pass2 transfer_id b))
              transfer_id
              bank
              t
              source.state
              destination.state
      unfolding then_do
      saga-Completes destination =
          let here =
            kept bank first.after (destination_of t) (first.accounts (destination_of t) apart)
              destination in
          let second =
            credit-done pass2 quiet2 transfer_id (make_context pass2.command_id transfer_id)
              (credit_id transfer_id) first.after t1 first.holds printed_later refl
              (new_id (credit_id transfer_id) (debit-credit_ne transfer_id) w.new_credit) here in
          record {
            after = second.after;
            answer = rw pass_first (
                to_credit pass2 transfer_id first.after t1 first.holds w.own refl w.no_credit
                  second.answer);
            state = credit_ended pass2 (credit_id transfer_id) t1;
            holds = second.holds;
            status = refl;
            source = record source.state {
              balance_minor_units = source.state.balance_minor_units -ℤ t.amount_minor_units;
              version = source.state.version + 1;
            };
            destination = record destination.state {
              balance_minor_units = destination.state.balance_minor_units +ℤ t.amount_minor_units;
              version = destination.state.version + 1;
            };
            replayed_source =
                ap (λ es. replay when es new_state)
                  (second.accounts (source_of t) (λ e. apart (sym e)))
                ∙ first.moved;
            replayed_destination = second.moved;
            debited = refl;
            credited = refl;
            conserved =
                sum_conserved source.state.balance_minor_units destination.state.balance_minor_units
                  t.amount_minor_units;
            others = λ id source_ne destination_ne.
                second.accounts id destination_ne ∙ first.accounts id source_ne;
          }

      -- When no other instance writes, three passes over a transfer that is initiated and that the
      -- coordinator has not seen, from an active source that has the amount to a frozen account,
      -- both in the transfer's currency, with an amount that prints as a number that reads back,
      -- leave the transfer compensated: the source has its balance again, and no other account was
      -- changed.
      pub saga-Refunds :
          (pass3 : Pass)
          → IsQuiet pass3
          → Prints pass3 t
          → IsAccount bank.stores (destination_of t) frozen (currency_of t)
          → Refunds
              (then_do
                (then_do
                  (process_transfer pass transfer_id bank)
                  (λ b. process_transfer pass2 transfer_id b))
                (λ b. process_transfer pass3 transfer_id b))
              transfer_id
              bank
              t
              source.state
      unfolding then_do moved_amount reservation
      saga-Refunds pass3 quiet3 printed3 destination =
          let here =
            kept bank first.after (destination_of t) (first.accounts (destination_of t) apart)
              destination in
          let second =
            credit-failed pass2 quiet2 transfer_id (make_context pass2.command_id transfer_id)
              (credit_id transfer_id) first.after t1 first.holds printed_later refl
              (new_id (credit_id transfer_id) (debit-credit_ne transfer_id) w.new_credit) here in
          let t2 : TransferState =
            after_fail (credit_started pass2 (credit_id transfer_id) t1)
              (text "Account is not active") credit (pass2.failing.stamps 1) in
          let back : IsAccount second.after.stores (source_of t) active (currency_of t) = record {
            state = record source.state {
              balance_minor_units = source.state.balance_minor_units -ℤ t.amount_minor_units;
              version = source.state.version + 1;
            };
            replayed =
                ap (λ es. replay when es new_state) (second.accounts (source_of t)) ∙ first.moved;
            has_status = source.has_status;
            has_currency = source.has_currency;
          } in
          let third =
            compensation-done pass3 quiet3 transfer_id (make_context pass3.command_id transfer_id)
              (compensation_id transfer_id) second.after t2 second.holds printed3 refl refl
              (second.records (compensation_id transfer_id) (credit-compensation_ne transfer_id)
                ∙ new_id (compensation_id transfer_id) (debit-compensation_ne transfer_id)
                    w.new_compensation)
              back in
          record {
            after = third.after;
            answer =
                rw
                  (
                    pass_first,
                    to_credit pass2 transfer_id first.after t1 first.holds w.own refl w.no_credit
                        second.answer,
                  )
                  (to_compensation pass3 transfer_id second.after t2 second.holds w.own refl refl
                    w.no_compensation third.answer);
            state = refund_ended pass3 (compensation_id transfer_id) t2;
            holds = third.holds;
            status = refl;
            source = record source.state {
              balance_minor_units =
                  (source.state.balance_minor_units -ℤ t.amount_minor_units)
                  +ℤ t.amount_minor_units;
              version = source.state.version + 1 + 1;
            };
            replayed = third.moved;
            refunded = back_and_forth source.state.balance_minor_units t.amount_minor_units;
            others = λ id ne. third.accounts id ne ∙ second.accounts id ∙ first.accounts id ne;
          }
