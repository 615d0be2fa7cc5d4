-- ===== src/Account/Refinement.antt =====
-- The command methods of modules/accounts/domain/account.aggregate.ts make the abstract steps.
use event_sourced_core_banki.Base.{
  ℕ, zero, suc, is_truthy, ◌+◌, ◌≡◌, refl, ◌∙◌, Option, some, false, arith, Text, ℤ, pos, negsuc,
  ◌+ℤ◌, ◌-ℤ◌, ◌≤ℤ◌, leb_ℤ, ltb_ℤ, not,
}
use event_sourced_core_banki.Common.Result.{ok, >>=-eq-ok, throw_if}
use event_sourced_core_banki.Common.Event.{
  CommandContext, EventBody, Stamp, account_created, money_deposited, money_withdrawn,
  account_frozen,
}
use event_sourced_core_banki.Common.Aggregate.Raising.{apply-Raising, apply-state, throw_if-ok}
use event_sourced_core_banki.Common.Aggregate.{Aggregate, apply}
use event_sourced_core_banki.Common.Money.{
  MoneyInput, parse_money_to_minor_units, format_minor_units_to_money,
}
use event_sourced_core_banki.Common.Money.RoundTrip.{parse-format}
use event_sourced_core_banki.Common.Optional.{is_set}
use event_sourced_core_banki.Account.Aggregate.{
  AccountState, AccountStatus, active, frozen, when, make_event, create, deposit, withdraw, freeze,
  ensure_active, ensure_currency, is_active,
}
use event_sourced_core_banki.Account.Command.{
  AccountCommand, create_account, deposit_money, withdraw_money, freeze_account, run_command,
}
use event_sourced_core_banki.Account.Step.{Step, opened, credited, debited, stopped, Raises}

apply-Raises :
    (a : Aggregate AccountState) {a' : Aggregate AccountState} (body : EventBody)
    (context : CommandContext) (stream_id : Text) (stamp : Stamp)
    → apply when (make_event a.state body context stream_id stamp) false a ≡ ok a'
    → Raises a a'
apply-Raises a body context stream_id stamp h =
    apply-Raising when (λ s. s.version) a (make_event a.state body context stream_id stamp)
      (unfold make_event in refl) h

-- The text of a positive amount in an event is read as the amount that was checked.
pub when-deposited :
    (s : AccountState) (account_id : Option Text) (z : ℤ) (currency transaction_id : Text)
    (context : CommandContext) (stream_id : Text) (stamp : Stamp)
    → when
        (make_event s
          (money_deposited account_id (format_minor_units_to_money z) currency transaction_id)
          context
          stream_id
          stamp)
        s
      ≡ ok (record s { balance_minor_units = s.balance_minor_units +ℤ z; version = s.version + 1 })
unfolding when make_event
when-deposited s account_id z currency transaction_id context stream_id stamp = rw (parse-format z)

pub when-withdrawn :
    (s : AccountState) (account_id : Option Text) (z : ℤ) (currency transaction_id : Text)
    (context : CommandContext) (stream_id : Text) (stamp : Stamp)
    → when
        (make_event s
          (money_withdrawn account_id (format_minor_units_to_money z) currency transaction_id)
          context
          stream_id
          stamp)
        s
      ≡ ok (record s { balance_minor_units = s.balance_minor_units -ℤ z; version = s.version + 1 })
unfolding when make_event
when-withdrawn s account_id z currency transaction_id context stream_id stamp = rw (parse-format z)

when-created :
    (s : AccountState) (account_id owner_id currency : Text) (context : CommandContext)
    (stream_id : Text) (stamp : Stamp)
    → when (make_event s (account_created account_id owner_id currency) context stream_id stamp) s
      ≡ ok (record s {
        account_id = some account_id;
        owner_id = some owner_id;
        currency = some currency;
        status = active;
        version = s.version + 1;
      })
unfolding when make_event
when-created s account_id owner_id currency context stream_id stamp = refl

when-frozen :
    (s : AccountState) (account_id : Option Text) (reason : Text) (context : CommandContext)
    (stream_id : Text) (stamp : Stamp)
    → when (make_event s (account_frozen account_id reason) context stream_id stamp) s
      ≡ ok (record s { status = frozen; version = s.version + 1 })
unfolding when make_event
when-frozen s account_id reason context stream_id stamp = refl

is_active-active : (t : AccountStatus) → not (is_active t) ≡ false → t ≡ active
is_active-active active h = refl
is_active-active frozen h = cc

positive : (z : ℤ) → leb_ℤ z (pos 0) ≡ false → (n : ℕ) × (z ≡ pos (suc n))
positive (pos zero) h = absurd (ground arith)
positive (pos (suc n)) h = (n, refl)
positive (negsuc n) h = absurd (ground arith)

covered :
    (balance z : ℤ) (n : ℕ) → z ≡ pos (suc n) → ltb_ℤ balance z ≡ false → pos (suc n) ≤ℤ balance
covered balance z n e h = ground arith

create-Step :
    (account_id owner_id currency : Text) (context : CommandContext) (stamp : Stamp)
    (a : Aggregate AccountState) {a' : Aggregate AccountState}
    → create account_id owner_id currency context stamp a ≡ ok a'
    → Step a.state a'.state × Raises a a'
unfolding create
create-Step account_id owner_id currency context stamp a h =
    let (_, fresh, h1) = >>=-eq-ok (throw_if (is_set a.state.account_id) _) _ h in
    (
      opened account_id owner_id currency (throw_if-ok _ _ fresh) (
          apply-state when a _ (when-created a.state account_id owner_id currency context _ stamp)
            h1),
      apply-Raises a _ context _ stamp h1,
    )

deposit-Step :
    (amount : MoneyInput) (currency transaction_id : Text) (context : CommandContext)
    (stamp : Stamp) (a : Aggregate AccountState) {a' : Aggregate AccountState}
    → deposit amount currency transaction_id context stamp a ≡ ok a'
    → Step a.state a'.state × Raises a a'
unfolding deposit ensure_active
deposit-Step amount currency transaction_id context stamp a h =
    let (_, up, h1) = >>=-eq-ok (throw_if (not (is_active a.state.status)) _) _ h in
    let (_, same, h2) = >>=-eq-ok (ensure_currency a.state currency) _ h1 in
    let (z, parsed, h3) = >>=-eq-ok (parse_money_to_minor_units amount) _ h2 in
    let (_, above, h4) = >>=-eq-ok (throw_if (leb_ℤ z (pos 0)) _) _ h3 in
    let (n, e) = positive z (throw_if-ok _ _ above) in
    (
      credited n (is_active-active _ (throw_if-ok _ _ up)) (
          apply-state when a _ (when-deposited a.state _ z currency transaction_id context _ stamp)
            h4
          ∙ rw e),
      apply-Raises a _ context _ stamp h4,
    )

withdraw-Step :
    (amount : MoneyInput) (currency transaction_id : Text) (context : CommandContext)
    (stamp : Stamp) (a : Aggregate AccountState) {a' : Aggregate AccountState}
    → withdraw amount currency transaction_id context stamp a ≡ ok a'
    → Step a.state a'.state × Raises a a'
unfolding withdraw ensure_active
withdraw-Step amount currency transaction_id context stamp a h =
    let (_, up, h1) = >>=-eq-ok (throw_if (not (is_active a.state.status)) _) _ h in
    let (_, same, h2) = >>=-eq-ok (ensure_currency a.state currency) _ h1 in
    let (z, parsed, h3) = >>=-eq-ok (parse_money_to_minor_units amount) _ h2 in
    let (_, above, h4) = >>=-eq-ok (throw_if (leb_ℤ z (pos 0)) _) _ h3 in
    let (_, cover, h5) = >>=-eq-ok (throw_if (ltb_ℤ a.state.balance_minor_units z) _) _ h4 in
    let (n, e) = positive z (throw_if-ok _ _ above) in
    (
      debited n (is_active-active _ (throw_if-ok _ _ up))
          (covered a.state.balance_minor_units z n e (throw_if-ok _ _ cover))
          (apply-state when a _ (when-withdrawn a.state _ z currency transaction_id context _ stamp)
              h5
            ∙ rw e),
      apply-Raises a _ context _ stamp h5,
    )

freeze-Step :
    (reason : Text) (context : CommandContext) (stamp : Stamp) (a : Aggregate AccountState)
    {a' : Aggregate AccountState}
    → freeze reason context stamp a ≡ ok a'
    → Step a.state a'.state × Raises a a'
unfolding freeze
freeze-Step reason context stamp a h =
    let (_, given, h1) = >>=-eq-ok (throw_if (not (is_truthy reason)) _) _ h in
    let (_, up, h2) = >>=-eq-ok (throw_if (not (is_active a.state.status)) _) _ h1 in
    (
      stopped (is_active-active _ (throw_if-ok _ _ up))
          (apply-state when a _ (when-frozen a.state _ reason context _ stamp) h2),
      apply-Raises a _ context _ stamp h2,
    )

-- Every account command that succeeds makes one step of the abstract account (open, credit a
-- positive amount, debit a covered positive amount, freeze) and raises exactly the event that made
-- it, with the next version.
pub run_command-Step :
    (command : AccountCommand) (stamp : Stamp) (a : Aggregate AccountState)
    {a' : Aggregate AccountState}
    → run_command command stamp a ≡ ok a'
    → Step a.state a'.state × Raises a a'
unfolding run_command
run_command-Step (create_account id owner currency context) stamp a h =
    create-Step id owner currency context stamp a h
run_command-Step (deposit_money _ amount currency context transaction_id) stamp a h =
    deposit-Step amount currency transaction_id context stamp a h
run_command-Step (withdraw_money _ amount currency context transaction_id) stamp a h =
    withdraw-Step amount currency transaction_id context stamp a h
run_command-Step (freeze_account _ reason context) stamp a h = freeze-Step reason context stamp a h
