-- ===== src/Account/Amounts.antt =====
-- Exactly what `deposit` and `withdraw` do on an active account in its own currency.
use event_sourced_core_banki.Base.{
  arith, ◌+◌, ◌≡◌, refl, ◌∙◌, ap, some, Bool, true, false, [], ◌∷◌, ◌++◌, Text, eq_refl, text, ℤ,
  pos, ◌+ℤ◌, ◌-ℤ◌, ◌≤ℤ◌, leb_ℤ, ltb_ℤ, if◌then◌else◌,
}
use event_sourced_core_banki.Common.Result.{Result, Error, ok, err, bad_request, ◌>>=◌, throw_if}
use event_sourced_core_banki.Common.Event.{
  CommandContext, DomainEvent, Stamp, money_deposited, money_withdrawn,
}
use event_sourced_core_banki.Common.Aggregate.{Aggregate, apply}
use event_sourced_core_banki.Common.Money.{
  MoneyInput, parse_money_to_minor_units, format_minor_units_to_money,
}
use event_sourced_core_banki.Common.Optional.{show_option}
use event_sourced_core_banki.Account.Aggregate.{
  AccountState, active, frozen, when, make_event, account_stream, deposit, withdraw, ensure_active,
  ensure_currency,
}
use event_sourced_core_banki.Account.Refinement.{when-deposited, when-withdrawn}

ensure_active-ok : (s : AccountState) → s.status ≡ active → ensure_active s ≡ ok tt
unfolding ensure_active
ensure_active-ok s up = rw up

ensure_currency-ok :
    (s : AccountState) (currency : Text)
    → s.currency ≡ some currency
    → ensure_currency s currency ≡ ok tt
unfolding ensure_currency
ensure_currency-ok s currency same = rw (same, eq_refl currency)

not_leb : (z : ℤ) → pos 1 ≤ℤ z → leb_ℤ z (pos 0) ≡ false
not_leb z h = ground arith

not_ltb : (b z : ℤ) → z ≤ℤ b → ltb_ℤ b z ≡ false
not_ltb b z h = ground arith

throw_if-if :
    {A : Type 0} (b : Bool) (e : Error) (r : Result A)
    → (throw_if b e >>= λ _. r) ≡ (if b then err e else r)
throw_if-if true e r = refl
throw_if-if false e r = refl

apply-when :
    (a : Aggregate AccountState) (event : DomainEvent) {s : AccountState}
    → when event a.state ≡ ok s
    → apply when event false a
      ≡ ok (record { state = s; uncommitted_events = a.uncommitted_events ++ event ∷ [] })
unfolding apply
apply-when a event w = rw w

module _ (a : Aggregate AccountState) (amount : MoneyInput) (currency transaction_id : Text)
    (context : CommandContext) (stamp : Stamp) (z : ℤ) (up : a.state.status ≡ active)
    (same : a.state.currency ≡ some currency)
    (parsed : parse_money_to_minor_units amount ≡ ok z) where
  abbrev pub deposited : DomainEvent
  deposited =
      make_event a.state
        (money_deposited a.state.account_id (format_minor_units_to_money z) currency transaction_id)
        context (account_stream (show_option a.state.account_id)) stamp

  abbrev pub withdrawn : DomainEvent
  withdrawn =
      make_event a.state
        (money_withdrawn a.state.account_id (format_minor_units_to_money z) currency transaction_id)
        context (account_stream (show_option a.state.account_id)) stamp

  -- On an active account in its own currency, depositing a parsed amount is refused when the
  -- amount is not positive, and otherwise adds exactly the amount to the balance, moves to the
  -- next version and leaves one event.
  pub deposit_outcome : deposit amount currency transaction_id context stamp a ≡ (
      if leb_ℤ z (pos 0)
      then err (bad_request (text "Deposit amount must be positive"))
      else ok (record {
        state = record a.state {
          balance_minor_units = a.state.balance_minor_units +ℤ z;
          version = a.state.version + 1;
        };
        uncommitted_events = a.uncommitted_events ++ deposited ∷ [];
      }))
  unfolding deposit
  deposit_outcome =
      rw (ensure_active-ok a.state up, ensure_currency-ok a.state currency same, parsed)
        (rw
          (apply-when a deposited (
            when-deposited a.state a.state.account_id z currency transaction_id context
              (account_stream (show_option a.state.account_id)) stamp))
          (throw_if-if (leb_ℤ z (pos 0)) _ _))

  -- On an active account in its own currency, withdrawing a parsed amount is refused when the
  -- amount is not positive or exceeds the balance, and otherwise takes exactly the amount from the
  -- balance, moves to the next version and leaves one event.
  pub withdraw_outcome : withdraw amount currency transaction_id context stamp a ≡ (
      if leb_ℤ z (pos 0)
      then err (bad_request (text "Withdraw amount must be positive"))
      else if ltb_ℤ a.state.balance_minor_units z
      then err (bad_request (text "Insufficient funds"))
      else ok (record {
        state = record a.state {
          balance_minor_units = a.state.balance_minor_units -ℤ z;
          version = a.state.version + 1;
        };
        uncommitted_events = a.uncommitted_events ++ withdrawn ∷ [];
      }))
  unfolding withdraw
  withdraw_outcome =
      rw (ensure_active-ok a.state up, ensure_currency-ok a.state currency same, parsed)
        (rw
          (apply-when a withdrawn (
            when-withdrawn a.state a.state.account_id z currency transaction_id context
              (account_stream (show_option a.state.account_id)) stamp))
          (throw_if-if (leb_ℤ z (pos 0)) _ _
            ∙ ap
                (λ t.
                  if leb_ℤ z (pos 0)
                  then err (bad_request (text "Withdraw amount must be positive"))
                  else t)
                (throw_if-if (ltb_ℤ a.state.balance_minor_units z) _ _)))

  -- A positive amount is deposited.
  pub deposit_accepted :
      pos 1 ≤ℤ z
      → deposit amount currency transaction_id context stamp a
        ≡ ok (record {
          state = record a.state {
            balance_minor_units = a.state.balance_minor_units +ℤ z;
            version = a.state.version + 1;
          };
          uncommitted_events = a.uncommitted_events ++ deposited ∷ [];
        })
  deposit_accepted some_money = deposit_outcome ∙ rw (not_leb z some_money) refl

  -- A positive amount that the account has is withdrawn.
  pub withdraw_accepted :
      pos 1 ≤ℤ z
      → z ≤ℤ a.state.balance_minor_units
      → withdraw amount currency transaction_id context stamp a
        ≡ ok (record {
          state = record a.state {
            balance_minor_units = a.state.balance_minor_units -ℤ z;
            version = a.state.version + 1;
          };
          uncommitted_events = a.uncommitted_events ++ withdrawn ∷ [];
        })
  withdraw_accepted some_money funds =
      withdraw_outcome ∙ rw (not_leb z some_money, not_ltb a.state.balance_minor_units z funds) refl

  -- A positive amount that the account does not have is refused.
  pub withdraw_unfunded :
      pos 1 ≤ℤ z
      → ltb_ℤ a.state.balance_minor_units z ≡ true
      → withdraw amount currency transaction_id context stamp a
        ≡ err (bad_request (text "Insufficient funds"))
  withdraw_unfunded some_money lack = withdraw_outcome ∙ rw (not_leb z some_money, lack) refl

-- An account that is frozen takes no deposit.
pub deposit_frozen :
    (a : Aggregate AccountState) (amount : MoneyInput) (currency transaction_id : Text)
    (context : CommandContext) (stamp : Stamp)
    → a.state.status ≡ frozen
    → deposit amount currency transaction_id context stamp a
      ≡ err (bad_request (text "Account is not active"))
unfolding deposit ensure_active
deposit_frozen a amount currency transaction_id context stamp down = rw down refl
