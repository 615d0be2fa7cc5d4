-- ===== src/Account/Step.antt =====
-- An account as its commands see it: the abstract steps, the event that a step raises, and that no
-- step makes a balance negative.
use event_sourced_core_banki.Base.{
  ℕ, suc, ◌+◌, ◌≡◌, some, false, Text, pos, ◌+ℤ◌, ◌-ℤ◌, ◌≤ℤ◌, int_laws,
}
use event_sourced_core_banki.Common.Aggregate.{Aggregate}
use event_sourced_core_banki.Common.Aggregate.Raising.{Raising}
use event_sourced_core_banki.Common.Optional.{is_set}
use event_sourced_core_banki.Account.Aggregate.{AccountState, active, frozen, when}

-- What a command may do to the state of an account: an abstract account, with no event and no text.
pub data Step (s s' : AccountState) : Type 0 where
  opened :
      (account_id owner_id currency : Text)
      → is_set s.account_id ≡ false
      → s' ≡ record s {
        account_id = some account_id;
        owner_id = some owner_id;
        currency = some currency;
        status = active;
        version = s.version + 1;
      }
      → Step s s'
  -- by n + 1 minor units
  credited :
      (n : ℕ)
      → s.status ≡ active
      → s' ≡ record s {
        balance_minor_units = s.balance_minor_units +ℤ pos (suc n);
        version = s.version + 1;
      }
      → Step s s'
  debited :
      (n : ℕ)
      → s.status ≡ active
      → pos (suc n) ≤ℤ s.balance_minor_units
      → s' ≡ record s {
        balance_minor_units = s.balance_minor_units -ℤ pos (suc n);
        version = s.version + 1;
      }
      → Step s s'
  stopped :
      s.status ≡ active → s' ≡ record s { status = frozen; version = s.version + 1 } → Step s s'

-- A command of an account raises one event.
abbrev pub Raises : Aggregate AccountState → Aggregate AccountState → Type 0
Raises = Raising when (λ s. s.version)

abbrev pub IsSolvent : AccountState → Type 0
IsSolvent s = pos 0 ≤ℤ s.balance_minor_units

pub Step-IsSolvent : {s s' : AccountState} → Step s s' → IsSolvent s → IsSolvent s'
Step-IsSolvent {s} (opened _ _ _ _ e) h = rw e h
Step-IsSolvent {s} (credited n _ e) h = rw e (omega int_laws)
Step-IsSolvent {s} (debited n _ cover e) h = rw e (omega int_laws)
Step-IsSolvent {s} (stopped _ e) h = rw e h
