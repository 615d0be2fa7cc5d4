-- ===== src/Account/Projector/Mirror.antt =====
-- The projector keeps the summary of an account equal to the replay of its stream.
use event_sourced_core_banki.Base.{
  ◌+◌, ◌<◌, ◌≡◌, refl, subst, some, true, false, arith, leb, Text, ℤ, ◌+ℤ◌, ◌-ℤ◌, get-put_self,
}
use event_sourced_core_banki.Common.Result.{ok, >>=-eq-ok, ok-injective}
use event_sourced_core_banki.Common.Event.{
  DomainEvent, EventBody, account_created, money_deposited, money_withdrawn, account_frozen,
  transfer_initiated, transfer_debit_started, transfer_debited, transfer_credit_started,
  transfer_completed, transfer_failed, transfer_compensation_started, transfer_compensated, other,
}
use event_sourced_core_banki.Common.Money.{
  MoneyInput, parse_money_to_minor_units, minor_units_to_number, to_string, read_int,
}
use event_sourced_core_banki.Common.Money.Digits.{read_int-to_string}
use event_sourced_core_banki.Account.Aggregate.{AccountState, frozen, when}
use event_sourced_core_banki.Account.ReadModel.{
  AccountSummary, AccountReadModels, StatementEntry, get_account_summary, upsert_account_summary,
  append_account_statement,
}
use event_sourced_core_banki.Account.Projector.{
  plain_entry, money_entry, get_transfer_statement_details, get_required_summary,
  ensure_sequential_version, project_money, project_account_frozen, project,
}
use event_sourced_core_banki.Transfer.ReadModel.{TransferSummaries}

-- A summary states what the account's state states.
pub record Mirrors (account_id : Text) (summary : AccountSummary) (s : AccountState) : Type 0 where
  pub id : summary.account_id ≡ account_id
  pub owner : s.owner_id ≡ some summary.owner_id
  pub currency : s.currency ≡ some summary.currency
  pub status : summary.status ≡ s.status
  pub balance : summary.balance_minor_units ≡ to_string s.balance_minor_units
  pub version : summary.version ≡ s.version

-- The read models have a summary that mirrors the state.
pub record Shows (m : AccountReadModels) (account_id : Text) (s : AccountState) : Type 0 where
  pub summary : AccountSummary
  pub stored : get_account_summary m account_id ≡ some summary
  pub mirrors : Mirrors account_id summary s

pub summaries-append_account_statement :
    (m : AccountReadModels) (entry : StatementEntry)
    → (append_account_statement m entry).summaries ≡ m.summaries
unfolding append_account_statement
summaries-append_account_statement m entry = ground arith

-- A newer summary replaces the old one.
upsert-newer :
    (m : AccountReadModels) (account_id : Text) (old new : AccountSummary) (entry : StatementEntry)
    → new.account_id ≡ account_id
    → get_account_summary m account_id ≡ some old
    → old.version < new.version
    → get_account_summary (append_account_statement (upsert_account_summary m new) entry) account_id
      ≡ some new
unfolding upsert_account_summary get_account_summary
upsert-newer m account_id old new entry e known newer =
    rw (summaries-append_account_statement (upsert_account_summary m new) entry)
      (ground (arith, get-put_self m.summaries account_id new))

-- The event is a movement or the freezing of this account.
unfoldable pub IsOf : Text → EventBody → Type 0
IsOf account_id (money_deposited account _ _ _) = account ≡ some account_id
IsOf account_id (money_withdrawn account _ _ _) = account ≡ some account_id
IsOf account_id (account_frozen account _) = account ≡ some account_id
IsOf account_id _ = ⊥

module _ (transfers : TransferSummaries) (account_id : Text) (m : AccountReadModels)
    (s : AccountState) (shown : Shows m account_id s) where
  abbrev old : AccountSummary
  old = shown.summary

  required : get_required_summary m (some account_id) ≡ ok old
  unfolding get_required_summary
  required = let e = shown.stored in ground arith

  next_ok :
      (event : DomainEvent)
      → event.stream_version ≡ s.version + 1
      → ensure_sequential_version account_id old.version event.stream_version ≡ ok tt
  unfolding ensure_sequential_version
  next_ok event next = let e = shown.mirrors.version in ground arith

  not_seen :
      (event : DomainEvent)
      → event.stream_version ≡ s.version + 1
      → leb event.stream_version old.version ≡ false
  not_seen event next = let e = shown.mirrors.version in ground arith

  abbrev moved : (ℤ → ℤ → ℤ) → DomainEvent → ℤ → AccountSummary
  moved change event z = record old {
    balance_minor_units = to_string (change (read_int old.balance_minor_units) z);
    balance = minor_units_to_number (change (read_int old.balance_minor_units) z);
    version = event.stream_version;
    updated_at = event.occurred_at;
  }

  newer :
      (event : DomainEvent)
      → event.stream_version ≡ s.version + 1
      → old.version < event.stream_version
  newer event next = let e = shown.mirrors.version in omega arith

  -- What follows when a newer summary is stored, whatever the entry.
  shows-new :
      (new : AccountSummary) (entry : StatementEntry) (s' : AccountState)
      → old.version < new.version
      → Mirrors account_id new s'
      → Shows (append_account_statement (upsert_account_summary m new) entry) account_id s'
  shows-new new entry s' after mirrors = record {
    summary = new;
    stored = upsert-newer m account_id old new entry mirrors.id shown.stored after;
    mirrors = mirrors;
  }

  project_money-next :
      (change : ℤ → ℤ → ℤ) (event : DomainEvent) (amount currency transaction_id : Text) (z : ℤ)
      → event.stream_version ≡ s.version + 1
      → parse_money_to_minor_units (MoneyInput.string amount) ≡ ok z
      → (m' : AccountReadModels) × (project_money change transfers event
            (some account_id)
            amount
            currency
            transaction_id
            m
          ≡ ok m')
        × Shows m' account_id (record s {
          balance_minor_units = change s.balance_minor_units z;
          version = event.stream_version;
        })
  unfolding project_money
  project_money-next change event amount currency transaction_id z next parsed =
      let entry =
        money_entry event account_id z currency transaction_id
          (get_transfer_statement_details transfers event account_id) in
      (
        append_account_statement (upsert_account_summary m (moved change event z)) entry,
        rw (required, not_seen event next, next_ok event next, parsed) refl,
        shows-new (moved change event z) entry _ (newer event next) (record {
          id = shown.mirrors.id;
          owner = shown.mirrors.owner;
          currency = shown.mirrors.currency;
          status = shown.mirrors.status;
          balance = rw (shown.mirrors.balance, read_int-to_string s.balance_minor_units) refl;
          version = refl;
        }),
      )

  project_account_frozen-next :
      (event : DomainEvent) (reason : Text)
      → event.stream_version ≡ s.version + 1
      → (m' : AccountReadModels) × (project_account_frozen event (some account_id) reason m ≡ ok m')
        × Shows m' account_id (record s { status = frozen; version = event.stream_version })
  unfolding project_account_frozen
  project_account_frozen-next event reason next =
      let new : AccountSummary = record old {
        status = frozen;
        version = event.stream_version;
        updated_at = event.occurred_at;
      } in
      let entry = plain_entry event account_id (some reason) in
      (
        append_account_statement (upsert_account_summary m new) entry,
        rw (required, not_seen event next, next_ok event next) refl,
        shows-new new entry _ (newer event next) (record {
          id = shown.mirrors.id;
          owner = shown.mirrors.owner;
          currency = shown.mirrors.currency;
          status = refl;
          balance = shown.mirrors.balance;
          version = refl;
        }),
      )

project-body :
    (transfers : TransferSummaries) (account_id : Text) (m : AccountReadModels)
    (s s' : AccountState) (event : DomainEvent) (body : EventBody)
    → Shows m account_id s
    → IsOf account_id body
    → event.stream_version ≡ s.version + 1
    → when (record event { body = body }) s ≡ ok s'
    → (m' : AccountReadModels) × (project transfers (record event { body = body }) m
        ≡ ok (true, m'))
      × Shows m' account_id s'
unfolding project when IsOf
project-body transfers account_id m s s' event (money_deposited account amount currency t) shown of
      next applied =
    let (z, parsed, done) =
      >>=-eq-ok (parse_money_to_minor_units (MoneyInput.string amount)) _ applied in
    let (m', ran, sh) =
      project_money-next transfers account_id m s shown ◌+ℤ◌
        (record event { body = money_deposited (some account_id) amount currency t }) amount
        currency t z next parsed in
    (m', rw (of, ran) refl, subst (λ s''. Shows m' account_id s'') (ok-injective done) sh)
project-body transfers account_id m s s' event (money_withdrawn account amount currency t) shown of
      next applied =
    let (z, parsed, done) =
      >>=-eq-ok (parse_money_to_minor_units (MoneyInput.string amount)) _ applied in
    let (m', ran, sh) =
      project_money-next transfers account_id m s shown ◌-ℤ◌
        (record event { body = money_withdrawn (some account_id) amount currency t }) amount
        currency t z next parsed in
    (m', rw (of, ran) refl, subst (λ s''. Shows m' account_id s'') (ok-injective done) sh)
project-body transfers account_id m s s' event (account_frozen account reason) shown of next
      applied =
    let (m', ran, sh) =
      project_account_frozen-next transfers account_id m s shown
        (record event { body = account_frozen (some account_id) reason }) reason next in
    (m', rw (of, ran) refl, subst (λ s''. Shows m' account_id s'') (ok-injective applied) sh)
project-body transfers account_id m s s' event (account_created _ _ _) shown of next applied =
    absurd of
project-body transfers account_id m s s' event (transfer_initiated _ _ _ _ _) shown of next
      applied =
    absurd of
project-body transfers account_id m s s' event (transfer_debit_started _ _ _) shown of next
      applied =
    absurd of
project-body transfers account_id m s s' event (transfer_debited _ _) shown of next applied =
    absurd of
project-body transfers account_id m s s' event (transfer_credit_started _ _ _) shown of next
      applied =
    absurd of
project-body transfers account_id m s s' event (transfer_completed _) shown of next applied =
    absurd of
project-body transfers account_id m s s' event (transfer_failed _ _ _) shown of next applied =
    absurd of
project-body transfers account_id m s s' event (transfer_compensation_started _ _ _) shown of next
      applied =
    absurd of
project-body transfers account_id m s s' event (transfer_compensated _ _) shown of next applied =
    absurd of
project-body transfers account_id m s s' event (other _) shown of next applied = absurd of

-- A movement or freezing that comes next in its account's stream, and that the account itself can
-- apply, is projected: the summary shows the state after the event.
pub project-next :
    (transfers : TransferSummaries) (account_id : Text) (m : AccountReadModels)
    (s s' : AccountState) (event : DomainEvent)
    → Shows m account_id s
    → IsOf account_id event.body
    → event.stream_version ≡ s.version + 1
    → when event s ≡ ok s'
    → (m' : AccountReadModels) × (project transfers event m ≡ ok (true, m'))
      × Shows m' account_id s'
project-next transfers account_id m s s' event shown of next applied =
    project-body transfers account_id m s s' event event.body shown of next applied
