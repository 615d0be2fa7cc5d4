-- ===== src/Account/Projector/Delivery.antt =====
-- What the projector makes of a whole stream, of an event that comes again, and of an event that
-- comes too early.
pub mod Again
use event_sourced_core_banki.Base.{
  ◌+◌, ◌≤◌, ◌<◌, ◌≡◌, refl, sym, ap, subst, ◌∙◌, none, some, true, false, List, [], ◌∷◌, arith, leb,
  Text, get, get-put_self,
}
use event_sourced_core_banki.Common.Result.{
  Result, ok, err, projection_gap, ◌>>=◌, >>=-eq-ok, ok-injective,
}
use event_sourced_core_banki.Common.Event.{
  DomainEvent, EventBody, account_created, money_deposited, money_withdrawn, account_frozen,
  transfer_initiated, transfer_debit_started, transfer_debited, transfer_credit_started,
  transfer_completed, transfer_failed, transfer_compensation_started, transfer_compensated, other,
}
use event_sourced_core_banki.Common.Aggregate.{replay}
use event_sourced_core_banki.Common.Money.{to_string, show_nat, show_fuel}
use event_sourced_core_banki.Account.Aggregate.{AccountState, active, new_state, when}
use event_sourced_core_banki.Account.ReadModel.{
  AccountSummary, AccountReadModels, get_account_summary, upsert_account_summary,
  append_account_statement,
}
use event_sourced_core_banki.Account.Repository.Consistency.{when-version}
use event_sourced_core_banki.Account.Projector.{
  get_required_summary, ensure_sequential_version, project_money, project_account_frozen,
  project_created, project_account_created, project, plain_entry,
}
use event_sourced_core_banki.Account.Projector.Mirror.{
  Shows, IsOf, project-next, summaries-append_account_statement,
}
use event_sourced_core_banki.Infrastructure.EventStore.Streams.{IsNumbered}
use event_sourced_core_banki.Transfer.ReadModel.{TransferSummaries}

-- The projector over a list of events, in order.
unfoldable pub project_all :
    TransferSummaries → List DomainEvent → AccountReadModels → Result AccountReadModels
project_all transfers [] m = ok m
project_all transfers (event ∷ events) m = do
  (_, m') ← project transfers event m
  project_all transfers events m'

-- The events after the creation.
abbrev pub AreOf : Text → List DomainEvent → Type 0
AreOf account_id [] = Unit
AreOf account_id (event ∷ events) = IsOf account_id event.body × AreOf account_id events

project_all-rest :
    (transfers : TransferSummaries) (account_id : Text) (events : List DomainEvent)
    (m : AccountReadModels) (s s' : AccountState)
    → Shows m account_id s
    → AreOf account_id events
    → IsNumbered s.version events
    → replay when events s ≡ ok s'
    → (m' : AccountReadModels) × (project_all transfers events m ≡ ok m') × Shows m' account_id s'
unfolding project_all replay
project_all-rest transfers account_id [] m s s' shown of numbered done =
    (m, refl, subst (λ t. Shows m account_id t) (ok-injective done) shown)
project_all-rest transfers account_id (event ∷ events) m s s' shown of numbered done =
    let (s1, applied, later) = >>=-eq-ok (when event s) _ done in
    let (m1, ran, shown1) =
      project-next transfers account_id m s s1 event shown of.0 numbered.0 applied in
    let next : IsNumbered s1.version events =
      subst (λ n. IsNumbered n events) (sym (when-version event s applied ∙ numbered.0))
        numbered.1 in
    let (m', rest, shown') =
      project_all-rest transfers account_id events m1 s1 s' shown1 of.1 next later in
    (m', rw (ran) rest, shown')

created_summary-stored :
    (m : AccountReadModels) (new : AccountSummary)
    → get_account_summary m new.account_id ≡ none
    → get (upsert_account_summary m new).summaries new.account_id ≡ some new
unfolding upsert_account_summary get_account_summary
created_summary-stored m new fresh = ground (arith, get-put_self m.summaries new.account_id new)

project-created :
    (transfers : TransferSummaries) (account_id owner_id currency : Text) (event : DomainEvent)
    (m : AccountReadModels) (s : AccountState)
    → get_account_summary m account_id ≡ none
    → event.stream_version ≡ 1
    → when (record event { body = account_created account_id owner_id currency }) new_state ≡ ok s
    → (m' : AccountReadModels) × (project transfers
          (record event { body = account_created account_id owner_id currency })
          m
        ≡ ok (true, m'))
      × Shows m' account_id s
unfolding project project_account_created project_created when get_account_summary to_string
    show_nat show_fuel
project-created transfers account_id owner_id currency event m s fresh first applied =
    let created = record event { body = account_created account_id owner_id currency } in
    let new : AccountSummary = record {
      account_id = account_id;
      owner_id = owner_id;
      currency = currency;
      status = active;
      balance_minor_units = b'0' ∷ [];
      balance = b'0' ∷ [];
      version = event.stream_version;
      created_at = event.occurred_at;
      updated_at = event.occurred_at;
    } in
    let m' =
      append_account_statement (upsert_account_summary m new)
        (plain_entry created account_id none) in
    (
      m',
      rw (fresh, first) refl,
      subst (λ t. Shows m' account_id t) (ok-injective applied)
          (record {
            summary = new;
            stored =
                rw
                  (summaries-append_account_statement (upsert_account_summary m new)
                    (plain_entry created account_id none))
                  (created_summary-stored m new fresh);
            mirrors = record {
              id = refl;
              owner = refl;
              currency = refl;
              status = refl;
              balance = refl;
              version = refl;
            };
          }),
    )

-- Projecting the whole stream of an account that has no summary yet, which is its creation and
-- then movements or freezings of it, numbered from 1 and replayable, in order, succeeds, and the
-- summary then shows owner, currency, status, balance and version of the state that the stream
-- replays to.
pub project_stream :
    (transfers : TransferSummaries) (account_id owner_id currency : Text) (first : DomainEvent)
    (events : List DomainEvent) (m : AccountReadModels) (s : AccountState)
    → get_account_summary m account_id ≡ none
    → first.body ≡ account_created account_id owner_id currency
    → AreOf account_id events
    → IsNumbered 0 (first ∷ events)
    → replay when (first ∷ events) new_state ≡ ok s
    → (m' : AccountReadModels) × (project_all transfers (first ∷ events) m ≡ ok m')
      × Shows m' account_id s
unfolding project_all replay
project_stream transfers account_id owner_id currency first events m s fresh opening of numbered
      done =
    let (s1, applied, later) = >>=-eq-ok (when first new_state) _ done in
    let same : record first { body = account_created account_id owner_id currency } ≡ first =
      ap (λ b. record first { body = b }) (sym opening) in
    let (m1, ran, shown1) =
      project-created transfers account_id owner_id currency first m s1 fresh numbered.0
        (ap (λ e. when e new_state) same ∙ applied) in
    let next : IsNumbered s1.version events =
      subst (λ n. IsNumbered n events) (sym (when-version first new_state applied ∙ numbered.0))
        numbered.1 in
    let (m', rest, shown') =
      project_all-rest transfers account_id events m1 s1 s shown1 of next later in
    (m', rw (sym (ap (λ e. project transfers e m) same) ∙ ran) rest, shown')

module _ (transfers : TransferSummaries) (account_id : Text) (m : AccountReadModels)
    (s : AccountState) (event : DomainEvent) (shown : Shows m account_id s) where
  required : get_required_summary m (some account_id) ≡ ok shown.summary
  unfolding get_required_summary
  required = let e = shown.stored in ground arith

  pub seen-leb :
      event.stream_version ≤ s.version → leb event.stream_version shown.summary.version ≡ true
  seen-leb old = let e = shown.mirrors.version in ground arith

  early-leb :
      s.version + 1 < event.stream_version → leb event.stream_version shown.summary.version ≡ false
  early-leb early = let e = shown.mirrors.version in ground arith

  early-error :
      s.version + 1 < event.stream_version
      → ensure_sequential_version account_id shown.summary.version event.stream_version
        ≡ err (projection_gap account_id (s.version + 1) event.stream_version)
  unfolding ensure_sequential_version
  early-error early = let e = shown.mirrors.version in ground arith

  redelivered-body :
      (body : EventBody)
      → IsOf account_id body
      → event.stream_version ≤ s.version
      → project transfers (record event { body = body }) m ≡ ok (true, m)
  unfolding project project_money project_account_frozen IsOf
  redelivered-body (money_deposited account amount currency t) of old =
      rw (of, required, seen-leb old) refl
  redelivered-body (money_withdrawn account amount currency t) of old =
      rw (of, required, seen-leb old) refl
  redelivered-body (account_frozen account reason) of old = rw (of, required, seen-leb old) refl
  redelivered-body (account_created _ _ _) of old = absurd of
  redelivered-body (transfer_initiated _ _ _ _ _) of old = absurd of
  redelivered-body (transfer_debit_started _ _ _) of old = absurd of
  redelivered-body (transfer_debited _ _) of old = absurd of
  redelivered-body (transfer_credit_started _ _ _) of old = absurd of
  redelivered-body (transfer_completed _) of old = absurd of
  redelivered-body (transfer_failed _ _ _) of old = absurd of
  redelivered-body (transfer_compensation_started _ _ _) of old = absurd of
  redelivered-body (transfer_compensated _ _) of old = absurd of
  redelivered-body (other _) of old = absurd of

  gap-body :
      (body : EventBody)
      → IsOf account_id body
      → s.version + 1 < event.stream_version
      → project transfers (record event { body = body }) m
        ≡ err (projection_gap account_id (s.version + 1) event.stream_version)
  unfolding project project_money project_account_frozen IsOf
  gap-body (money_deposited account amount currency t) of early =
      rw (of, required, early-leb early, early-error early) refl
  gap-body (money_withdrawn account amount currency t) of early =
      rw (of, required, early-leb early, early-error early) refl
  gap-body (account_frozen account reason) of early =
      rw (of, required, early-leb early, early-error early) refl
  gap-body (account_created _ _ _) of early = absurd of
  gap-body (transfer_initiated _ _ _ _ _) of early = absurd of
  gap-body (transfer_debit_started _ _ _) of early = absurd of
  gap-body (transfer_debited _ _) of early = absurd of
  gap-body (transfer_credit_started _ _ _) of early = absurd of
  gap-body (transfer_completed _) of early = absurd of
  gap-body (transfer_failed _ _ _) of early = absurd of
  gap-body (transfer_compensation_started _ _ _) of early = absurd of
  gap-body (transfer_compensated _ _) of early = absurd of
  gap-body (other _) of early = absurd of

  -- An event of an account (a movement or the freezing) that its summary already covers changes
  -- nothing in the read models when it comes again.
  pub redelivered :
      IsOf account_id event.body
      → event.stream_version ≤ s.version
      → project transfers event m ≡ ok (true, m)
  redelivered = redelivered-body event.body

  -- An event of an account (a movement or the freezing) that leaves out a version is refused with
  -- a projection gap that names the missing version.
  pub gap_refused :
      IsOf account_id event.body
      → s.version + 1 < event.stream_version
      → project transfers event m
        ≡ err (projection_gap account_id (s.version + 1) event.stream_version)
  gap_refused = gap-body event.body
