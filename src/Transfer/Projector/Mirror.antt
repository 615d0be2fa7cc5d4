-- ===== src/Transfer/Projector/Mirror.antt =====
-- The projector keeps the summary of a transfer equal to the state of its aggregate, as long as the
-- times of its events do not go back.
use event_sourced_core_banki.Base.{
  ◌≤◌, ◌<◌, ◌≡◌, refl, sym, ap, subst, ◌∙◌, some, true, arith, Text, get-put_self,
}
use event_sourced_core_banki.Common.Result.{ok, ok-injective}
use event_sourced_core_banki.Common.Event.{
  DomainEvent, EventBody, account_created, money_deposited, money_withdrawn, account_frozen,
  transfer_initiated, transfer_debit_started, transfer_debited, transfer_credit_started,
  transfer_completed, transfer_failed, transfer_compensation_started, transfer_compensated, other,
}
use event_sourced_core_banki.Common.Money.{to_string}
use event_sourced_core_banki.Transfer.Aggregate.{TransferState, when}
use event_sourced_core_banki.Transfer.ReadModel.{
  TransferSummary, TransferSummaries, get_transfer_summary, upsert_transfer_summary,
}
use event_sourced_core_banki.Transfer.Projector.{
  required, project_later, project_body, next_summary, project,
}

-- What a transfer is about.
abbrev pub Terms : Text → TransferSummary → TransferState → Type 0
Terms transfer_id summary s =
    (summary.transfer_id ≡ transfer_id)
    × (s.source_account_id ≡ some summary.source_account_id)
    × (s.destination_account_id ≡ some summary.destination_account_id)
    × (summary.amount_minor_units ≡ to_string s.amount_minor_units)
    × (s.currency ≡ some summary.currency)

abbrev pub Transactions : TransferSummary → TransferState → Type 0
Transactions summary s =
    (summary.source_debit_transaction_id ≡ s.source_debit_transaction_id)
    × (summary.destination_credit_transaction_id ≡ s.destination_credit_transaction_id)
    × (summary.compensation_transaction_id ≡ s.compensation_transaction_id)

abbrev pub Attempts : TransferSummary → TransferState → Type 0
Attempts summary s =
    (summary.debit_attempts ≡ s.debit_attempts)
    × (summary.credit_attempts ≡ s.credit_attempts)
    × (summary.compensation_attempts ≡ s.compensation_attempts)

abbrev pub Progress : TransferSummary → TransferState → Type 0
Progress summary s =
    (s.status ≡ some summary.status)
    × (summary.failure_reason ≡ s.failure_reason)
    × (summary.failure_stage ≡ s.failure_stage)

-- A summary states what the transfer's state states.
pub record Mirrors (transfer_id : Text) (summary : TransferSummary) (s : TransferState)
    : Type 0 where
  pub terms : Terms transfer_id summary s
  pub progress : Progress summary s
  pub transactions : Transactions summary s
  pub attempts : Attempts summary s

-- The event is one of this transfer, behind its initiation.
unfoldable pub IsLater : Text → EventBody → Type 0
IsLater transfer_id (transfer_debit_started id _ _) = id ≡ some transfer_id
IsLater transfer_id (transfer_debited id _) = id ≡ some transfer_id
IsLater transfer_id (transfer_credit_started id _ _) = id ≡ some transfer_id
IsLater transfer_id (transfer_completed id) = id ≡ some transfer_id
IsLater transfer_id (transfer_failed id _ _) = id ≡ some transfer_id
IsLater transfer_id (transfer_compensation_started id _ _) = id ≡ some transfer_id
IsLater transfer_id (transfer_compensated id _) = id ≡ some transfer_id
IsLater transfer_id _ = ⊥

-- The summary after the event mirrors the state after it.
Mirrors-next :
    (transfer_id : Text) (summary : TransferSummary) (s s' : TransferState) (event : DomainEvent)
    (body : EventBody)
    → Mirrors transfer_id summary s
    → IsLater transfer_id body
    → when (record event { body = body }) s ≡ ok s'
    → Mirrors transfer_id (next_summary event body summary) s'
unfolding when next_summary IsLater
Mirrors-next transfer_id summary s s' event (transfer_debit_started id t n) h later applied =
    subst
      (λ s''. Mirrors transfer_id (next_summary event (transfer_debit_started id t n) summary) s'')
      (ok-injective applied)
      (record {
        terms = h.terms;
        progress = (refl, refl, refl);
        transactions = (refl, h.transactions.1, h.transactions.2);
        attempts = (refl, h.attempts.1, h.attempts.2);
      })
Mirrors-next transfer_id summary s s' event (transfer_debited id t) h later applied =
    subst (λ s''. Mirrors transfer_id (next_summary event (transfer_debited id t) summary) s'')
      (ok-injective applied)
      (record {
        terms = h.terms;
        progress = (refl, h.progress.1, h.progress.2);
        transactions = h.transactions;
        attempts = h.attempts;
      })
Mirrors-next transfer_id summary s s' event (transfer_credit_started id t n) h later applied =
    subst
      (λ s''. Mirrors transfer_id (next_summary event (transfer_credit_started id t n) summary) s'')
      (ok-injective applied)
      (record {
        terms = h.terms;
        progress = (refl, refl, refl);
        transactions = (h.transactions.0, refl, h.transactions.2);
        attempts = (h.attempts.0, refl, h.attempts.2);
      })
Mirrors-next transfer_id summary s s' event (transfer_completed id) h later applied =
    subst (λ s''. Mirrors transfer_id (next_summary event (transfer_completed id) summary) s'')
      (ok-injective applied)
      (record {
        terms = h.terms;
        progress = (refl, h.progress.1, h.progress.2);
        transactions = h.transactions;
        attempts = h.attempts;
      })
Mirrors-next transfer_id summary s s' event (transfer_failed id reason stage) h later applied =
    subst
      (λ s''.
        Mirrors transfer_id (next_summary event (transfer_failed id reason stage) summary) s'')
      (ok-injective applied)
      (record {
        terms = h.terms;
        progress = (refl, refl, refl);
        transactions = h.transactions;
        attempts = h.attempts;
      })
Mirrors-next transfer_id summary s s' event (transfer_compensation_started id t n) h later applied =
    subst
      (λ s''.
        Mirrors transfer_id (next_summary event (transfer_compensation_started id t n) summary) s'')
      (ok-injective applied)
      (record {
        terms = h.terms;
        progress = (refl, h.progress.1, h.progress.2);
        transactions = (h.transactions.0, h.transactions.1, refl);
        attempts = (h.attempts.0, h.attempts.1, refl);
      })
Mirrors-next transfer_id summary s s' event (transfer_compensated id t) h later applied =
    subst (λ s''. Mirrors transfer_id (next_summary event (transfer_compensated id t) summary) s'')
      (ok-injective applied)
      (record {
        terms = h.terms;
        progress = (refl, h.progress.1, h.progress.2);
        transactions = h.transactions;
        attempts = h.attempts;
      })
Mirrors-next transfer_id summary s s' event (account_created _ _ _) h later applied = absurd later
Mirrors-next transfer_id summary s s' event (money_deposited _ _ _ _) h later applied = absurd later
Mirrors-next transfer_id summary s s' event (money_withdrawn _ _ _ _) h later applied = absurd later
Mirrors-next transfer_id summary s s' event (account_frozen _ _) h later applied = absurd later
Mirrors-next transfer_id summary s s' event (transfer_initiated _ _ _ _ _) h later applied =
    absurd later
Mirrors-next transfer_id summary s s' event (other _) h later applied = absurd later

next_summary-updated_at :
    (transfer_id : Text) (event : DomainEvent) (body : EventBody) (summary : TransferSummary)
    → IsLater transfer_id body
    → (next_summary event body summary).updated_at ≡ event.occurred_at
unfolding next_summary IsLater
next_summary-updated_at transfer_id event (transfer_debit_started id t n) summary later = refl
next_summary-updated_at transfer_id event (transfer_debited id t) summary later = refl
next_summary-updated_at transfer_id event (transfer_credit_started id t n) summary later = refl
next_summary-updated_at transfer_id event (transfer_completed id) summary later = refl
next_summary-updated_at transfer_id event (transfer_failed id reason stage) summary later = refl
next_summary-updated_at transfer_id event (transfer_compensation_started id t n) summary later =
    refl
next_summary-updated_at transfer_id event (transfer_compensated id t) summary later = refl
next_summary-updated_at transfer_id event (account_created _ _ _) summary later = absurd later
next_summary-updated_at transfer_id event (money_deposited _ _ _ _) summary later = absurd later
next_summary-updated_at transfer_id event (money_withdrawn _ _ _ _) summary later = absurd later
next_summary-updated_at transfer_id event (account_frozen _ _) summary later = absurd later
next_summary-updated_at transfer_id event (transfer_initiated _ _ _ _ _) summary later =
    absurd later
next_summary-updated_at transfer_id event (other _) summary later = absurd later

next_summary-transfer_id :
    (event : DomainEvent) (body : EventBody) (summary : TransferSummary)
    → (next_summary event body summary).transfer_id ≡ summary.transfer_id
unfolding next_summary
next_summary-transfer_id event body summary = ground arith

-- An event behind the initiation is handled by its own transfer identifier.
project_body-later :
    (transfer_id : Text) (event : DomainEvent) (body : EventBody) (m : TransferSummaries)
    → IsLater transfer_id body
    → project_body event body m ≡ project_later event body (some transfer_id) m
unfolding project_body IsLater
project_body-later transfer_id event (transfer_debit_started id t n) m later = rw (later) refl
project_body-later transfer_id event (transfer_debited id t) m later = rw (later) refl
project_body-later transfer_id event (transfer_credit_started id t n) m later = rw (later) refl
project_body-later transfer_id event (transfer_completed id) m later = rw (later) refl
project_body-later transfer_id event (transfer_failed id reason stage) m later = rw (later) refl
project_body-later transfer_id event (transfer_compensation_started id t n) m later =
    rw (later) refl
project_body-later transfer_id event (transfer_compensated id t) m later = rw (later) refl
project_body-later transfer_id event (account_created _ _ _) m later = absurd later
project_body-later transfer_id event (money_deposited _ _ _ _) m later = absurd later
project_body-later transfer_id event (money_withdrawn _ _ _ _) m later = absurd later
project_body-later transfer_id event (account_frozen _ _) m later = absurd later
project_body-later transfer_id event (transfer_initiated _ _ _ _ _) m later = absurd later
project_body-later transfer_id event (other _) m later = absurd later

upsert-not_older :
    (m : TransferSummaries) (transfer_id : Text) (old new : TransferSummary)
    → new.transfer_id ≡ transfer_id
    → get_transfer_summary m transfer_id ≡ some old
    → old.updated_at ≤ new.updated_at
    → get_transfer_summary (upsert_transfer_summary m new) transfer_id ≡ some new
unfolding upsert_transfer_summary get_transfer_summary
upsert-not_older m transfer_id old new e known order =
    ground (arith, get-put_self m transfer_id new)

upsert-older :
    (m : TransferSummaries) (transfer_id : Text) (old new : TransferSummary)
    → new.transfer_id ≡ transfer_id
    → get_transfer_summary m transfer_id ≡ some old
    → new.updated_at < old.updated_at
    → upsert_transfer_summary m new ≡ m
unfolding upsert_transfer_summary get_transfer_summary
upsert-older m transfer_id old new e known order = ground arith

-- The read models have a summary that mirrors the state.
pub record Shows (m : TransferSummaries) (transfer_id : Text) (s : TransferState) : Type 0 where
  pub summary : TransferSummary
  pub stored : get_transfer_summary m transfer_id ≡ some summary
  pub mirrors : Mirrors transfer_id summary s

module _ (transfer_id : Text) (m : TransferSummaries) (s s' : TransferState) (event : DomainEvent)
    (shown : Shows m transfer_id s) (later : IsLater transfer_id event.body) where
  abbrev new : TransferSummary
  new = next_summary event event.body shown.summary

  known : required m (some transfer_id) ≡ ok shown.summary
  unfolding required
  known = let e = shown.stored in ground arith

  new_time : new.updated_at ≡ event.occurred_at
  new_time = next_summary-updated_at transfer_id event event.body shown.summary later

  projected : project event m ≡ ok (true, upsert_transfer_summary m new)
  unfolding project project_later
  projected = project_body-later transfer_id event event.body m later ∙ rw (known) refl

  -- The summary after an event that is not older.
  abbrev shown_next :
      shown.summary.updated_at ≤ event.occurred_at
      → when event s ≡ ok s'
      → Shows (upsert_transfer_summary m new) transfer_id s'
  shown_next order applied =
      let next =
        Mirrors-next transfer_id shown.summary s s' event event.body shown.mirrors later applied in
      record {
        summary = new;
        stored =
            upsert-not_older m transfer_id shown.summary new next.terms.0 shown.stored
              (subst (λ n. shown.summary.updated_at ≤ n) (sym new_time) order);
        mirrors = next;
      }

  -- An event behind a transfer's initiation that the transfer can apply, and that is not older
  -- than its summary, is projected so that the summary, if it showed the state before the event,
  -- shows terms, status, failure, transactions and attempts of the state after the event.
  pub project-later :
      shown.summary.updated_at ≤ event.occurred_at
      → when event s ≡ ok s'
      → (m' : TransferSummaries) × (project event m ≡ ok (true, m')) × Shows m' transfer_id s'
  project-later order applied = (upsert_transfer_summary m new, projected, shown_next order applied)

  -- An event behind a transfer's initiation whose time is before the summary's is dropped, though
  -- the projector reports it as handled.
  pub older_dropped : event.occurred_at < shown.summary.updated_at → project event m ≡ ok (true, m)
  older_dropped older =
      projected
      ∙ ap (λ m'. ok (true, m'))
          (upsert-older m transfer_id shown.summary new
            (next_summary-transfer_id event event.body shown.summary ∙ shown.mirrors.terms.0)
            shown.stored (subst (λ n. n < shown.summary.updated_at) (sym new_time) older))

-- Two events behind a transfer's initiation that the transfer can apply in turn, the first not
-- older than its summary, the second stamped by a clock that is behind the first: both are
-- reported as projected, but the summary, if it showed the state before them, stays at the state
-- between them.
pub clock_behind :
    (transfer_id : Text) (m : TransferSummaries) (s s1 s2 : TransferState)
    (first second : DomainEvent) (shown : Shows m transfer_id s)
    → IsLater transfer_id first.body
    → IsLater transfer_id second.body
    → shown.summary.updated_at ≤ first.occurred_at
    → second.occurred_at < first.occurred_at
    → when first s ≡ ok s1
    → when second s1 ≡ ok s2
    → (m' : TransferSummaries) × (project first m ≡ ok (true, m'))
      × (project second m' ≡ ok (true, m'))
      × Shows m' transfer_id s1
clock_behind transfer_id m s s1 s2 first second shown later1 later2 order behind applied1 applied2 =
    let between = shown_next transfer_id m s s1 first shown later1 order applied1 in
    (
      _,
      projected transfer_id m s s1 first shown later1,
      older_dropped transfer_id _ s1 s2 second between later2 (
          subst (λ n. second.occurred_at < n) (sym (new_time transfer_id m s s1 first shown later1))
            behind),
      between,
    )
