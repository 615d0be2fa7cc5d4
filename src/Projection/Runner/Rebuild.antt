-- ===== src/Projection/Runner/Rebuild.antt =====
-- A rebuilt account shows the state that its stream replays to.
use event_sourced_core_banki.Base.{
  ◌≡◌, refl, ap, subst, none, List, [], ◌∷◌, Text, get-remove, eq_refl,
}
use event_sourced_core_banki.Common.Result.{Result, ok, err, >>=-eq-ok}
use event_sourced_core_banki.Common.Event.{DomainEvent, account_created}
use event_sourced_core_banki.Common.Aggregate.{replay}
use event_sourced_core_banki.Infrastructure.EventStore.{EventStore, stream}
use event_sourced_core_banki.Infrastructure.EventStore.Streams.{
  IsNumbered, IsValid, read_stream-drop,
}
use event_sourced_core_banki.Account.Aggregate.{AccountState, account_stream, new_state, when}
use event_sourced_core_banki.Account.ReadModel.{
  AccountReadModels, get_account_summary, reset_account,
}
use event_sourced_core_banki.Account.Projector
use event_sourced_core_banki.Account.Projector.Mirror.{Shows}
use event_sourced_core_banki.Account.Projector.Delivery.{project_all, AreOf, project_stream}
use event_sourced_core_banki.Projection.Runner.{
  Views, project_account, store_accounts, then_project, project_events, rebuild_account,
}

project_events-project_all :
    (events : List DomainEvent) (views : Views) (m : AccountReadModels)
    → project_all views.transfers events views.accounts ≡ ok m
    → project_events project_account events views ≡ (ok tt, record views { accounts = m })
unfolding project_events project_all project_account store_accounts then_project
project_events-project_all [] views m h =
    ap
      (λ (r : Result AccountReadModels). elim r [
        | ok k ↦ (ok tt, record views { accounts = k })
        | err e ↦ (err e, views)
      ])
      h
project_events-project_all (event ∷ events) views m h =
    let ((b, m1), ran, later) =
      >>=-eq-ok (Projector.project views.transfers event views.accounts) _ h in
    rw ran (project_events-project_all events (record views { accounts = m1 }) m later)

reset-none :
    (m : AccountReadModels) (account_id : Text)
    → get_account_summary (reset_account m account_id) account_id ≡ none
unfolding get_account_summary reset_account
reset-none m account_id = rw (get-remove m.summaries account_id account_id, eq_refl account_id) refl

-- In a valid store, rebuilding an account whose stream is its creation and then movements or
-- freezings of it, and replays, succeeds whatever the read models hold: its summary then shows
-- owner, currency, status, balance and version of the state that the stream replays to, and the
-- transfer summaries stay as they are.
pub rebuild_account-Shows :
    (store : EventStore) (account_id owner_id currency : Text) (first : DomainEvent)
    (events : List DomainEvent) (s : AccountState) (views : Views)
    → IsValid store
    → stream store (account_stream account_id) ≡ first ∷ events
    → first.body ≡ account_created account_id owner_id currency
    → AreOf account_id events
    → replay when (first ∷ events) new_state ≡ ok s
    → (views' : Views) × (rebuild_account account_id store views ≡ (ok tt, views'))
      × Shows views'.accounts account_id s
      × (views'.transfers ≡ views.transfers)
unfolding rebuild_account
rebuild_account-Shows store account_id owner_id currency first events s views v here opening of
      done =
    let reset : Views = record views { accounts = reset_account views.accounts account_id } in
    let (m, ran, shown) =
      project_stream views.transfers account_id owner_id currency first events reset.accounts s
        (reset-none views.accounts account_id) opening of
        (subst (λ es. IsNumbered 0 es) here (v.numbered (account_stream account_id))) done in
    (
      record views { accounts = m },
      rw (read_stream-drop store (account_stream account_id) 0 v, here)
          (project_events-project_all (first ∷ events) reset m ran),
      shown,
      refl,
    )
