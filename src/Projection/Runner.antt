-- ===== src/Projection/Runner.antt =====
-- infrastructure/projections/projection-runner.service.ts: replaying the log, rebuilding a read
-- model, and one round of the polling loop. A method returns its result and the read models after
-- it; log lines are left out.
pub mod Replay
pub mod Rebuild
use event_sourced_core_banki.Base.{ℕ, zero, suc, Option, none, some, Bool, List, [], ◌∷◌, Text}
use event_sourced_core_banki.Common.Result.{Result, ok, err}
use event_sourced_core_banki.Common.Event.{DomainEvent}
use event_sourced_core_banki.Infrastructure.EventStore.{
  EventStore, PositionedEvent, read_all, read_stream,
}
use event_sourced_core_banki.Account.Aggregate.{account_stream}
use event_sourced_core_banki.Account.ReadModel.{AccountReadModels, empty_read_models, reset_account}
use event_sourced_core_banki.Account.Projector
use event_sourced_core_banki.Transfer.Aggregate.{transfer_stream}
use event_sourced_core_banki.Transfer.ReadModel.{TransferSummaries, reset_transfer, reset_all}
use event_sourced_core_banki.Transfer.Projector.{project}

-- The read models that the runner feeds.
pub record Views : Type 0 where
  pub accounts : AccountReadModels
  pub transfers : TransferSummaries

abbrev pub Projected : Type 0
Projected = Result (Unit {0}) × Views

-- `await this.accountProjector.project(event)`
unfoldable pub store_accounts : Views → Result (Bool × AccountReadModels) → Projected
store_accounts views (ok (_, accounts)) = (ok tt, record views { accounts = accounts })
store_accounts views (err e) = (err e, views)

unfoldable pub project_account : DomainEvent → Views → Projected
unfolding store_accounts
project_account event views =
    store_accounts views (Projector.project views.transfers event views.accounts)

-- `await this.transferProjector.project(event)`
unfoldable pub store_transfers : Views → Result (Bool × TransferSummaries) → Projected
store_transfers views (ok (_, transfers)) = (ok tt, record views { transfers = transfers })
store_transfers views (err e) = (err e, views)

unfoldable pub project_transfer : DomainEvent → Views → Projected
unfolding store_transfers
project_transfer event views = store_transfers views (project event views.transfers)

-- What follows a projection runs only when it did not throw.
unfoldable pub then_project : Projected → (Views → Projected) → Projected
then_project (ok _, views) next = next views
then_project (err e, views) next = (err e, views)

unfoldable pub project_one : DomainEvent → Views → Projected
project_one event views = then_project (project_account event views) (project_transfer event)

-- The rest of a page, once its first event is projected.
unfoldable pub after_event :
    PositionedEvent
    → ℕ
    → (ℕ → Views → Result (Unit {0}) × ℕ × Views)
    → Projected
    → Result (Unit {0}) × ℕ × Views
after_event event checkpoint rest (ok _, views) = rest event.position views
after_event event checkpoint rest (err e, views) = (err e, checkpoint, views)

-- The `for` loop over a page, with the checkpoint that it leaves.
unfoldable pub project_page : List PositionedEvent → ℕ → Views → Result (Unit {0}) × ℕ × Views
unfolding after_event
project_page [] checkpoint views = (ok tt, checkpoint, views)
project_page (event ∷ events) checkpoint views =
    after_event event checkpoint (λ c v. project_page events c v) (project_one event.event views)

-- What the `while` loop does after a page.
unfoldable pub after_page :
    (ℕ → Views → Option (Result (Unit {0}) × ℕ × Views))
    → Result (Unit {0}) × ℕ × Views
    → Option (Result (Unit {0}) × ℕ × Views)
after_page rest (ok _, checkpoint, views) = rest checkpoint views
after_page rest (err e, checkpoint, views) = some (err e, checkpoint, views)

-- `if (events.length === 0)`, or the page and the next round.
unfoldable pub project_read :
    List PositionedEvent
    → ℕ
    → Views
    → (ℕ → Views → Option (Result (Unit {0}) × ℕ × Views))
    → Option (Result (Unit {0}) × ℕ × Views)
unfolding after_page
project_read [] checkpoint views rest = some (ok tt, checkpoint, views)
project_read (event ∷ events) checkpoint views rest =
    after_page rest (project_page (event ∷ events) checkpoint views)

-- The `while` loop with a number of rounds and a page size; `none` when the rounds are used up.
unfoldable pub replay_loop : ℕ → ℕ → EventStore → ℕ → Views → Option (Result (Unit {0}) × ℕ × Views)
replay_loop zero page store checkpoint views = none
replay_loop (suc rounds) page store checkpoint views =
    project_read (read_all store checkpoint page) checkpoint views
      (λ c v. replay_loop rounds page store c v)

abbrev pub page_size : ℕ
page_size = 1000

unfoldable pub replay_from : ℕ → EventStore → ℕ → Views → Option (Result (Unit {0}) × ℕ × Views)
replay_from rounds store position views = replay_loop rounds page_size store position views

-- One round of `runLoop`, with the checkpoint of the service.
unfoldable pub poll_once : EventStore → ℕ → Views → Result (Unit {0}) × ℕ × Views
poll_once store checkpoint views =
    project_page (read_all store checkpoint page_size) checkpoint views

-- The `for` loops of the rebuilds, over one stream.
unfoldable pub project_events :
    (DomainEvent → Views → Projected) → List DomainEvent → Views → Projected
project_events project_event [] views = (ok tt, views)
project_events project_event (event ∷ events) views =
    then_project (project_event event views) (λ v. project_events project_event events v)

-- The work of `rebuildAccount`, which runs exclusively.
unfoldable pub rebuild_account : Text → EventStore → Views → Projected
rebuild_account account_id store views =
    project_events project_account (read_stream store (account_stream account_id) 0)
      (record views { accounts = reset_account views.accounts account_id })

unfoldable pub rebuild_transfer : Text → EventStore → Views → Projected
rebuild_transfer transfer_id store views =
    project_events project_transfer (read_stream store (transfer_stream transfer_id) 0)
      (record views { transfers = reset_transfer views.transfers transfer_id })

-- `none` when the rounds of the replay are used up.
unfoldable pub rebuild_all : ℕ → EventStore → Views → Option (Result (Unit {0}) × ℕ × Views)
rebuild_all rounds store views =
    replay_from rounds store 0
      (record { accounts = empty_read_models; transfers = reset_all views.transfers })
