-- ===== src/Transfer/Coordinator/Terms.antt =====
-- What the theorems about the coordinator assume of a transfer and of its accounts.
use event_sourced_core_banki.Base.{◌≡◌, ◌≢◌, sym, ap, ◌∙◌, some, true, [], Text, inl, inr}
use event_sourced_core_banki.Common.Result.{ok}
use event_sourced_core_banki.Common.Aggregate.{replay, with_state}
use event_sourced_core_banki.Account.Aggregate.{AccountState, AccountStatus, new_state, when}
use event_sourced_core_banki.Account.Repository.{AccountStores}
use event_sourced_core_banki.Account.Repository.Consistency.{account_events}
use event_sourced_core_banki.Transfer.Aggregate.{TransferState, TransferStatus, is_one_of}
use event_sourced_core_banki.Transfer.Lifecycle.{IsWell, IsAgreed}
use event_sourced_core_banki.Common.Optional.{show_option}
use event_sourced_core_banki.Transfer.Repository.{get_by_id}
use event_sourced_core_banki.Transfer.Repository.Quiet.{get_by_id-replay}
use event_sourced_core_banki.Transfer.Coordinator.{Bank, Outcome, with_transfer}
use event_sourced_core_banki.Transfer.Coordinator.Steps.{Holds}

abbrev pub source_of : TransferState → Text
source_of t = show_option t.source_account_id

abbrev pub destination_of : TransferState → Text
destination_of t = show_option t.destination_account_id

abbrev pub currency_of : TransferState → Text
currency_of t = show_option t.currency

-- A transfer with a status has been initiated.
pub one_of-IsAgreed :
    (t : TransferState) (first second : TransferStatus)
    → IsWell t
    → is_one_of t.status first second ≡ true
    → IsAgreed t
one_of-IsAgreed t first second (inl (unset, _)) h = cc (ap (λ o. is_one_of o first second) unset)
one_of-IsAgreed t first second (inr g) h = g

pub source-destination : (t : TransferState) → IsAgreed t → source_of t ≢ destination_of t
source-destination t g e =
    g.distinct (sym (ap show_option g.has_source) ∙ e ∙ ap show_option g.has_destination)

-- An account of the stores with this status and currency.
pub record IsAccount (stores : AccountStores) (account_id : Text) (status : AccountStatus)
    (currency : Text) : Type 0 where
  pub state : AccountState
  pub replayed : replay when (account_events stores account_id) new_state ≡ ok state
  pub has_status : state.status ≡ status
  pub has_currency : state.currency ≡ some currency

pub with_transfer-loaded :
    (bank : Bank) (transfer_id : Text) (t : TransferState) (h : Holds bank transfer_id t)
    (next : TransferState → Bank → Outcome)
    → with_transfer (get_by_id transfer_id bank.stores.event_store) next bank ≡ next t bank
unfolding with_transfer
with_transfer-loaded bank transfer_id t h next =
    ap (λ r. with_transfer r next bank)
      (get_by_id-replay bank.stores.event_store transfer_id h.consistent.valid
        ∙ ap (with_state []) h.loaded)
