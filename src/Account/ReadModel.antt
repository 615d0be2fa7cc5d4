-- ===== src/Account/ReadModel.antt =====
-- modules/accounts/query/account-read-model.repository.ts and
-- in-memory-account-read-model.repository.ts.
use event_sourced_core_banki.Base.{
  ℕ, Option, none, some, List, [], ◌∷◌, ◌++◌, take, drop, has_some, ltb, leb, if◌then◌else◌, Text,
  ◌==◌, Dict, get, put, remove,
}
use event_sourced_core_banki.Common.Money.{JsNumber}
use event_sourced_core_banki.Account.Aggregate.{AccountStatus}

pub record AccountSummary : Type 0 where
  pub account_id : Text
  pub owner_id : Text
  pub currency : Text
  pub status : AccountStatus
  pub balance_minor_units : Text
  pub balance : JsNumber
  pub version : ℕ
  pub created_at : ℕ
  pub updated_at : ℕ

pub data EntryKind : Type 0 where
  account_operation transfer : EntryKind

pub data TransferDirection : Type 0 where
  incoming outgoing reversal : TransferDirection

pub record StatementEntry : Type 0 where
  pub event_id : Text
  pub account_id : Text
  pub stream_version : ℕ
  pub event_type : Text
  pub entry_kind : Option EntryKind
  pub amount_minor_units : Option Text
  pub amount : Option JsNumber
  pub currency : Option Text
  pub transaction_id : Option Text
  pub transfer_id : Option Text
  pub transfer_direction : Option TransferDirection
  pub source_account_id : Option Text
  pub destination_account_id : Option Text
  pub counterparty_account_id : Option Text
  pub description : Option Text
  pub reason : Option Text
  pub occurred_at : ℕ

pub record AccountReadModels : Type 0 where
  pub summaries : Dict AccountSummary
  pub statements : Dict (List StatementEntry)
  pub checkpoints : Dict ℕ

unfoldable pub get_account_summary : AccountReadModels → Text → Option AccountSummary
get_account_summary m account_id = get m.summaries account_id

abbrev pub entries_or_empty : Option (List StatementEntry) → List StatementEntry
entries_or_empty none = []
entries_or_empty (some entries) = entries

unfoldable pub get_account_statement : AccountReadModels → Text → ℕ → ℕ → List StatementEntry
get_account_statement m account_id limit offset =
    take limit (drop offset (entries_or_empty (get m.statements account_id)))

unfoldable pub upsert_account_summary : AccountReadModels → AccountSummary → AccountReadModels
upsert_account_summary m summary = elim (get m.summaries summary.account_id) [
  | none ↦ record m { summaries = put m.summaries summary.account_id summary }
  | some current ↦
      if leb summary.version current.version
      then m
      else record m { summaries = put m.summaries summary.account_id summary }
]

unfoldable pub insert_entry : StatementEntry → List StatementEntry → List StatementEntry
insert_entry e [] = e ∷ []
insert_entry e (x ∷ xs) =
    if leb e.stream_version x.stream_version then e ∷ x ∷ xs else x ∷ insert_entry e xs

-- The stable sort by `streamVersion`.
unfoldable pub sort_entries : List StatementEntry → List StatementEntry
unfolding insert_entry
sort_entries [] = []
sort_entries (e ∷ es) = insert_entry e (sort_entries es)

unfoldable pub append_account_statement : AccountReadModels → StatementEntry → AccountReadModels
unfolding sort_entries
append_account_statement m entry =
    let current = entries_or_empty (get m.statements entry.account_id) in
    if has_some (λ item. item.event_id == entry.event_id) current then m else record m {
      statements = put m.statements entry.account_id (sort_entries (current ++ entry ∷ []));
    }

unfoldable pub reset_account : AccountReadModels → Text → AccountReadModels
reset_account m account_id = record m {
  summaries = remove m.summaries account_id;
  statements = remove m.statements account_id;
}

abbrev pub empty_read_models : AccountReadModels
empty_read_models = record { summaries = []; statements = []; checkpoints = [] }

abbrev pub zero_or : Option ℕ → ℕ
zero_or none = 0
zero_or (some n) = n

unfoldable pub get_checkpoint : AccountReadModels → Text → ℕ
get_checkpoint m projection_name = zero_or (get m.checkpoints projection_name)

unfoldable pub save_checkpoint : AccountReadModels → Text → ℕ → AccountReadModels
unfolding get_checkpoint
save_checkpoint m projection_name position =
    if ltb (get_checkpoint m projection_name) position
    then record m { checkpoints = put m.checkpoints projection_name position }
    else m
