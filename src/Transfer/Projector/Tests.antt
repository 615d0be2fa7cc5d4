-- ===== src/Transfer/Projector/Tests.antt =====
-- The theorems about the projector and the read model at a transfer that has been initiated.
use event_sourced_core_banki.Base.{
  ℕ, ◌≡◌, refl, none, some, true, [], ◌∷◌, arith, Text, pos, get, ◌==◌, ◌+◌, ◌*◌, take, select, leb,
  values,
}
use event_sourced_core_banki.Common.Result.{ok}
use event_sourced_core_banki.Common.Event.{DomainEvent, transfer_debit_started, transfer_debited}
use event_sourced_core_banki.Common.Money.{to_string}
use event_sourced_core_banki.Transfer.Aggregate.{
  TransferState, initiated, debit_in_progress, debited, new_state, when,
}
use event_sourced_core_banki.Transfer.ReadModel.{
  TransferSummary, TransferSummaries, get_transfer_summary, list_stuck_transfers,
  list_pending_transfers, sort_summaries, insert_summary, is_pending,
}
use event_sourced_core_banki.Transfer.ReadModel.Stuck.{stuck_complete}
use event_sourced_core_banki.Transfer.Projector.{project}
use event_sourced_core_banki.Transfer.Projector.Mirror.{Shows, IsLater, project-later, clock_behind}

abbrev transfer_id : Text
transfer_id = b'x' ∷ []

abbrev started : TransferState
started = record new_state {
  transfer_id = some transfer_id;
  source_account_id = some (b'a' ∷ []);
  destination_account_id = some (b'b' ∷ []);
  amount_minor_units = pos 250;
  currency = some (b'E' ∷ []);
  status = some initiated;
  version = 1;
}

abbrev debiting : TransferState
debiting = record started {
  status = some debit_in_progress;
  source_debit_transaction_id = some (b't' ∷ []);
  debit_attempts = 1;
  version = 2;
  updated_at = some 9;
}

abbrev event : ℕ → DomainEvent
event time = record {
  event_id = b'e' ∷ [];
  stream_id = b's' ∷ [];
  stream_version = 2;
  body = transfer_debit_started (some transfer_id) (b't' ∷ []) 1;
  occurred_at = time;
  metadata = record {
    command_id = b'c' ∷ [];
    correlation_id = transfer_id;
    causation_id = none;
    actor = none;
    trace_id = none;
  };
}

abbrev summary : TransferSummary
summary = record {
  transfer_id = transfer_id;
  source_account_id = b'a' ∷ [];
  destination_account_id = b'b' ∷ [];
  amount_minor_units = to_string (pos 250);
  amount = b'2' ∷ b'.' ∷ b'5' ∷ [];
  currency = b'E' ∷ [];
  status = initiated;
  failure_reason = none;
  failure_stage = none;
  source_debit_transaction_id = none;
  destination_credit_transaction_id = none;
  compensation_transaction_id = none;
  debit_attempts = 0;
  credit_attempts = 0;
  compensation_attempts = 0;
  created_at = 7;
  updated_at = 7;
}

abbrev summaries : TransferSummaries
summaries = (transfer_id, summary) ∷ []

shows : Shows summaries transfer_id started
unfolding get_transfer_summary get ◌==◌
shows = record {
  summary = summary;
  stored = refl;
  mirrors = record {
    terms = (refl, refl, refl, refl, refl);
    progress = (refl, refl, refl);
    transactions = (refl, refl, refl);
    attempts = (refl, refl, refl);
  };
}

applies : when (event 9) started ≡ ok debiting
unfolding when
applies = refl

project-later_example :
    (m' : TransferSummaries) × (project (event 9) summaries ≡ ok (true, m'))
    × Shows m' transfer_id debiting
unfolding IsLater shows
project-later_example =
    project-later transfer_id summaries started debiting (event 9) shows refl (omega arith) applies

-- The debit is marked by an instance whose clock is behind.
abbrev marked : DomainEvent
marked = record (event 3) {
  stream_version = 3;
  body = transfer_debited (some transfer_id) (some (b't' ∷ []));
}

abbrev was_debited : TransferState
was_debited = record debiting { status = some debited; version = 3; updated_at = some 3 }

marks : when marked debiting ≡ ok was_debited
unfolding when
marks = refl

clock_behind_example :
    (m' : TransferSummaries) × (project (event 9) summaries ≡ ok (true, m'))
    × (project marked m' ≡ ok (true, m'))
    × Shows m' transfer_id debiting
unfolding IsLater shows
clock_behind_example =
    clock_behind transfer_id summaries started debiting was_debited (event 9) marked shows refl refl
      (omega arith) (omega arith) applies marks

-- A pending transfer that was updated too late to be stuck, besides one that is stuck.
abbrev two_summaries : TransferSummaries
two_summaries =
    (b'z' ∷ [], record summary { transfer_id = b'z' ∷ []; updated_at = 8000 })
    ∷ (transfer_id, summary)
    ∷ []

stuck : list_stuck_transfers 9000 two_summaries 5 1 ≡ summary ∷ []
unfolding list_stuck_transfers list_pending_transfers sort_summaries insert_summary is_pending
    values
stuck = refl

stuck_complete_example :
    list_stuck_transfers 9000 two_summaries 5 1
    ≡ take 1 (
        select
          (λ s. leb (s.updated_at + 5 * 1000) 9000)
          (sort_summaries (select is_pending (values two_summaries))))
stuck_complete_example = stuck_complete 9000 two_summaries 5 1
