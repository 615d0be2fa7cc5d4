-- ===== src/Transfer/Tests.antt =====
-- The theorems about transfers at a transfer that is initiated and then debited.
use event_sourced_core_banki.Base.{
  ◌≡◌, ◌≢◌, refl, none, some, [], ◌∷◌, inr, pos, ◌==◌, int_laws, eq_iff, arith,
}
use event_sourced_core_banki.Common.Result.{ok}
use event_sourced_core_banki.Common.Event.{CommandContext, Stamp, transfer_debit_started}
use event_sourced_core_banki.Common.Aggregate.{Aggregate, apply}
use event_sourced_core_banki.Transfer.Aggregate.{
  TransferState, initiated, debit_in_progress, completed, new_state, make_event, start_debit,
  guarded, when,
}
use event_sourced_core_banki.Transfer.Command.{TransferCommand, start_debit_transfer, run_command}
use event_sourced_core_banki.Transfer.Lifecycle.{IsAgreed, phase_of}
use event_sourced_core_banki.Transfer.Lifecycle.Commands.{
  Follows, IsNamed, is_final, run_command-Follows, final_refuses,
}

abbrev context : CommandContext
context = record {
  command_id = b'c' ∷ [];
  correlation_id = b'r' ∷ [];
  causation_id = none;
  actor = none;
  trace_id = none;
}

abbrev stamp : Stamp
stamp = record { uuid = b'u' ∷ []; now = 9 }

abbrev agreed : TransferState
agreed = record new_state {
  transfer_id = some (b'x' ∷ []);
  source_account_id = some (b'a' ∷ []);
  destination_account_id = some (b'b' ∷ []);
  amount_minor_units = pos 250;
  currency = some (b'E' ∷ []);
  status = some initiated;
  version = 1;
}

abbrev waiting_transfer : Aggregate TransferState
waiting_transfer = record { state = agreed; uncommitted_events = [] }

abbrev debiting_transfer : Aggregate TransferState
debiting_transfer = record {
  state = record agreed {
    status = some debit_in_progress;
    source_debit_transaction_id = some (b't' ∷ []);
    debit_attempts = 1;
    version = 2;
    updated_at = some 9;
  };
  uncommitted_events =
      make_event agreed (transfer_debit_started (some (b'x' ∷ [])) (b't' ∷ []) 1) context stamp
      ∷ [];
}

parties-IsAgreed :
    (s : TransferState)
    → s.source_account_id ≡ some (b'a' ∷ [])
    → s.destination_account_id ≡ some (b'b' ∷ [])
    → s.amount_minor_units ≡ pos 250
    → s.transfer_id ≡ some (b'x' ∷ [])
    → IsAgreed s
unfolding ◌==◌
parties-IsAgreed s e f g h = record {
  source = b'a' ∷ [];
  destination = b'b' ∷ [];
  has_source = e;
  has_destination = f;
  distinct = λ same. ground (arith, (eq_iff (b'a' ∷ []) (b'b' ∷ [])).1 same);
  positive = rw g (omega int_laws);
  has_id = rw h refl;
}

abbrev debit_start : TransferCommand
debit_start = start_debit_transfer (b'x' ∷ []) (b't' ∷ []) context

debits : run_command debit_start stamp waiting_transfer ≡ ok debiting_transfer
unfolding run_command start_debit guarded apply when make_event
debits = refl

run_command-Follows_example : Follows waiting_transfer debiting_transfer
unfolding IsNamed
run_command-Follows_example =
    run_command-Follows debit_start stamp waiting_transfer debiting_transfer
      (inr (parties-IsAgreed agreed refl refl refl refl)) tt debits

abbrev completed_transfer : Aggregate TransferState
completed_transfer = record {
  state = record agreed { status = some completed; version = 6 };
  uncommitted_events = [];
}

final_refuses_example : run_command debit_start stamp completed_transfer ≢ ok debiting_transfer
unfolding IsNamed is_final phase_of
final_refuses_example =
    final_refuses debit_start stamp completed_transfer debiting_transfer
      (inr (parties-IsAgreed completed_transfer.state refl refl refl refl)) tt refl
