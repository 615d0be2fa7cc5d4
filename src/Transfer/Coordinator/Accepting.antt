-- ===== src/Transfer/Coordinator/Accepting.antt =====
-- What the commands of the coordinator make of a transfer, and its movements of an account.
use event_sourced_core_banki.Base.{
  ◌+◌, ◌≡◌, refl, none, some, true, [], ◌∷◌, arith, Text, is_truthy, ℤ, pos, negsuc, ◌≤ℤ◌, ◌*◌,
}
use event_sourced_core_banki.Common.Result.{ok}
use event_sourced_core_banki.Common.Event.{
  CommandContext, FailureStage, Stamp, transfer_debit_started, transfer_debited,
  transfer_credit_started, transfer_completed, transfer_failed, transfer_compensation_started,
  transfer_compensated,
}
use event_sourced_core_banki.Common.Aggregate.{apply}
use event_sourced_core_banki.Common.Money.{MoneyInput, parse_money_to_minor_units, to_string}
use event_sourced_core_banki.Common.Money.Scale.{parse-to_string}
use event_sourced_core_banki.Transfer.Aggregate.{
  TransferState, initiated, debit_in_progress, debited, credit_in_progress, completed, failed,
  compensation_in_progress, compensated, when, make_event, has_status, is_one_of, failed_in_credit,
  guarded, start_debit, mark_debited, start_credit, complete, fail, start_compensation,
  mark_compensated,
}
use event_sourced_core_banki.Transfer.Command.{
  start_debit_transfer, mark_transfer_debited, start_credit_transfer, complete_transfer,
  fail_transfer, start_transfer_compensation, complete_transfer_compensation, run_command,
}
use event_sourced_core_banki.Transfer.Lifecycle.Commands.{IsNamed}
use event_sourced_core_banki.Transfer.Coordinator.{TransferCall}
use event_sourced_core_banki.Transfer.Coordinator.Stage.{Accepts}

-- What every event sets.
abbrev pub stamped : TransferState → Stamp → TransferState
stamped t stamp = record t { version = t.version + 1; updated_at = some stamp.now }

-- The states after the commands.
abbrev pub after_start_debit : TransferState → Text → Stamp → TransferState
after_start_debit t transaction_id stamp = record (stamped t stamp) {
  status = some debit_in_progress;
  source_debit_transaction_id = some transaction_id;
  debit_attempts = t.debit_attempts + 1;
  failure_reason = none;
  failure_stage = none;
}

abbrev pub after_mark_debited : TransferState → Stamp → TransferState
after_mark_debited t stamp = record (stamped t stamp) { status = some debited }

abbrev pub after_start_credit : TransferState → Text → Stamp → TransferState
after_start_credit t transaction_id stamp = record (stamped t stamp) {
  status = some credit_in_progress;
  destination_credit_transaction_id = some transaction_id;
  credit_attempts = t.credit_attempts + 1;
  failure_reason = none;
  failure_stage = none;
}

abbrev pub after_complete : TransferState → Stamp → TransferState
after_complete t stamp = record (stamped t stamp) { status = some completed }

abbrev pub after_fail : TransferState → Text → FailureStage → Stamp → TransferState
after_fail t reason stage stamp = record (stamped t stamp) {
  status = some failed;
  failure_reason = some reason;
  failure_stage = some stage;
}

abbrev pub after_start_compensation : TransferState → Text → Stamp → TransferState
after_start_compensation t transaction_id stamp = record (stamped t stamp) {
  status = some compensation_in_progress;
  compensation_transaction_id = some transaction_id;
  compensation_attempts = t.compensation_attempts + 1;
}

abbrev pub after_compensated : TransferState → Stamp → TransferState
after_compensated t stamp = record (stamped t stamp) { status = some compensated }

module _ (transfer_id : Text) (context : CommandContext) (call : TransferCall)
    (t : TransferState) where
  abbrev stamp : Stamp
  stamp = call.stamps 1

  pub start_debit-Accepts :
      (transaction_id : Text)
      → is_one_of t.status initiated debit_in_progress ≡ true
      → Accepts
          (start_debit_transfer transfer_id transaction_id context)
          call
          t
          (after_start_debit t transaction_id stamp)
  unfolding IsNamed run_command start_debit guarded apply when make_event
  start_debit-Accepts transaction_id h = record {
    named = tt;
    after = record {
      state = after_start_debit t transaction_id stamp;
      uncommitted_events =
          make_event t (transfer_debit_started t.transfer_id transaction_id (t.debit_attempts + 1))
            context stamp
          ∷ [];
    };
    ran = rw h refl;
    state = refl;
  }

  pub mark_debited-Accepts :
      has_status t.status debit_in_progress ≡ true
      → Accepts (mark_transfer_debited transfer_id context) call t (after_mark_debited t stamp)
  unfolding IsNamed run_command mark_debited guarded apply when make_event
  mark_debited-Accepts h = record {
    named = tt;
    after = record {
      state = after_mark_debited t stamp;
      uncommitted_events =
          make_event t (transfer_debited t.transfer_id t.source_debit_transaction_id) context stamp
          ∷ [];
    };
    ran = rw h refl;
    state = refl;
  }

  pub start_credit-Accepts :
      (transaction_id : Text)
      → is_one_of t.status debited credit_in_progress ≡ true
      → Accepts
          (start_credit_transfer transfer_id transaction_id context)
          call
          t
          (after_start_credit t transaction_id stamp)
  unfolding IsNamed run_command start_credit guarded apply when make_event
  start_credit-Accepts transaction_id h = record {
    named = tt;
    after = record {
      state = after_start_credit t transaction_id stamp;
      uncommitted_events =
          make_event t
            (transfer_credit_started t.transfer_id transaction_id (t.credit_attempts + 1)) context
            stamp
          ∷ [];
    };
    ran = rw h refl;
    state = refl;
  }

  pub complete-Accepts :
      has_status t.status credit_in_progress ≡ true
      → Accepts (complete_transfer transfer_id context) call t (after_complete t stamp)
  unfolding IsNamed run_command complete guarded apply when make_event
  complete-Accepts h = record {
    named = tt;
    after = record {
      state = after_complete t stamp;
      uncommitted_events = make_event t (transfer_completed t.transfer_id) context stamp ∷ [];
    };
    ran = rw h refl;
    state = refl;
  }

  pub fail-Accepts :
      (reason : Text) (stage : FailureStage)
      → is_one_of t.status debit_in_progress credit_in_progress ≡ true
      → is_truthy reason ≡ true
      → Accepts
          (fail_transfer transfer_id reason stage context)
          call
          t
          (after_fail t reason stage stamp)
  unfolding IsNamed run_command fail apply when make_event
  fail-Accepts reason stage h given = record {
    named = tt;
    after = record {
      state = after_fail t reason stage stamp;
      uncommitted_events =
          make_event t (transfer_failed t.transfer_id reason stage) context stamp ∷ [];
    };
    ran = rw (h, given) refl;
    state = refl;
  }

  pub start_compensation-Accepts :
      (transaction_id : Text)
      → is_one_of t.status failed compensation_in_progress ≡ true
      → failed_in_credit t.failure_stage ≡ true
      → Accepts
          (start_transfer_compensation transfer_id transaction_id context)
          call
          t
          (after_start_compensation t transaction_id stamp)
  unfolding IsNamed run_command start_compensation apply when make_event
  start_compensation-Accepts transaction_id h staged = record {
    named = tt;
    after = record {
      state = after_start_compensation t transaction_id stamp;
      uncommitted_events =
          make_event t
            (transfer_compensation_started t.transfer_id transaction_id
              (t.compensation_attempts + 1))
            context stamp
          ∷ [];
    };
    ran = rw (h, staged) refl;
    state = refl;
  }

  pub mark_compensated-Accepts :
      has_status t.status compensation_in_progress ≡ true
      → Accepts
          (complete_transfer_compensation transfer_id context)
          call
          t
          (after_compensated t stamp)
  unfolding IsNamed run_command mark_compensated guarded apply when make_event
  mark_compensated-Accepts h = record {
    named = tt;
    after = record {
      state = after_compensated t stamp;
      uncommitted_events =
          make_event t (transfer_compensated t.transfer_id t.compensation_transaction_id) context
            stamp
          ∷ [];
    };
    ran = rw h refl;
    state = refl;
  }

-- The registry can parse the text of a positive amount.
pub parse-positive :
    (z : ℤ)
    → pos 1 ≤ℤ z
    → (n : ℤ) × (parse_money_to_minor_units (MoneyInput.string (to_string z)) ≡ ok n)
parse-positive (pos n) h = (pos (n * 100), parse-to_string n)
parse-positive (negsuc n) h = absurd (omega (arith, h))
