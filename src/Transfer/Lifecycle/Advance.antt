-- ===== src/Transfer/Lifecycle/Advance.antt =====
-- Each command of modules/transfers/domain/transfer.aggregate.ts but the initiation moves a transfer
-- along an edge and keeps its terms.
use event_sourced_core_banki.Base.{
  ◌+◌, ◌≡◌, refl, sym, subst, none, some, Bool, true, false, not, arith, Text, is_truthy,
}
use event_sourced_core_banki.Common.Result.{ok, >>=-eq-ok, throw_if}
use event_sourced_core_banki.Common.Event.{
  CommandContext, EventBody, FailureStage, Stamp, transfer_debit_started, transfer_debited,
  transfer_credit_started, transfer_completed, transfer_failed, transfer_compensation_started,
  transfer_compensated,
}
use event_sourced_core_banki.Common.Aggregate.{Aggregate, apply}
use event_sourced_core_banki.Common.Aggregate.Raising.{apply-Raising, apply-state, throw_if-ok}
use event_sourced_core_banki.Transfer.Aggregate.{
  TransferState, debit_in_progress, debited, credit_in_progress, completed, failed,
  compensation_in_progress, compensated, when, make_event, is_one_of, failed_in_credit, guarded,
  start_debit, mark_debited, start_credit, complete, fail, start_compensation, mark_compensated,
}
use event_sourced_core_banki.Transfer.Lifecycle.{
  phase, phase_of, is_edge, Raises, SameTerms, Advances, absent,
}

guarded-ok :
    (allowed : Bool) (what : Text) (body : EventBody) (context : CommandContext) (stamp : Stamp)
    (a : Aggregate TransferState) {a' : Aggregate TransferState}
    → guarded allowed what body context stamp a ≡ ok a'
    → (allowed ≡ true) × (apply when (make_event a.state body context stamp) false a ≡ ok a')
unfolding guarded
guarded-ok true what body context stamp a h = (refl, h)
guarded-ok false what body context stamp a h = cc

pub apply-Raises :
    (body : EventBody) (context : CommandContext) (stamp : Stamp) (a : Aggregate TransferState)
    {a' : Aggregate TransferState}
    → apply when (make_event a.state body context stamp) false a ≡ ok a'
    → Raises a a'
apply-Raises body context stamp a h =
    apply-Raising when (λ s. s.version) a (make_event a.state body context stamp)
      (unfold make_event in refl) h

SameTerms-refl : (s : TransferState) → SameTerms s s
SameTerms-refl s = record {
  transfer_id = refl;
  source = refl;
  destination = refl;
  amount = refl;
  currency = refl;
  created = refl;
}

-- A command advances a transfer if its event keeps the terms and moves along an edge.
advance :
    (body : EventBody) (context : CommandContext) (stamp : Stamp) (a : Aggregate TransferState)
    {a' : Aggregate TransferState} (s : TransferState)
    → when (make_event a.state body context stamp) a.state ≡ ok s
    → apply when (make_event a.state body context stamp) false a ≡ ok a'
    → is_edge (phase a.state) (phase s) ≡ true
    → SameTerms a.state s
    → is_edge absent (phase s) ≡ false
    → Advances a a'
advance body context stamp a {a'} s w h edge terms later =
    let e : a'.state ≡ s = apply-state when a (make_event a.state body context stamp) w h in
    record {
      edge = subst (λ t. is_edge (phase a.state) (phase t) ≡ true) (sym e) edge;
      terms = subst (SameTerms a.state) (sym e) terms;
      later = subst (λ t. is_edge absent (phase t) ≡ false) (sym e) later;
      raises = apply-Raises body context stamp a h;
    }

not-false : (b : Bool) → not b ≡ false → b ≡ true
not-false true h = refl
not-false false h = cc

-- What every event sets.
abbrev stamped : TransferState → Stamp → TransferState
stamped s stamp = record s { version = s.version + 1; updated_at = some stamp.now }

module _ (context : CommandContext) (stamp : Stamp) (a : Aggregate TransferState)
    {a' : Aggregate TransferState} where
  pub start_debit-Advances :
      (transaction_id : Text) → start_debit transaction_id context stamp a ≡ ok a' → Advances a a'
  unfolding start_debit when make_event phase_of is_edge
  start_debit-Advances transaction_id h =
      let (allowed, h1) = guarded-ok _ _ _ _ _ a h in
      advance
        (transfer_debit_started a.state.transfer_id transaction_id (a.state.debit_attempts + 1))
        context stamp a
        (record (stamped a.state stamp) {
          status = some debit_in_progress;
          source_debit_transaction_id = some transaction_id;
          debit_attempts = a.state.debit_attempts + 1;
          failure_reason = none;
          failure_stage = none;
        })
        refl h1 (ground arith) (ground arith) (ground arith)

  pub mark_debited-Advances : mark_debited context stamp a ≡ ok a' → Advances a a'
  unfolding mark_debited when make_event phase_of is_edge
  mark_debited-Advances h =
      let (allowed, h1) = guarded-ok _ _ _ _ _ a h in
      advance (transfer_debited a.state.transfer_id a.state.source_debit_transaction_id) context
        stamp a (record (stamped a.state stamp) { status = some debited }) refl h1 (ground arith)
        (ground arith) (ground arith)

  pub start_credit-Advances :
      (transaction_id : Text) → start_credit transaction_id context stamp a ≡ ok a' → Advances a a'
  unfolding start_credit when make_event phase_of is_edge
  start_credit-Advances transaction_id h =
      let (allowed, h1) = guarded-ok _ _ _ _ _ a h in
      advance
        (transfer_credit_started a.state.transfer_id transaction_id (a.state.credit_attempts + 1))
        context stamp a
        (record (stamped a.state stamp) {
          status = some credit_in_progress;
          destination_credit_transaction_id = some transaction_id;
          credit_attempts = a.state.credit_attempts + 1;
          failure_reason = none;
          failure_stage = none;
        })
        refl h1 (ground arith) (ground arith) (ground arith)

  pub complete-Advances : complete context stamp a ≡ ok a' → Advances a a'
  unfolding complete when make_event phase_of is_edge
  complete-Advances h =
      let (allowed, h1) = guarded-ok _ _ _ _ _ a h in
      advance (transfer_completed a.state.transfer_id) context stamp a
        (record (stamped a.state stamp) { status = some completed }) refl h1 (ground arith)
        (ground arith) (ground arith)

  pub fail-Advances :
      (reason : Text) (stage : FailureStage)
      → fail reason stage context stamp a ≡ ok a'
      → Advances a a'
  unfolding fail when make_event phase_of is_edge
  fail-Advances reason stage h =
      let (_, open_step, h1) =
        >>=-eq-ok (throw_if (not (is_one_of a.state.status debit_in_progress credit_in_progress)) _)
          _ h in
      let (_, given, h2) = >>=-eq-ok (throw_if (not (is_truthy reason)) _) _ h1 in
      let allowed = not-false _ (throw_if-ok _ _ open_step) in
      advance (transfer_failed a.state.transfer_id reason stage) context stamp a
        (record (stamped a.state stamp) {
          status = some failed;
          failure_reason = some reason;
          failure_stage = some stage;
        })
        refl h2 (ground arith) (ground arith) (ground arith)

  pub start_compensation-Advances :
      (transaction_id : Text)
      → start_compensation transaction_id context stamp a ≡ ok a'
      → Advances a a'
  unfolding start_compensation when make_event phase_of is_edge
  start_compensation-Advances transaction_id h =
      let (_, open_step, h1) =
        >>=-eq-ok (throw_if (not (is_one_of a.state.status failed compensation_in_progress)) _) _
          h in
      let (_, in_credit, h2) =
        >>=-eq-ok (throw_if (not (failed_in_credit a.state.failure_stage)) _) _ h1 in
      let allowed = not-false _ (throw_if-ok _ _ open_step) in
      let staged = not-false _ (throw_if-ok _ _ in_credit) in
      advance
        (transfer_compensation_started a.state.transfer_id transaction_id
          (a.state.compensation_attempts + 1))
        context stamp a
        (record (stamped a.state stamp) {
          status = some compensation_in_progress;
          compensation_transaction_id = some transaction_id;
          compensation_attempts = a.state.compensation_attempts + 1;
        })
        refl h2 (ground arith) (ground arith) (ground arith)

  pub mark_compensated-Advances : mark_compensated context stamp a ≡ ok a' → Advances a a'
  unfolding mark_compensated when make_event phase_of is_edge
  mark_compensated-Advances h =
      let (allowed, h1) = guarded-ok _ _ _ _ _ a h in
      advance (transfer_compensated a.state.transfer_id a.state.compensation_transaction_id) context
        stamp a (record (stamped a.state stamp) { status = some compensated }) refl h1
        (ground arith) (ground arith) (ground arith)
