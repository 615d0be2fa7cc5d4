-- ===== src/Transfer/Lifecycle.antt =====
-- The life of a transfer: its phases and the edges between them.
pub mod Advance
pub mod Commands
use event_sourced_core_banki.Base.{
  ℕ, ◌+◌, ◌≡◌, ◌≢◌, refl, sym, ap, subst, ◌∙◌, Option, none, some, Bool, true, false, not, ◌||◌, [],
  ◌∷◌, ◌++◌, arith, Text, text, is_truthy, ◌==◌, eq_iff, ℤ, pos, leb_ℤ, ◌≤ℤ◌, ◌⊎◌, inl, inr,
}
use event_sourced_core_banki.Common.Result.{
  Result, Error, ok, err, bad_request, ◌>>=◌, >>=-eq-ok, throw_if,
}
use event_sourced_core_banki.Common.Optional.{is_set}
use event_sourced_core_banki.Common.Event.{
  CommandContext, DomainEvent, EventBody, FailureStage, debit, credit, Stamp, transfer_initiated,
  transfer_debit_started, transfer_debited, transfer_credit_started, transfer_completed,
  transfer_failed, transfer_compensation_started, transfer_compensated,
}
use event_sourced_core_banki.Common.Aggregate.{Aggregate, apply}
use event_sourced_core_banki.Common.Aggregate.Raising.{
  Raising, apply-Raising, apply-state, throw_if-ok,
}
use event_sourced_core_banki.Common.Money.{
  MoneyInput, parse_money_to_minor_units, format_minor_units_to_money,
}
use event_sourced_core_banki.Common.Money.RoundTrip.{parse-format}
use event_sourced_core_banki.Transfer.Aggregate.{
  TransferStatus, TransferState, initiated, debit_in_progress, debited, credit_in_progress,
  completed, failed, compensation_in_progress, compensated, when, make_event, has_status, is_one_of,
  failed_in_credit, initiate, guarded, start_debit, mark_debited, start_credit, complete, fail,
  start_compensation, mark_compensated,
}

pub data Phase : Type 0 where
  absent waiting debiting held crediting done : Phase
  failed_debit failed_credit refunding refunded : Phase

unfoldable pub phase_of : Option TransferStatus → Option FailureStage → Phase
phase_of none stage = absent
phase_of (some initiated) stage = waiting
phase_of (some debit_in_progress) stage = debiting
phase_of (some debited) stage = held
phase_of (some credit_in_progress) stage = crediting
phase_of (some completed) stage = done
phase_of (some failed) (some credit) = failed_credit
phase_of (some failed) _ = failed_debit
phase_of (some compensation_in_progress) stage = refunding
phase_of (some compensated) stage = refunded

abbrev pub phase : TransferState → Phase
phase s = phase_of s.status s.failure_stage

-- The edges of the diagram. A started step may start again; `fail` takes the stage from its caller.
unfoldable pub is_edge : Phase → Phase → Bool
is_edge absent waiting = true
is_edge waiting debiting = true
is_edge debiting debiting = true
is_edge debiting held = true
is_edge debiting failed_debit = true
is_edge debiting failed_credit = true
is_edge held crediting = true
is_edge crediting crediting = true
is_edge crediting done = true
is_edge crediting failed_debit = true
is_edge crediting failed_credit = true
is_edge failed_credit refunding = true
is_edge refunding refunding = true
is_edge refunding refunded = true
is_edge _ _ = false

abbrev pub Raises : Aggregate TransferState → Aggregate TransferState → Type 0
Raises = Raising when (λ s. s.version)

-- What a transfer is about stays as it is from its initiation on.
pub record SameTerms (s s' : TransferState) : Type 0 where
  pub transfer_id : s'.transfer_id ≡ s.transfer_id
  pub source : s'.source_account_id ≡ s.source_account_id
  pub destination : s'.destination_account_id ≡ s.destination_account_id
  pub amount : s'.amount_minor_units ≡ s.amount_minor_units
  pub currency : s'.currency ≡ s.currency
  pub created : s'.created_at ≡ s.created_at

-- A command that is not the initiation.
pub record Advances (a a' : Aggregate TransferState) : Type 0 where
  pub edge : is_edge (phase a.state) (phase a'.state) ≡ true
  pub terms : SameTerms a.state a'.state
  -- no such command initiates
  pub later : is_edge absent (phase a'.state) ≡ false
  pub raises : Raises a a'

-- A transfer that has been initiated: its terms are those that `initiate` checked.
pub record IsAgreed (s : TransferState) : Type 0 where
  pub source : Text
  pub destination : Text
  pub has_source : s.source_account_id ≡ some source
  pub has_destination : s.destination_account_id ≡ some destination
  pub distinct : source ≢ destination
  pub positive : pos 1 ≤ℤ s.amount_minor_units
  pub has_id : is_set s.transfer_id ≡ true

abbrev pub IsWell : TransferState → Type 0
IsWell s = ((s.status ≡ none) × (is_set s.transfer_id ≡ false)) ⊎ IsAgreed s

pub IsAgreed-SameTerms : {s s' : TransferState} → SameTerms s s' → IsAgreed s → IsAgreed s'
IsAgreed-SameTerms t g = record {
  source = g.source;
  destination = g.destination;
  has_source = t.source ∙ g.has_source;
  has_destination = t.destination ∙ g.has_destination;
  distinct = g.distinct;
  positive = rw t.amount g.positive;
  has_id = ap is_set t.transfer_id ∙ g.has_id;
}
