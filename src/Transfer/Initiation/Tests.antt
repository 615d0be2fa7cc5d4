-- ===== src/Transfer/Initiation/Tests.antt =====
-- The theorem about initiations at stores with no account.
use event_sourced_core_banki.Base.{ℕ, none, [], ◌∷◌}
use event_sourced_core_banki.Common.Result.{ok}
use event_sourced_core_banki.Common.Event.{CommandContext, Stamp}
use event_sourced_core_banki.Common.Money.{MoneyInput}
use event_sourced_core_banki.Account.Repository.Consistency.{
  empty_stores, empty_stores-IsConsistent,
}
use event_sourced_core_banki.Transfer.Aggregate.{initiate}
use event_sourced_core_banki.Transfer.Repository.{execute_with_retry}
use event_sourced_core_banki.Transfer.Repository.Quiet.{nobody}
use event_sourced_core_banki.Transfer.Initiation.{
  Decides, after_check, execute_initiation, initiation_outcome,
}

abbrev context : CommandContext
context = record {
  command_id = b'c' ∷ [];
  correlation_id = b'x' ∷ [];
  causation_id = none;
  actor = none;
  trace_id = none;
}

abbrev stamps : ℕ → Stamp
stamps n = record { uuid = b'u' ∷ []; now = n }

abbrev amount : MoneyInput
amount = MoneyInput.string (b'5' ∷ [])

initiation_outcome_example :
    Decides empty_stores
      (b'a' ∷ [])
      (b'b' ∷ [])
      (b'E' ∷ [])
      (after_check
        (ok tt)
        (execute_with_retry
          (b'x' ∷ [])
          (λ n. initiate (b'x' ∷ []) (b'a' ∷ []) (b'b' ∷ []) amount (b'E' ∷ []) context (stamps n))
          nobody)
        empty_stores)
      (execute_initiation
        (b'x' ∷ [])
        (b'a' ∷ [])
        (b'b' ∷ [])
        amount
        (b'E' ∷ [])
        context
        stamps
        nobody
        empty_stores)
initiation_outcome_example =
    initiation_outcome (b'x' ∷ []) (b'a' ∷ []) (b'b' ∷ []) amount (b'E' ∷ []) context stamps nobody
      empty_stores empty_stores-IsConsistent
