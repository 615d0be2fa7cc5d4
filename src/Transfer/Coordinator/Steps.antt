-- ===== src/Transfer/Coordinator/Steps.antt =====
-- What one command of the coordinator does to the bank when no other instance writes.
use event_sourced_core_banki.Base.{
  ℕ, ◌≡◌, ◌≢◌, refl, sym, ap, subst, ◌∙◌, [], ◌∷◌, ◌++◌, append-nil, List, drop, arith, Text, text,
  ◌==◌, eq_iff, Bool-cases, inl, inr,
}
use event_sourced_core_banki.Common.Result.{ok}
use event_sourced_core_banki.Common.Event.{DomainEvent}
use event_sourced_core_banki.Common.Aggregate.{Aggregate, replay}
use event_sourced_core_banki.Infrastructure.EventStore.{stream}
use event_sourced_core_banki.Account.Aggregate.{account_stream}
use event_sourced_core_banki.Account.Repository.Consistency.{account_events, IsConsistent}
use event_sourced_core_banki.Account.Repository.Foreign.{grown-IsConsistent}
use event_sourced_core_banki.Account.Repository.Quiet
use event_sourced_core_banki.Account.Repository.Quiet.{Appended, quiet_success, quiet_refusal}
use event_sourced_core_banki.Transfer.Aggregate.{TransferState, new_state, transfer_stream, when}
use event_sourced_core_banki.Transfer.Command.{TransferCommand, command_transfer, run_command}
use event_sourced_core_banki.Transfer.Lifecycle.{IsWell}
use event_sourced_core_banki.Transfer.Lifecycle.Commands.{IsNamed}
use event_sourced_core_banki.Transfer.Repository
use event_sourced_core_banki.Transfer.Repository.{execute_with_retry}
use event_sourced_core_banki.Transfer.Repository.Quiet.{
  nobody, transfer_events, operation, transfer_success,
}
use event_sourced_core_banki.Transfer.Coordinator.{
  Bank, Outcome, TransferCall, Pass, execute_transfer_command,
}

-- The streams of accounts and of transfers are apart.
pub streams_apart :
    (account_id transfer_id : Text) → account_stream account_id ≢ transfer_stream transfer_id
unfolding account_stream transfer_stream text
streams_apart account_id transfer_id e =
    let first : ◌≡◌ {A = ℕ} 97 116 = ap (λ (t : Text). elim t [ [] ↦ 0 | c ∷ r ↦ c ]) e in
    omega (arith, first)

pub account_stream-injective : (a b : Text) → account_stream a ≡ account_stream b → a ≡ b
unfolding account_stream text
account_stream-injective a b e = ap (λ t. drop 8 t) e

-- No other instance writes during the pass.
pub record IsQuiet (pass : Pass) : Type 0 where
  pub starting : pass.starting.others ≡ nobody
  pub moving : pass.moving.others ≡ Quiet.nobody
  pub ending : pass.ending.others ≡ nobody
  pub failing : pass.failing.others ≡ nobody

-- The state of a transfer in a consistent bank.
pub record Holds (bank : Bank) (transfer_id : Text) (s : TransferState) : Type 0 where
  pub consistent : IsConsistent bank.stores
  pub loaded : replay when (transfer_events bank.stores.event_store transfer_id) new_state ≡ ok s
  pub well : IsWell s

-- A command that was done to a transfer, which is then in the state `s`. It moved no money.
pub record TransferDone (outcome : Outcome) (transfer_id : Text) (before : Bank) (s : TransferState)
    : Type 0 where
  pub after : Bank
  pub answer : outcome ≡ (ok tt, after)
  pub holds : Holds after transfer_id s
  pub accounts : (id : Text) → account_events after.stores id ≡ account_events before.stores id
  pub records : after.transactions ≡ before.transactions

module _ (call : TransferCall) (quiet : call.others ≡ nobody) (command : TransferCommand)
    (bank : Bank) (s : TransferState) (h : Holds bank (command_transfer command) s)
    (named : IsNamed command) (a : Aggregate TransferState)
    (ran : run_command command (call.stamps 1) (record { state = s; uncommitted_events = [] })
      ≡ ok a) where
  abbrev transfer_id : Text
  transfer_id = command_transfer command

  abbrev appended :
      Repository.Quiet.Appended
        (execute_with_retry transfer_id
          (operation command call.stamps)
          nobody
          bank.stores.event_store)
        transfer_id
        bank.stores.event_store
        a.state
  appended =
      transfer_success transfer_id command call.stamps bank.stores.event_store h.consistent.valid s
        h.loaded h.well named a ran

  abbrev after_command : Bank
  after_command = record bank { stores = record bank.stores { event_store = appended.after } }

  answered : execute_transfer_command call command bank ≡ (ok tt, after_command)
  unfolding execute_transfer_command
  answered = rw (quiet, appended.answer) refl

  grows :
      (k : Text)
      → (tail : List DomainEvent) × (stream appended.after k
          ≡ stream bank.stores.event_store k ++ tail)
  grows k = elim (Bool-cases (transfer_stream transfer_id == k)) [
    | inl e ↦ (
      appended.event ∷ [],
      subst (λ j. stream appended.after j ≡ stream bank.stores.event_store j ++ appended.event ∷ [])
          ((eq_iff (transfer_stream transfer_id) k).0 e) appended.wrote,
    )
    | inr e ↦ (
      [],
      appended.elsewhere k (λ p. cc ((eq_iff (transfer_stream transfer_id) k).1 p))
          ∙ sym (append-nil (stream bank.stores.event_store k)),
    )
  ]

  same_account :
      (id : Text)
      → stream appended.after (account_stream id)
        ≡ stream bank.stores.event_store (account_stream id)
  same_account id =
      appended.elsewhere (account_stream id) (λ p. streams_apart id transfer_id (sym p))

  -- A command that the transfer accepts.
  pub execute-TransferDone :
      TransferDone (execute_transfer_command call command bank) transfer_id bank a.state
  execute-TransferDone = record {
    after = after_command;
    answer = answered;
    holds = record {
      consistent =
          grown-IsConsistent bank.stores h.consistent appended.after appended.valid grows
            same_account;
      loaded = appended.result;
      well = appended.well;
    };
    accounts = same_account;
    records = refl;
  }
