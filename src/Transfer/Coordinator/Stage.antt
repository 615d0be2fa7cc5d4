-- ===== src/Transfer/Coordinator/Stage.antt =====
-- A stage of the coordinator when no other instance writes: a command that starts it, a movement,
-- and a command that ends it, or one that fails the transfer when the account refuses.
use event_sourced_core_banki.Base.{◌≡◌, ◌≢◌, refl, sym, ap, subst, ◌∙◌, none, [], Text, ℤ, get}
use event_sourced_core_banki.Common.Result.{Error, ok, err, bad_request}
use event_sourced_core_banki.Common.Aggregate.{Aggregate, replay}
use event_sourced_core_banki.Common.Money.{parse_money_to_minor_units}
use event_sourced_core_banki.Infrastructure.Transactions.{ReserveTransactionInput}
use event_sourced_core_banki.Account.Aggregate.{AccountState, new_state, when}
use event_sourced_core_banki.Account.Command
use event_sourced_core_banki.Account.Command.{AccountCommand, command_account}
use event_sourced_core_banki.Account.Repository.{AccountStores}
use event_sourced_core_banki.Account.Repository.Consistency.{account_events}
use event_sourced_core_banki.Transfer.Aggregate
use event_sourced_core_banki.Transfer.Aggregate.{TransferState}
use event_sourced_core_banki.Transfer.Command.{TransferCommand, command_transfer, run_command}
use event_sourced_core_banki.Transfer.Lifecycle.Commands.{IsNamed}
use event_sourced_core_banki.Transfer.Repository.Quiet.{nobody}
use event_sourced_core_banki.Transfer.Coordinator.{
  Bank, Outcome, TransferCall, Pass, then_do, catching, execute_transfer_command, register_movement,
}
use event_sourced_core_banki.Transfer.Coordinator.Steps.{
  IsQuiet, Holds, TransferDone, execute-TransferDone,
}
use event_sourced_core_banki.Transfer.Coordinator.Movements.{
  IsCompleted, MovementDone, MovementRefused, register-MovementDone, register-MovementRefused,
  register-completed,
}

-- A stage after which the transfer is in the state `t` and the account in the state `s`. It
-- changed no other account, and the registry knows its movement as completed.
pub record StageDone (outcome : Outcome) (transfer_id account_id : Text)
    (input : ReserveTransactionInput) (before : Bank) (t : TransferState) (s : AccountState)
    : Type 0 where
  pub after : Bank
  pub answer : outcome ≡ (ok tt, after)
  pub holds : Holds after transfer_id t
  pub moved : replay when (account_events after.stores account_id) new_state ≡ ok s
  pub accounts :
      (id : Text)
      → account_id ≢ id
      → account_events after.stores id ≡ account_events before.stores id
  pub recorded : IsCompleted after.transactions input
  pub records :
      (id : Text)
      → input.transaction_id ≢ id
      → get after.transactions id ≡ get before.transactions id

-- A stage that moved no money: the transfer is in the state `t`, and every account as before.
pub record StageIdle (outcome : Outcome) (transfer_id : Text) (before : Bank) (t : TransferState)
    : Type 0 where
  pub after : Bank
  pub answer : outcome ≡ (ok tt, after)
  pub holds : Holds after transfer_id t
  pub accounts : (id : Text) → account_events after.stores id ≡ account_events before.stores id

-- A stage whose movement was refused: the transfer is in the state `t`, and every account as before.
pub record StageFailed (outcome : Outcome) (transfer_id : Text) (input : ReserveTransactionInput)
    (before : Bank) (t : TransferState) : Type 0 where
  pub after : Bank
  pub answer : outcome ≡ (ok tt, after)
  pub holds : Holds after transfer_id t
  pub accounts : (id : Text) → account_events after.stores id ≡ account_events before.stores id
  pub records :
      (id : Text)
      → input.transaction_id ≢ id
      → get after.transactions id ≡ get before.transactions id

-- A transfer command that a transfer in a state accepts.
pub record Accepts (command : TransferCommand) (call : TransferCall) (t t' : TransferState)
    : Type 0 where
  pub named : IsNamed command
  pub after : Aggregate TransferState
  pub ran :
      run_command command (call.stamps 1) (record { state = t; uncommitted_events = [] }) ≡ ok after
  pub state : after.state ≡ t'

module _ (pass : Pass) (quiet : IsQuiet pass) (start finish : TransferCommand)
    (input : ReserveTransactionInput) (n : ℤ)
    (parsed : parse_money_to_minor_units input.amount ≡ ok n) (command : AccountCommand)
    (handler : Error → Bank → Outcome) (bank : Bank) (t t1 t2 : TransferState)
    (h : Holds bank (command_transfer start) t)
    (same : command_transfer finish ≡ command_transfer start)
    (starts : Accepts start pass.starting t t1) where
  abbrev transfer_id : Text
  transfer_id = command_transfer start

  abbrev stage : Outcome
  stage = then_do (execute_transfer_command pass.starting start bank) (λ started.
      catching
        (then_do (register_movement pass.moving input command started)
          (λ moved. execute_transfer_command pass.ending finish moved))
        handler)

  started : TransferDone (execute_transfer_command pass.starting start bank) transfer_id bank t1
  started =
      subst
        (λ t'. TransferDone (execute_transfer_command pass.starting start bank) transfer_id bank t')
        starts.state
        (execute-TransferDone pass.starting quiet.starting start bank t h starts.named starts.after
          starts.ran)

  -- A later command, on a bank in which the transfer is in a known state.
  executed :
      (call : TransferCall) (calm : call.others ≡ nobody) (later : TransferCommand) (b : Bank)
      (u u' : TransferState)
      → command_transfer later ≡ command_transfer start
      → Accepts later call u u'
      → Holds b transfer_id u
      → TransferDone (execute_transfer_command call later b) transfer_id b u'
  executed call calm later b u u' e accepts hb =
      subst (λ t'. TransferDone (execute_transfer_command call later b) transfer_id b t')
        accepts.state
        (subst (λ id. TransferDone (execute_transfer_command call later b) id b accepts.after.state)
          e
          (execute-TransferDone call calm later b u (subst (λ id. Holds b id u) (sym e) hb)
            accepts.named accepts.after accepts.ran))

  ended :
      (moved : Bank)
      → Accepts finish pass.ending t1 t2
      → Holds moved transfer_id t1
      → TransferDone (execute_transfer_command pass.ending finish moved) transfer_id moved t2
  ended moved ends hm = executed pass.ending quiet.ending finish moved t1 t2 same ends hm

  ends_stage :
      {b1 b2 b3 : Bank}
      → execute_transfer_command pass.starting start bank ≡ (ok tt, b1)
      → register_movement pass.moving input command b1 ≡ (ok tt, b2)
      → execute_transfer_command pass.ending finish b2 ≡ (ok tt, b3)
      → stage ≡ (ok tt, b3)
  unfolding then_do catching
  ends_stage e1 e2 e3 = rw (e1, e2, e3) refl

  -- A movement that the registry has completed before is not run again.
  pub stage-repeated :
      Accepts finish pass.ending t1 t2
      → IsCompleted bank.transactions input
      → StageIdle stage transfer_id bank t2
  stage-repeated ends known =
      let b = started in
      let known1 = subst (λ r. IsCompleted r input) (sym b.records) known in
      let e = ended b.after ends b.holds in
      record {
        after = e.after;
        answer =
            ends_stage b.answer (register-completed pass.moving input command b.after known1)
              e.answer;
        holds = e.holds;
        accounts = λ id. e.accounts id ∙ b.accounts id;
      }

  module _ (fresh : get bank.transactions input.transaction_id ≡ none) (s : AccountState)
      (loaded : replay when (account_events bank.stores (command_account command)) new_state
        ≡ ok s) where
    abbrev account_id : Text
    account_id = command_account command

    module _ (a : Aggregate AccountState)
        (ran : Command.run_command command
            (pass.moving.stamps 1)
            (record { state = s; uncommitted_events = [] })
          ≡ ok a) where
      moved :
          MovementDone
            (register_movement pass.moving input command started.after)
            account_id
            input
            started.after
            a.state
      moved =
          register-MovementDone pass.moving quiet.moving input n parsed command started.after
            (ap (λ r. get r input.transaction_id) started.records ∙ fresh) started.holds.consistent
            s (ap (λ es. replay when es new_state) (started.accounts account_id) ∙ loaded) a ran

      -- A stage whose movement is new and that the account accepts.
      pub stage-done :
          Accepts finish pass.ending t1 t2
          → StageDone stage transfer_id account_id input bank t2 a.state
      stage-done ends =
          let b = started in
          let m = moved in
          let e = ended m.after ends (record {
            consistent = m.consistent;
            loaded =
                ap (λ es. replay Aggregate.when es Aggregate.new_state) (m.transfers transfer_id)
                ∙ b.holds.loaded;
            well = b.holds.well;
          }) in
          record {
            after = e.after;
            answer = ends_stage b.answer m.answer e.answer;
            holds = e.holds;
            moved = ap (λ es. replay when es new_state) (e.accounts account_id) ∙ m.moved;
            accounts = λ id ne. e.accounts id ∙ m.accounts id ne ∙ b.accounts id;
            recorded = subst (λ r. IsCompleted r input) (sym e.records) m.recorded;
            records = λ id ne.
                ap (λ r. get r id) e.records ∙ m.records id ne ∙ ap (λ r. get r id) b.records;
          }

    module _ (message : Text) (failing : TransferCommand) (t3 : TransferState)
        (refused : Command.run_command command
            (pass.moving.stamps 1)
            (record { state = s; uncommitted_events = [] })
          ≡ err (bad_request message))
        (handled : (b : Bank)
          → handler (bad_request message) b ≡ execute_transfer_command pass.failing failing b)
        (same_failing : command_transfer failing ≡ command_transfer start)
        (fails : Accepts failing pass.failing t1 t3) where
      turned_down :
          MovementRefused
            (register_movement pass.moving input command started.after)
            message
            input
            started.after
      turned_down =
          register-MovementRefused pass.moving quiet.moving input n parsed command started.after
            (ap (λ r. get r input.transaction_id) started.records ∙ fresh) started.holds.consistent
            s (ap (λ es. replay when es new_state) (started.accounts account_id) ∙ loaded) message
            refused

      fails_stage :
          {b1 b2 b3 : Bank}
          → execute_transfer_command pass.starting start bank ≡ (ok tt, b1)
          → register_movement pass.moving input command b1 ≡ (err (bad_request message), b2)
          → execute_transfer_command pass.failing failing b2 ≡ (ok tt, b3)
          → stage ≡ (ok tt, b3)
      unfolding then_do catching
      fails_stage {b1} {b2} e1 e2 e3 = rw (e1, e2) (handled b2 ∙ e3)

      -- A stage whose movement is new and that the account refuses.
      pub stage-failed : StageFailed stage transfer_id input bank t3
      stage-failed =
          let b = started in
          let m = turned_down in
          let hm =
            subst
              (λ (stores : AccountStores).
                Holds (record m.after { stores = stores }) transfer_id t1)
              (sym m.stores)
              (record {
                consistent = b.holds.consistent;
                loaded = b.holds.loaded;
                well = b.holds.well;
              }) in
          let e = executed pass.failing quiet.failing failing m.after t1 t3 same_failing fails hm in
          record {
            after = e.after;
            answer = fails_stage b.answer m.answer e.answer;
            holds = e.holds;
            accounts = λ id.
                e.accounts id ∙ ap (λ stores. account_events stores id) m.stores ∙ b.accounts id;
            records = λ id ne.
                ap (λ r. get r id) e.records ∙ m.records id ne ∙ ap (λ r. get r id) b.records;
          }
