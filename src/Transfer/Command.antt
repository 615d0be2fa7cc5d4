-- ===== src/Transfer/Command.antt =====
-- modules/transfers/application/commands and the closures of application/handlers: what each
-- command does with the transfer that the repository has loaded.
use event_sourced_core_banki.Base.{Text}
use event_sourced_core_banki.Common.Result.{Result}
use event_sourced_core_banki.Common.Event.{CommandContext, FailureStage, Stamp}
use event_sourced_core_banki.Common.Aggregate.{Aggregate}
use event_sourced_core_banki.Common.Money.{MoneyInput}
use event_sourced_core_banki.Transfer.Aggregate

pub data TransferCommand : Type 0 where
  initiate_transfer :
      (transfer_id source_account_id destination_account_id : Text) (amount : MoneyInput)
      (currency : Text) (context : CommandContext)
      → TransferCommand
  start_debit_transfer start_credit_transfer start_transfer_compensation :
      (transfer_id transaction_id : Text) (context : CommandContext) → TransferCommand
  mark_transfer_debited complete_transfer complete_transfer_compensation :
      (transfer_id : Text) (context : CommandContext) → TransferCommand
  fail_transfer :
      (transfer_id reason : Text) (stage : FailureStage) (context : CommandContext)
      → TransferCommand

-- `command.transferId`
unfoldable pub command_transfer : TransferCommand → Text
command_transfer (initiate_transfer id _ _ _ _ _) = id
command_transfer (start_debit_transfer id _ _) = id
command_transfer (start_credit_transfer id _ _) = id
command_transfer (start_transfer_compensation id _ _) = id
command_transfer (mark_transfer_debited id _) = id
command_transfer (complete_transfer id _) = id
command_transfer (complete_transfer_compensation id _) = id
command_transfer (fail_transfer id _ _ _) = id

unfoldable pub run_command :
    TransferCommand
    → Stamp
    → Aggregate Aggregate.TransferState
    → Result (Aggregate Aggregate.TransferState)
run_command (initiate_transfer id source destination amount currency context) stamp a =
    Aggregate.initiate id source destination amount currency context stamp a
run_command (start_debit_transfer _ transaction_id context) stamp a =
    Aggregate.start_debit transaction_id context stamp a
run_command (mark_transfer_debited _ context) stamp a = Aggregate.mark_debited context stamp a
run_command (start_credit_transfer _ transaction_id context) stamp a =
    Aggregate.start_credit transaction_id context stamp a
run_command (complete_transfer _ context) stamp a = Aggregate.complete context stamp a
run_command (fail_transfer _ reason stage context) stamp a =
    Aggregate.fail reason stage context stamp a
run_command (start_transfer_compensation _ transaction_id context) stamp a =
    Aggregate.start_compensation transaction_id context stamp a
run_command (complete_transfer_compensation _ context) stamp a =
    Aggregate.mark_compensated context stamp a
