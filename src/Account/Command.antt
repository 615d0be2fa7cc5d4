-- ===== src/Account/Command.antt =====
-- modules/accounts/application/commands and the closures of application/handlers: what each
-- command does with the account that the repository has loaded.
use event_sourced_core_banki.Base.{Text}
use event_sourced_core_banki.Common.Result.{Result}
use event_sourced_core_banki.Common.Event.{CommandContext, Stamp}
use event_sourced_core_banki.Common.Aggregate.{Aggregate}
use event_sourced_core_banki.Common.Money.{MoneyInput}
use event_sourced_core_banki.Account.Aggregate.{AccountState, create, deposit, withdraw, freeze}

pub data AccountCommand : Type 0 where
  create_account : (account_id owner_id currency : Text) (context : CommandContext) → AccountCommand
  deposit_money withdraw_money :
      (account_id : Text) (amount : MoneyInput) (currency : Text) (context : CommandContext)
      (transaction_id : Text)
      → AccountCommand
  freeze_account : (account_id reason : Text) (context : CommandContext) → AccountCommand

-- `command.accountId`
unfoldable pub command_account : AccountCommand → Text
command_account (create_account account_id _ _ _) = account_id
command_account (deposit_money account_id _ _ _ _) = account_id
command_account (withdraw_money account_id _ _ _ _) = account_id
command_account (freeze_account account_id _ _) = account_id

unfoldable pub run_command :
    AccountCommand → Stamp → Aggregate AccountState → Result (Aggregate AccountState)
run_command (create_account account_id owner_id currency context) stamp a =
    create account_id owner_id currency context stamp a
run_command (deposit_money _ amount currency context transaction_id) stamp a =
    deposit amount currency transaction_id context stamp a
run_command (withdraw_money _ amount currency context transaction_id) stamp a =
    withdraw amount currency transaction_id context stamp a
run_command (freeze_account _ reason context) stamp a = freeze reason context stamp a
