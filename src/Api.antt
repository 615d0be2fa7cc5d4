-- ===== src/Api.antt =====
-- The HTTP controllers. A request is answered from the idempotency records, the bank and the read
-- models; decorators, pipes and the validation of a body are the framework's.
pub mod Accounts
pub mod Transfers
mod Tests
use event_sourced_core_banki.Base.{Option, none, Text, text}
use event_sourced_core_banki.Common.Result.{Result, ok, err}
use event_sourced_core_banki.Common.Event.{CommandContext}
use event_sourced_core_banki.Common.Money.{MoneyInput}
use event_sourced_core_banki.Common.Optional.{show_option}
use event_sourced_core_banki.Infrastructure.Idempotency.{IdempotencyRecords}
use event_sourced_core_banki.Transfer.Coordinator.{Bank}

-- `{ status }`, or `{ transferId, status }`
pub record ApiResponse : Type 0 where
  pub transfer_id : Option Text
  pub status : Text

-- The bodies of the requests.
pub record CreateAccountDto : Type 0 where
  pub account_id : Text
  pub owner_id : Text
  pub currency : Text
  pub actor : Option Text

-- of a deposit and of a withdrawal
pub record DepositMoneyDto : Type 0 where
  pub amount : MoneyInput
  pub currency : Text
  pub transaction_id : Text
  pub actor : Option Text

pub record FreezeAccountDto : Type 0 where
  pub reason : Text
  pub actor : Option Text

pub record InitiateTransferDto : Type 0 where
  pub transfer_id : Text
  pub source_account_id : Text
  pub destination_account_id : Text
  pub amount : MoneyInput
  pub currency : Text

-- What a controller hands to the idempotency service to be hashed.
pub data Payload : Type 0 where
  creating : CreateAccountDto → Payload
  moving : Text → DepositMoneyDto → Payload
  freezing : Text → FreezeAccountDto → Payload
  transferring : InitiateTransferDto → Payload

pub record Service : Type 0 where
  pub records : IdempotencyRecords ApiResponse
  pub bank : Bank

abbrev pub Answer : Type 0
Answer = Result ApiResponse × Service

unfoldable pub answer_of : Result ApiResponse × IdempotencyRecords ApiResponse × Bank → Answer
answer_of (response, records, bank) = (response, record { records = records; bank = bank })

-- `commandId` is the key, `correlationId` is drawn by the controller.
unfoldable pub request_context : Option Text → Text → Option Text → CommandContext
request_context key correlation_id actor = record {
  command_id = show_option key;
  correlation_id = correlation_id;
  causation_id = none;
  actor = actor;
  trace_id = none;
}
