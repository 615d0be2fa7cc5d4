-- ===== src/Common/Event.antt =====
-- common/domain/domain-event.ts and common/cqrs/command-context.ts: domain events and the context
-- of the command that raises them. `eventType` and `data` are one value, `EventBody`; a field that
-- an aggregate fills from a property which may still be undefined is an `Option`.
use event_sourced_core_banki.Base.{ℕ, Option, Text, text}

pub record CommandContext : Type 0 where
  pub command_id : Text
  pub correlation_id : Text
  pub causation_id : Option Text
  pub actor : Option Text
  pub trace_id : Option Text

-- 'DEBIT' | 'CREDIT'
pub data FailureStage : Type 0 where
  debit credit : FailureStage

pub data EventBody : Type 0 where
  account_created : (account_id owner_id currency : Text) → EventBody
  money_deposited : (account_id : Option Text) (amount currency transaction_id : Text) → EventBody
  money_withdrawn : (account_id : Option Text) (amount currency transaction_id : Text) → EventBody
  account_frozen : (account_id : Option Text) (reason : Text) → EventBody
  transfer_initiated :
      (transfer_id source_account_id destination_account_id amount currency : Text) → EventBody
  transfer_debit_started :
      (transfer_id : Option Text) (transaction_id : Text) (debit_attempts : ℕ) → EventBody
  transfer_debited : (transfer_id transaction_id : Option Text) → EventBody
  transfer_credit_started :
      (transfer_id : Option Text) (transaction_id : Text) (credit_attempts : ℕ) → EventBody
  transfer_completed : (transfer_id : Option Text) → EventBody
  transfer_failed : (transfer_id : Option Text) (reason : Text) (stage : FailureStage) → EventBody
  transfer_compensation_started :
      (transfer_id : Option Text) (transaction_id : Text) (compensation_attempts : ℕ) → EventBody
  transfer_compensated : (transfer_id transaction_id : Option Text) → EventBody
  -- any other `eventType`
  other : Text → EventBody

-- Times are milliseconds: an ISO text in UTC is ordered as its time is.
pub record DomainEvent : Type 0 where
  pub event_id : Text
  pub stream_id : Text
  pub stream_version : ℕ
  pub body : EventBody
  pub occurred_at : ℕ
  pub metadata : CommandContext

-- What the runtime supplies when an event is made: `randomUUID()` and `new Date()`.
pub record Stamp : Type 0 where
  pub uuid : Text
  pub now : ℕ

-- `event.eventType`
unfoldable pub event_type : EventBody → Text
event_type (account_created _ _ _) = text "AccountCreated"
event_type (money_deposited _ _ _ _) = text "MoneyDeposited"
event_type (money_withdrawn _ _ _ _) = text "MoneyWithdrawn"
event_type (account_frozen _ _) = text "AccountFrozen"
event_type (transfer_initiated _ _ _ _ _) = text "TransferInitiated"
event_type (transfer_debit_started _ _ _) = text "TransferDebitStarted"
event_type (transfer_debited _ _) = text "TransferDebited"
event_type (transfer_credit_started _ _ _) = text "TransferCreditStarted"
event_type (transfer_completed _) = text "TransferCompleted"
event_type (transfer_failed _ _ _) = text "TransferFailed"
event_type (transfer_compensation_started _ _ _) = text "TransferCompensationStarted"
event_type (transfer_compensated _ _) = text "TransferCompensated"
event_type (other t) = t
