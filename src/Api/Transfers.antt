-- ===== src/Api/Transfers.antt =====
-- modules/transfers/transfers.controller.ts.
use event_sourced_core_banki.Base.{Option, none, some, ◌++◌, Text, text}
use event_sourced_core_banki.Common.Result.{Result, ok, err, not_found}
use event_sourced_core_banki.Infrastructure.Idempotency
use event_sourced_core_banki.Account.Repository.{AccountStores}
use event_sourced_core_banki.Transfer.Coordinator.{Bank, TransferCall}
use event_sourced_core_banki.Transfer.Initiation.{execute_initiation}
use event_sourced_core_banki.Transfer.ReadModel.{
  TransferSummary, TransferSummaries, get_transfer_summary,
}
use event_sourced_core_banki.Api.{
  ApiResponse, InitiateTransferDto, Payload, transferring, Service, Answer, answer_of,
  request_context,
}

-- `{ transferId: dto.transferId, status: 'accepted' }`
unfoldable pub reply_initiated :
    Text → Bank → Result (Unit {0}) × AccountStores → Result ApiResponse × Bank
reply_initiated transfer_id bank (ok _, stores) = (
  ok (record { transfer_id = some transfer_id; status = text "accepted" }),
  record bank { stores = stores },
)
reply_initiated transfer_id bank (err e, stores) = (err e, record bank { stores = stores })

unfoldable pub run_initiation :
    TransferCall → Option Text → InitiateTransferDto → Bank → Result ApiResponse × Bank
unfolding reply_initiated
run_initiation call key dto bank = reply_initiated dto.transfer_id bank (
    execute_initiation dto.transfer_id dto.source_account_id dto.destination_account_id dto.amount
      dto.currency (request_context key dto.transfer_id (some (text "transfer-api"))) call.stamps
      call.others bank.stores)

unfoldable pub post_transfer :
    (Text → Payload → Text) → TransferCall → Option Text → InitiateTransferDto → Service → Answer
unfolding answer_of
post_transfer hash_request call key dto service = answer_of (
    Idempotency.execute hash_request key (text "transfers.initiate") (transferring dto)
      (run_initiation call key dto) service.records service.bank)

unfoldable pub get_transfer_status : TransferSummaries → Text → Result TransferSummary
get_transfer_status summaries transfer_id = elim (get_transfer_summary summaries transfer_id) [
  | none ↦ err (not_found (text "Transfer " ++ (transfer_id ++ text " not found")))
  | some summary ↦ ok summary
]
