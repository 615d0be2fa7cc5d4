-- ===== src/Api/Tests.antt =====
-- A deposit that is requested twice, under two keys.
use event_sourced_core_banki.Base.{
  text, ℕ, arith, ◌≡◌, refl, ap, ◌∙◌, none, some, [], ◌∷◌, Text, pos, get,
}
use event_sourced_core_banki.Common.Result.{ok}
use event_sourced_core_banki.Common.Money.{MoneyInput, parse_money_to_minor_units}
use event_sourced_core_banki.Infrastructure.Transactions.{accepted, deposit}
use event_sourced_core_banki.Account.Command.{command_account}
use event_sourced_core_banki.Account.Repository.Quiet.{nobody}
use event_sourced_core_banki.Transfer.Coordinator.{AccountCall, answer_accepted, run_movement}
use event_sourced_core_banki.Transfer.Coordinator.Saga.Accounts.{
  alice, euro, stamps, payment, opening, paying,
}
use event_sourced_core_banki.Api.{Service, DepositMoneyDto, Payload, moving, request_context}
use event_sourced_core_banki.Api.Accounts.{post_deposit, run_transaction, transaction_input}
use event_sourced_core_banki.Api.Accounts.Requests.{handled_by, accepted_reply, run_transaction-new}
use event_sourced_core_banki.Api.Accounts.Once.{IsOnce, deposit-IsOnce}

abbrev hash : Text → Payload → Text
hash operation payload = operation

abbrev call : AccountCall
call = record { stamps = stamps; others = nobody }

abbrev dto : DepositMoneyDto
dto = record {
  amount = MoneyInput.string (b'7' ∷ []);
  currency = euro;
  transaction_id = b'd' ∷ [];
  actor = none;
}

abbrev service : Service
service = record { records = []; bank = record { stores = opening.after; transactions = [] } }

moved : run_movement call payment opening.after ≡ (ok accepted, paying.after)
unfolding run_movement answer_accepted command_account
moved = rw (paying.answer) refl

parsed : parse_money_to_minor_units dto.amount ≡ ok (pos 700)
unfolding parse_money_to_minor_units
parsed = refl

done :
    (post_deposit hash call (b'r' ∷ []) (some (b'c' ∷ [])) alice dto service).0 ≡ ok accepted_reply
unfolding post_deposit request_context get transaction_input
done =
    (handled_by hash (b'c' ∷ []) (text "accounts.deposit") (moving alice dto)
      (run_transaction call (transaction_input alice deposit (some (b'c' ∷ [])) dto) payment)
      service refl refl _ refl).0
    ∙ run_transaction-new (transaction_input alice deposit (some (b'c' ∷ [])) dto) (pos 700) call
        payment service.bank paying.after refl parsed moved

keys_apart : ◌≡◌ {A = Text} (b'c' ∷ []) (b'k' ∷ []) → ⊥
keys_apart e =
    let first : ◌≡◌ {A = ℕ} 99 107 = ap (λ (t : Text). elim t [ [] ↦ 0 | c ∷ r ↦ c ]) e in
    omega (arith, first)

deposit-IsOnce_example :
    IsOnce (post_deposit hash call (b'r' ∷ []) (some (b'c' ∷ [])) alice dto service) (
      post_deposit hash call
        (b'q' ∷ [])
        (some (b'k' ∷ []))
        alice
        dto
        (post_deposit hash call (b'r' ∷ []) (some (b'c' ∷ [])) alice dto service).1)
unfolding get
deposit-IsOnce_example =
    deposit-IsOnce hash call call (b'r' ∷ []) (b'q' ∷ []) (b'c' ∷ []) (b'k' ∷ []) alice dto
      (pos 700) service accepted_reply refl refl keys_apart refl refl refl parsed done
