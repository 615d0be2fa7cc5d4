-- ===== src/Infrastructure/Tests.antt =====
-- The theorems about the stores and the registries at concrete contents.
use event_sourced_core_banki.Base.{
  ℕ, ◌+◌, ◌≡◌, refl, inl, inr, get, drop, none, some, Bool, true, false, [], ◌∷◌, ◌++◌, Text, text,
  pos, ◌==◌,
}
use event_sourced_core_banki.Common.Result.{Error, Result, ok, err, plain, retryable}
use event_sourced_core_banki.Common.Event.{CommandContext, DomainEvent, EventBody}
use event_sourced_core_banki.Common.Money.{MoneyInput, parse_money_to_minor_units}
use event_sourced_core_banki.Infrastructure.EventStore.{
  EventStore, empty_store, stream, append, read_stream,
}
use event_sourced_core_banki.Infrastructure.EventStore.Streams.{
  IsValid, empty_store-IsValid, extended, append-extended, append-IsValid, read_stream-drop,
}
use event_sourced_core_banki.Infrastructure.Idempotency
use event_sourced_core_banki.Infrastructure.Idempotency.{IdempotencyRecords}
use event_sourced_core_banki.Infrastructure.Idempotency.Once.{replayed_response}
use event_sourced_core_banki.Infrastructure.Transactions.{
  TransactionRecords, ReserveTransactionInput, Response, accepted, deposit, withdraw, new_record,
  completed, other_movement, previously_failed, execute,
}
use event_sourced_core_banki.Infrastructure.Transactions.Once.{
  known_unchanged, other_intent_refused, repeat_accepted, repeat_refused,
}

abbrev context : CommandContext
context = record {
  command_id = b'c' ∷ [];
  correlation_id = b'r' ∷ [];
  causation_id = none;
  actor = none;
  trace_id = none;
}

abbrev frozen_event : DomainEvent
frozen_event = record {
  event_id = b'e' ∷ [];
  stream_id = b's' ∷ [];
  stream_version = 1;
  body = EventBody.account_frozen (some (b'a' ∷ [])) (b'x' ∷ []);
  occurred_at = 5;
  metadata = context;
}

abbrev stream_id : Text
stream_id = b's' ∷ []

abbrev one_event : EventStore
one_event = extended empty_store stream_id (frozen_event ∷ [])

appended : append empty_store stream_id (frozen_event ∷ []) 0 ≡ ok one_event
unfolding stream get
appended = append-extended empty_store stream_id (frozen_event ∷ []) 0 refl

append-IsValid_example : IsValid one_event
append-IsValid_example =
    append-IsValid empty_store stream_id (frozen_event ∷ []) 0 appended empty_store-IsValid

one_event-IsValid : IsValid one_event
one_event-IsValid =
    append-IsValid empty_store stream_id (frozen_event ∷ []) 0 appended empty_store-IsValid

read_stream-drop_example : read_stream one_event stream_id 1 ≡ drop 1 (stream one_event stream_id)
read_stream-drop_example = read_stream-drop one_event stream_id 1 one_event-IsValid

-- Idempotency: a handler that counts its runs.
abbrev count : ℕ → Result ℕ × ℕ
count n = (ok 7, n + 1)

abbrev hash : Text → Text → Text
hash operation payload = operation ++ payload

abbrev key : Text
key = b'k' ∷ []

abbrev no_records : IdempotencyRecords ℕ
no_records = []

replayed_response_example :
    Idempotency.execute hash
      (some key)
      (b'o' ∷ [])
      (b'p' ∷ [])
      count
      (Idempotency.execute hash (some key) (b'o' ∷ []) (b'p' ∷ []) count no_records 0).1
      1
    ≡ (ok 7, (Idempotency.execute hash (some key) (b'o' ∷ []) (b'p' ∷ []) count no_records 0).1, 1)
unfolding Idempotency.execute Idempotency.run_reserved Idempotency.reserve get
replayed_response_example =
    replayed_response hash key (b'o' ∷ []) (b'p' ∷ []) count count no_records 0 1 refl refl 7 refl

-- Transactions: a movement that is accepted, and two that fail.
abbrev input : ReserveTransactionInput
input = record {
  transaction_id = b't' ∷ [];
  account_id = b'a' ∷ [];
  operation_type = deposit;
  amount = MoneyInput.string (b'1' ∷ b'0' ∷ b'.' ∷ b'5' ∷ []);
  currency = b'E' ∷ b'U' ∷ b'R' ∷ [];
  idempotency_key = none;
}

parsed : parse_money_to_minor_units (input.amount) ≡ ok (pos 1050)
unfolding parse_money_to_minor_units
parsed = refl

abbrev move : ℕ → Result Response × ℕ
move n = (ok accepted, n + 1)

abbrev broken : Error → ℕ → Result Response × ℕ
broken e n = (err e, n + 1)

abbrev is_transient : Error → Bool
is_transient (retryable _) = true
is_transient _ = false

abbrev done_records : TransactionRecords
done_records = (b't' ∷ [], record (new_record input (pos 1050)) { status = completed }) ∷ []

abbrev withdrawal : ReserveTransactionInput
withdrawal = record input { operation_type = withdraw }

known_unchanged_example :
    (answer : Result Response) × (execute is_transient true withdrawal move done_records 3
      ≡ (answer, done_records, 3))
unfolding get ◌==◌
known_unchanged_example =
    known_unchanged is_transient true withdrawal
      (record (new_record input (pos 1050)) { status = completed }) move done_records 3 refl
      (λ e. cc)

other_intent_refused_example :
    execute is_transient true withdrawal move done_records 3
    ≡ (err (other_movement (b't' ∷ [])), done_records, 3)
unfolding get new_record ◌==◌
other_intent_refused_example =
    other_intent_refused is_transient true withdrawal
      (record (new_record input (pos 1050)) { status = completed }) (pos 1050) move done_records 3
      refl parsed (inr (inl (λ e. cc)))

repeat_accepted_example :
    execute is_transient false input move (execute is_transient false input move [] 0).1 1
    ≡ (ok accepted, (execute is_transient false input move [] 0).1, 1)
unfolding get
repeat_accepted_example =
    repeat_accepted is_transient false input (pos 1050) move move [] 0 1 refl parsed accepted refl

repeat_refused_example :
    execute is_transient true input move
      (execute is_transient true input (broken (plain (text "no"))) [] 0).1
      1
    ≡ (
      err (previously_failed (b't' ∷ [])),
      (execute is_transient true input (broken (plain (text "no"))) [] 0).1,
      1,
    )
unfolding get
repeat_refused_example =
    repeat_refused is_transient true input (pos 1050) (broken (plain (text "no"))) move [] 0 1 refl
      parsed (plain (text "no")) refl refl
