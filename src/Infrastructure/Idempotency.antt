-- ===== src/Infrastructure/Idempotency.antt =====
-- infrastructure/idempotency: the service and its in-memory record repository. Responses and
-- payloads are of any type; the SHA-256 of the request is a parameter. A handler changes the rest
-- of the world, `W`. Nothing reads the times of a record, so they are left out.
pub mod Once
use event_sourced_core_banki.Base.{
  Option, none, some, Bool, true, false, ◌||◌, not, if◌then◌else◌, [], ◌++◌, Text, text, ◌==◌,
  is_truthy, Dict, get, put,
}
use event_sourced_core_banki.Common.Result.{Error, Result, ok, err, bad_request, conflict}
use event_sourced_core_banki.Common.Message.{message}

pub data IdempotencyStatus : Type 0 where
  in_progress completed failed : IdempotencyStatus

pub record IdempotencyRecord (R : Type 0) : Type 0 where
  pub idempotency_key : Text
  pub operation : Text
  pub request_hash : Text
  pub status : IdempotencyStatus
  pub response_payload : Option R
  pub error_message : Option Text

abbrev pub IdempotencyRecords : Type 0 → Type 0
IdempotencyRecords R = Dict (IdempotencyRecord R)

module _ {R : Type 0} where
  -- `none` is `{ created: true, … }`; `some record` is the existing record.
  unfoldable pub reserve :
      IdempotencyRecords R
      → Text
      → Text
      → Text
      → Option (IdempotencyRecord R) × IdempotencyRecords R
  reserve records key operation request_hash = elim (get records key) [
    | some existing ↦ (some existing, records)
    | none ↦ (
      none,
      put records key (record {
        idempotency_key = key;
        operation = operation;
        request_hash = request_hash;
        status = in_progress;
        response_payload = none;
        error_message = none;
      }),
    )
  ]

  unfoldable pub mark_completed : IdempotencyRecords R → Text → R → IdempotencyRecords R
  mark_completed records key response = elim (get records key) [
    | none ↦ records
    | some current ↦ put records key (record current {
      status = completed;
      response_payload = some response;
      error_message = none;
    })
  ]

  unfoldable pub mark_failed : IdempotencyRecords R → Text → Text → IdempotencyRecords R
  mark_failed records key error = elim (get records key) [
    | none ↦ records
    | some current ↦
        put records key (record current { status = failed; error_message = some error })
  ]

  -- What a request with a known key is answered.
  unfoldable pub answer_existing : Text → Text → Text → IdempotencyRecord R → Result R
  answer_existing key operation request_hash r =
      if not (r.operation == operation) || not (r.request_hash == request_hash)
      then err (
          conflict (
            text "Idempotency key "
            ++ (key ++ text " has already been used for a different request")))
      else elim (r.status) [
        | completed ↦ elim (r.response_payload) [
          | some response ↦ ok response
          | none ↦ err (
              conflict (
                text "Request with Idempotency-Key "
                ++ (key ++ text " previously failed. Retry with a new key.")))
        ]
        | in_progress ↦ err (
            conflict
              (text "Request with Idempotency-Key " ++ (key ++ text " is already in progress")))
        | failed ↦ err (
            conflict (
              text "Request with Idempotency-Key "
              ++ (key ++ text " previously failed. Retry with a new key.")))
      ]

module _ {R W : Type 0} where
  -- The `try` and `catch` around the handler.
  unfoldable pub finish :
      Text → IdempotencyRecords R → Result R × W → Result R × IdempotencyRecords R × W
  finish key records (ok response, w) = (ok response, mark_completed records key response, w)
  finish key records (err e, w) = (err e, mark_failed records key (message e), w)

module _ {R W P : Type 0} (hash_request : Text → P → Text) where
  unfoldable pub run_reserved :
      Text
      → Text
      → Text
      → (W → Result R × W)
      → Option (IdempotencyRecord R) × IdempotencyRecords R
      → W
      → Result R × IdempotencyRecords R × W
  unfolding finish
  run_reserved key operation request_hash handler (some existing, records) w =
      (answer_existing key operation request_hash existing, records, w)
  run_reserved key operation request_hash handler (none, records) w = finish key records (handler w)

  unfoldable pub execute :
      Option Text
      → Text
      → P
      → (W → Result R × W)
      → IdempotencyRecords R
      → W
      → Result R × IdempotencyRecords R × W
  unfolding run_reserved
  execute none operation payload handler records w =
      (err (bad_request (text "Idempotency-Key header is required")), records, w)
  execute (some key) operation payload handler records w = elim (is_truthy key) [
    | false ↦ (err (bad_request (text "Idempotency-Key header is required")), records, w)
    | true ↦
        let request_hash = hash_request operation payload in
        run_reserved key operation request_hash handler (reserve records key operation request_hash)
          w
  ]
