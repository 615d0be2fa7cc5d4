-- ===== src/Infrastructure/Idempotency/Once.antt =====
-- A key runs its handler at most once: from then on a request with the key changes nothing.
use event_sourced_core_banki.Base.{
  ◌≡◌, refl, sym, ap, ◌∙◌, none, some, true, arith, Text, text, eq_refl, is_truthy, get, put,
  get-put_self, ◌++◌,
}
use event_sourced_core_banki.Common.Result.{Error, Result, ok, err, conflict}
use event_sourced_core_banki.Common.Message.{message}
use event_sourced_core_banki.Infrastructure.Idempotency.{
  IdempotencyRecord, IdempotencyRecords, in_progress, completed, failed, reserve, mark_completed,
  mark_failed, answer_existing, finish, execute,
}

module _ {R P : Type 0} (hash_request : Text → P → Text) where
  -- What `reserve` stores for a new key.
  abbrev pub reserved : Text → Text → P → IdempotencyRecord R
  reserved key operation payload = record {
    idempotency_key = key;
    operation = operation;
    request_hash = hash_request operation payload;
    status = in_progress;
    response_payload = none;
    error_message = none;
  }

module _ {R : Type 0} where
  answer-completed :
      (key operation hash : Text) (r : IdempotencyRecord R) (response : R)
      → r.operation ≡ operation
      → r.request_hash ≡ hash
      → answer_existing key operation hash
          (record r { status = completed; response_payload = some response; error_message = none })
        ≡ ok response
  unfolding answer_existing
  answer-completed key operation hash r response e f =
      ground (arith, eq_refl operation, eq_refl hash)

  answer-failed :
      (key operation hash error : Text) (r : IdempotencyRecord R)
      → r.operation ≡ operation
      → r.request_hash ≡ hash
      → answer_existing key operation hash
          (record r { status = failed; error_message = some error })
        ≡ err (
            conflict (
              text "Request with Idempotency-Key "
              ++ (key ++ text " previously failed. Retry with a new key.")))
  unfolding answer_existing
  answer-failed key operation hash error r e f = ground (arith, eq_refl operation, eq_refl hash)

module _ {R W : Type 0} where
  finish-ok :
      (key : Text) (records : IdempotencyRecords R) (r : IdempotencyRecord R) (p : Result R × W)
      (response : R)
      → get records key ≡ some r
      → (finish key records p).0 ≡ ok response
      → get (finish key records p).1 key
        ≡ some (record r {
          status = completed;
          response_payload = some response;
          error_message = none;
        })
  unfolding finish mark_completed
  finish-ok key records r (ok response', w) response known h = ground (
    arith,
    get-put_self records key
        (record r { status = completed; response_payload = some response'; error_message = none }),
  )
  finish-ok key records r (err e, w) response known h = cc

  finish-err :
      (key : Text) (records : IdempotencyRecords R) (r : IdempotencyRecord R) (p : Result R × W)
      (e : Error)
      → get records key ≡ some r
      → (finish key records p).0 ≡ err e
      → get (finish key records p).1 key
        ≡ some (record r { status = failed; error_message = some (message e) })
  unfolding finish mark_failed
  finish-err key records r (ok response, w) e known h = cc
  finish-err key records r (err e', w) e known h = ground (
    arith,
    get-put_self records key (record r { status = failed; error_message = some (message e') }),
  )

module _ {R W P : Type 0} (hash_request : Text → P → Text) where
  -- A request whose key has a record is answered from the record: neither the records nor the world
  -- change, whatever the handler.
  pub execute-existing :
      (key operation : Text) (payload : P) (handler : W → Result R × W)
      (records : IdempotencyRecords R) (w : W) (existing : IdempotencyRecord R)
      → is_truthy key ≡ true
      → get records key ≡ some existing
      → execute hash_request (some key) operation payload handler records w
        ≡ (answer_existing key operation (hash_request operation payload) existing, records, w)
  unfolding execute reserve
  execute-existing key operation payload handler records w existing given known = ground arith

  -- A request with a new key reserves it and runs the handler.
  pub execute-new :
      (key operation : Text) (payload : P) (handler : W → Result R × W)
      (records : IdempotencyRecords R) (w : W)
      → is_truthy key ≡ true
      → get records key ≡ none
      → execute hash_request (some key) operation payload handler records w
        ≡ finish key (put records key (reserved hash_request key operation payload)) (handler w)
  unfolding execute reserve
  execute-new key operation payload handler records w given fresh = ground arith

  module _ (key operation : Text) (payload : P) (handler again : W → Result R × W)
      (records : IdempotencyRecords R) (w w' : W) (given : is_truthy key ≡ true)
      (fresh : get records key ≡ none) where
    abbrev first : Result R × IdempotencyRecords R × W
    first = execute hash_request (some key) operation payload handler records w

    abbrev ran : Result R × IdempotencyRecords R × W
    ran = finish key (put records key (reserved hash_request key operation payload)) (handler w)

    first-ran : first ≡ ran
    first-ran = execute-new key operation payload handler records w given fresh

    -- After a request with a new idempotency key that succeeded, the same request is answered with
    -- the stored response without running its handler and without changing a record.
    pub replayed_response :
        (response : R)
        → first.0 ≡ ok response
        → execute hash_request (some key) operation payload again first.1 w'
          ≡ (ok response, first.1, w')
    replayed_response response h =
        execute-existing key operation payload again first.1 w' _ given (
          ap (λ (t : Result R × IdempotencyRecords R × W). get t.1 key) first-ran
          ∙ finish-ok key _ (reserved hash_request key operation payload) (handler w) response
              (get-put_self records key (reserved hash_request key operation payload))
              (ap (λ (t : Result R × IdempotencyRecords R × W). t.0) (sym first-ran) ∙ h))
        ∙ ap (λ (a : Result R). (a, first.1, w'))
            (answer-completed key operation (hash_request operation payload)
              (reserved hash_request key operation payload) response refl refl)

    -- After a request with a new idempotency key that failed, the same request is refused as a
    -- conflict without running its handler and without changing a record.
    pub refused_retry :
        (e : Error)
        → first.0 ≡ err e
        → execute hash_request (some key) operation payload again first.1 w' ≡ (
          err (
              conflict (
                text "Request with Idempotency-Key "
                ++ (key ++ text " previously failed. Retry with a new key."))),
          first.1,
          w',
        )
    refused_retry e h =
        execute-existing key operation payload again first.1 w' _ given (
          ap (λ (t : Result R × IdempotencyRecords R × W). get t.1 key) first-ran
          ∙ finish-err key _ (reserved hash_request key operation payload) (handler w) e
              (get-put_self records key (reserved hash_request key operation payload))
              (ap (λ (t : Result R × IdempotencyRecords R × W). t.0) (sym first-ran) ∙ h))
        ∙ ap (λ (a : Result R). (a, first.1, w'))
            (answer-failed key operation (hash_request operation payload) (message e)
              (reserved hash_request key operation payload) refl refl)
