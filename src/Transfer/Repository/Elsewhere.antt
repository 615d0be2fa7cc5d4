-- ===== src/Transfer/Repository/Elsewhere.antt =====
-- `executeWithRetry` of a transfer writes to the stream of that transfer only, when no other
-- instance writes.
use event_sourced_core_banki.Base.{
  ℕ, zero, suc, ◌+◌, ◌-◌, ◌≡◌, ◌≢◌, refl, ◌∙◌, Bool, true, false, List, [], ◌∷◌, length, ltb, Text,
}
use event_sourced_core_banki.Common.Result.{
  Result, ok, err, wrong_expected_version, bad_request, conflict, not_found, plain, retryable,
  projection_gap, ◌>>=◌,
}
use event_sourced_core_banki.Common.Event.{DomainEvent}
use event_sourced_core_banki.Common.Aggregate.{Aggregate, pull_uncommitted_events}
use event_sourced_core_banki.Infrastructure.EventStore.{EventStore, stream, append}
use event_sourced_core_banki.Infrastructure.EventStore.Streams.{stream-append_ne}
use event_sourced_core_banki.Transfer.Aggregate.{TransferState, transfer_stream}
use event_sourced_core_banki.Transfer.Repository.{
  get_by_id, save, save_events, max_write_attempts, end_write, end_operation, after_conflict,
  catch_attempt, attempt_once, retry_loop, execute_with_retry,
}
use event_sourced_core_banki.Transfer.Repository.Quiet.{nobody}

module _ (transfer_id : Text) (j : Text) (ne : transfer_stream transfer_id ≢ j) where
  -- What leaves the stream alone.
  abbrev Keeps : EventStore → EventStore → Type 0
  Keeps before after = stream after j ≡ stream before j

  end_write-append :
      (store : EventStore) (events : List DomainEvent) (v : ℕ) (r : Result EventStore)
      → append store (transfer_stream transfer_id) events v ≡ r
      → Keeps store (end_write store r).1
  unfolding end_write
  end_write-append store events v (ok store') e =
      stream-append_ne store (transfer_stream transfer_id) events v e j ne
  end_write-append store events v (err x) e = refl

  end_write-save_events :
      (store : EventStore) (events : List DomainEvent) (a : Aggregate TransferState)
      → Keeps store (end_write store (save_events transfer_id events a store)).1
  unfolding save_events end_write
  end_write-save_events store [] a = refl
  end_write-save_events store (event ∷ events) a =
      end_write-append store (event ∷ events) _
        (append store (transfer_stream transfer_id) (event ∷ events)
          (a.state.version - length (event ∷ events)))
        refl

  end_operation-Keeps :
      (store : EventStore) (r : Result (Aggregate TransferState))
      → Keeps store (end_operation transfer_id (λ s. s) store r).1
  unfolding end_operation save pull_uncommitted_events
  end_operation-Keeps store (ok a) = end_write-save_events store a.uncommitted_events _
  end_operation-Keeps store (err e) = refl

  after_conflict-Keeps :
      (more : Bool) (rest : EventStore → Result (Unit {0}) × EventStore) (before store : EventStore)
      → ((s : EventStore) → Keeps s (rest s).1)
      → Keeps before store
      → Keeps before (after_conflict transfer_id more rest store).1
  unfolding after_conflict
  after_conflict-Keeps true rest before store h k = h store ∙ k
  after_conflict-Keeps false rest before store h k = k

  catch_attempt-Keeps :
      (attempt : ℕ) (rest : EventStore → Result (Unit {0}) × EventStore) (before : EventStore)
      (p : Result (Unit {0}) × EventStore)
      → ((s : EventStore) → Keeps s (rest s).1)
      → Keeps before p.1
      → Keeps before (catch_attempt transfer_id attempt rest p).1
  unfolding catch_attempt
  catch_attempt-Keeps attempt rest before (ok u, s) h k = k
  catch_attempt-Keeps attempt rest before (err (wrong_expected_version x y z), s) h k =
      after_conflict-Keeps (ltb attempt max_write_attempts) rest before s h k
  catch_attempt-Keeps attempt rest before (err (bad_request _), s) h k = k
  catch_attempt-Keeps attempt rest before (err (conflict _), s) h k = k
  catch_attempt-Keeps attempt rest before (err (not_found _), s) h k = k
  catch_attempt-Keeps attempt rest before (err (plain _), s) h k = k
  catch_attempt-Keeps attempt rest before (err (retryable _), s) h k = k
  catch_attempt-Keeps attempt rest before (err (projection_gap _ _ _), s) h k = k

  module _ (operation : ℕ → Aggregate TransferState → Result (Aggregate TransferState)) where
    retry_loop-Keeps :
        (left attempt : ℕ) (store : EventStore)
        → Keeps store (retry_loop transfer_id operation nobody left attempt store).1
    unfolding retry_loop attempt_once
    retry_loop-Keeps zero attempt store = refl
    retry_loop-Keeps (suc left) attempt store =
        catch_attempt-Keeps attempt _ store _ (retry_loop-Keeps left (attempt + 1))
          (end_operation-Keeps store (get_by_id transfer_id store >>= operation attempt))

    pub execute_with_retry-elsewhere :
        (store : EventStore) → Keeps store (execute_with_retry transfer_id operation nobody store).1
    unfolding execute_with_retry
    execute_with_retry-elsewhere store = retry_loop-Keeps max_write_attempts 1 store
