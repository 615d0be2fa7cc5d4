-- ===== src/Account/Repository/Quiet.antt =====
-- `executeWithRetry` when no other instance writes: the first attempt decides.
use event_sourced_core_banki.Base.{ℕ, ◌≡◌, ◌≢◌, refl, ap, ◌∙◌, [], ◌∷◌, ◌++◌, Text}
use event_sourced_core_banki.Common.Result.{
  Result, Error, ok, err, wrong_expected_version, bad_request, conflict, not_found, plain,
  retryable, projection_gap, ◌>>=◌,
}
use event_sourced_core_banki.Common.Event.{DomainEvent, Stamp}
use event_sourced_core_banki.Common.Aggregate.{Aggregate, replay, with_state}
use event_sourced_core_banki.Infrastructure.EventStore.{stream}
use event_sourced_core_banki.Account.Aggregate.{AccountState, new_state, account_stream, when}
use event_sourced_core_banki.Account.Command.{AccountCommand, run_command}
use event_sourced_core_banki.Account.Step.{Step, Raises}
use event_sourced_core_banki.Account.Refinement.{run_command-Step}
use event_sourced_core_banki.Account.Repository.{
  AccountStores, Others, end_write, end_operation, catch_attempt, attempt_once, retry_loop,
  execute_with_retry,
}
use event_sourced_core_banki.Account.Repository.Consistency.{
  account_events, IsConsistent, get_by_id-replay,
}
use event_sourced_core_banki.Account.Repository.Save.{
  saved, save-accepted, account_events-saved, replay-saved, save-IsConsistent, other_stream,
}
use event_sourced_core_banki.Account.Repository.Retry.{operation}

-- Nobody else writes.
abbrev pub nobody : Others
nobody = record { before_read = λ n stores. stores; before_write = λ n stores. stores }

-- A success that appended one event to the stream of the account, which then replays to `s`.
pub record Appended (outcome : Result (Unit {0}) × AccountStores) (account_id : Text)
    (before : AccountStores) (s : AccountState) : Type 0 where
  pub after : AccountStores
  pub event : DomainEvent
  pub answer : outcome ≡ (ok tt, after)
  pub wrote : account_events after account_id ≡ account_events before account_id ++ event ∷ []
  pub result : replay when (account_events after account_id) new_state ≡ ok s
  pub consistent : IsConsistent after
  pub elsewhere :
      (j : Text)
      → account_stream account_id ≢ j
      → stream after.event_store j ≡ stream before.event_store j

catch-other :
    (account_id : Text) (n : ℕ) (rest : AccountStores → Result (Unit {0}) × AccountStores)
    (e : Error) (stores : AccountStores)
    → ((stream : Text) (expected actual : ℕ) → e ≢ wrong_expected_version stream expected actual)
    → catch_attempt account_id n rest (err e, stores) ≡ (err e, stores)
unfolding catch_attempt
catch-other account_id n rest (wrong_expected_version x y z) stores h = absurd (h x y z refl)
catch-other account_id n rest (bad_request _) stores h = refl
catch-other account_id n rest (conflict _) stores h = refl
catch-other account_id n rest (not_found _) stores h = refl
catch-other account_id n rest (plain _) stores h = refl
catch-other account_id n rest (retryable _) stores h = refl
catch-other account_id n rest (projection_gap _ _ _) stores h = refl

module _ (account_id : Text) (command : AccountCommand) (stamps : ℕ → Stamp)
    (stores : AccountStores) (c : IsConsistent stores) (s : AccountState)
    (loaded : replay when (account_events stores account_id) new_state ≡ ok s) where
  -- The account that the first attempt loads.
  abbrev account : Aggregate AccountState
  account = record { state = s; uncommitted_events = [] }

  first_attempt :
      (r : Result (Aggregate AccountState))
      → run_command command (stamps 1) account ≡ r
      → attempt_once account_id (operation account_id command stamps) nobody 1 stores
        ≡ end_operation account_id (λ st. st) stores r
  unfolding attempt_once
  first_attempt r ran =
      ap (λ t. end_operation account_id (λ st. st) stores t)
        (ap (λ m. m >>= operation account_id command stamps 1)
            (get_by_id-replay stores account_id c ∙ ap (with_state []) loaded)
          ∙ ran)

  module _ (a : Aggregate AccountState) (ran : run_command command (stamps 1) account ≡ ok a) where
    made : Step s a.state × Raises account a
    made = run_command-Step command (stamps 1) account ran

    done :
        execute_with_retry account_id (operation account_id command stamps) nobody stores
        ≡ (ok tt, saved stores account_id c s loaded a made.0 made.1)
    unfolding execute_with_retry retry_loop catch_attempt end_operation end_write
    done =
        rw (first_attempt (ok a) ran, save-accepted stores account_id c s loaded a made.0 made.1)
          refl

    -- In consistent stores to which no other instance writes, a command that the loaded account
    -- accepts is done at the first attempt: the account's stream grows by one event and replays to
    -- the state after the command, every other stream stays as it is, and the stores stay
    -- consistent.
    pub quiet_success :
        Appended
          (execute_with_retry account_id (operation account_id command stamps) nobody stores)
          account_id
          stores
          a.state
    quiet_success = record {
      after = saved stores account_id c s loaded a made.0 made.1;
      event = made.1.event;
      answer = done;
      wrote = account_events-saved stores account_id c s loaded a made.0 made.1;
      result = replay-saved stores account_id c s loaded a made.0 made.1;
      consistent = save-IsConsistent stores account_id c s loaded a made.0 made.1;
      elsewhere = other_stream stores account_id c s loaded a made.0 made.1;
    }

  -- In consistent stores to which no other instance writes, a command that the loaded account
  -- refuses (with an error that is not a lost race) ends with that error at the first attempt, and
  -- the stores stay as they are.
  pub quiet_refusal :
      (e : Error)
      → ((stream : Text) (expected actual : ℕ) → e ≢ wrong_expected_version stream expected actual)
      → run_command command (stamps 1) account ≡ err e
      → execute_with_retry account_id (operation account_id command stamps) nobody stores
        ≡ (err e, stores)
  unfolding execute_with_retry retry_loop end_operation
  quiet_refusal e other ran =
      rw (first_attempt (err e) ran) (catch-other account_id 1 _ e stores other)
