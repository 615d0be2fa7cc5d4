-- ===== src/Account/Repository/Retry.antt =====
-- `executeWithRetry` under any interference of other instances that only append: a command that is
-- reported as done was applied to the state of the stream it extends, so no update is lost.
use event_sourced_core_banki.Base.{
  ℕ, zero, suc, ◌+◌, ◌-◌, ◌<◌, ◌≡◌, ◌≢◌, refl, sym, ap, subst, ◌∙◌, Bool, true, false, List, [],
  ◌∷◌, ◌++◌, append-nil, length, length-append, arith, Text, ltb,
}
use event_sourced_core_banki.Common.Result.{Result, ok, err, wrong_expected_version, ◌>>=◌}
use event_sourced_core_banki.Common.Event.{DomainEvent, Stamp}
use event_sourced_core_banki.Common.Aggregate.{
  Aggregate, replay, with_state, pull_uncommitted_events,
}
use event_sourced_core_banki.Infrastructure.EventStore.Streams.{append-conflict}
use event_sourced_core_banki.Account.Aggregate.{AccountState, new_state, account_stream, when}
use event_sourced_core_banki.Account.Command.{AccountCommand, run_command}
use event_sourced_core_banki.Account.Step.{Step, Raises}
use event_sourced_core_banki.Account.Refinement.{run_command-Step}
use event_sourced_core_banki.Account.Repository.{
  AccountStores, Others, get_by_id, save, save_events, end_write, end_operation, attempt_once,
  after_conflict, catch_attempt, retry_loop, execute_with_retry,
}
use event_sourced_core_banki.Account.Repository.Consistency.{
  account_events, IsConsistent, get_by_id-replay, version-length, when-version,
}
use event_sourced_core_banki.Account.Repository.Save.{
  save-accepted, account_events-saved, replay-saved, save-IsConsistent,
}

-- Other instances keep the stores consistent, and between a read and a write they only append.
pub record OnlyAppends (others : Others) : Type 0 where
  pub reads :
      (n : ℕ) (stores : AccountStores)
      → IsConsistent stores
      → IsConsistent (others.before_read n stores)
  pub writes :
      (n : ℕ) (stores : AccountStores)
      → IsConsistent stores
      → IsConsistent (others.before_write n stores)
  pub appends :
      (n : ℕ) (stores : AccountStores) (account_id : Text)
      → (tail : List DomainEvent) × (account_events (others.before_write n stores) account_id
          ≡ account_events stores account_id ++ tail)

save-refused :
    (account_id : Text) (a : Aggregate AccountState) (stores : AccountStores) (event : DomainEvent)
    → a.uncommitted_events ≡ event ∷ []
    → a.state.version - 1 ≢ length (account_events stores account_id)
    → save account_id a stores
      ≡ err (
          wrong_expected_version
            (account_stream account_id)
            (a.state.version - 1)
            (length (account_events stores account_id)))
unfolding save save_events pull_uncommitted_events
save-refused account_id a stores event one ne = rw (
  one,
  append-conflict stores.event_store (account_stream account_id) (event ∷ []) (a.state.version - 1)
      ne,
)

module _ (account_id : Text) (command : AccountCommand) (stamps : ℕ → Stamp) where
  abbrev pub operation : ℕ → Aggregate AccountState → Result (Aggregate AccountState)
  operation n = run_command command (stamps n)

  -- The last event of the stream is the one that the command raised, applied to what the events before it replay to.
  pub record Committed (stores : AccountStores) : Type 0 where
    pub attempt : ℕ
    pub history : List DomainEvent
    pub event : DomainEvent
    pub before : AccountState
    pub after : Aggregate AccountState
    pub loaded : replay when history new_state ≡ ok before
    pub ran : operation attempt (record { state = before; uncommitted_events = [] }) ≡ ok after
    pub step : Step before after.state
    pub raised : after.uncommitted_events ≡ event ∷ []
    pub wrote : account_events stores account_id ≡ history ++ event ∷ []
    pub result : replay when (account_events stores account_id) new_state ≡ ok after.state

  -- Whatever the result, the stores are consistent; and if it is a success, the command is there.
  abbrev pub IsSound : Result (Unit {0}) × AccountStores → Type 0
  IsSound (r, stores) = IsConsistent stores × (r ≡ ok tt → Committed stores)

  module _ (others : Others) (fair : OnlyAppends others) (n : ℕ) (stores : AccountStores)
      (c : IsConsistent stores) where
    module _ (s : AccountState)
        (loaded : replay when (account_events stores account_id) new_state ≡ ok s)
        (a : Aggregate AccountState)
        (ran : operation n (record { state = s; uncommitted_events = [] }) ≡ ok a) where
      abbrev writing : AccountStores
      writing = others.before_write n stores

      made : Step s a.state × Raises (record { state = s; uncommitted_events = [] }) a
      made = run_command-Step command (stamps n) (record { state = s; uncommitted_events = [] }) ran

      -- Nobody wrote to the stream in between: the write is accepted.
      write_back-unchanged :
          account_events writing account_id ≡ account_events stores account_id
          → IsSound (end_write writing (save account_id a writing))
      unfolding end_write
      write_back-unchanged same =
          let cw : IsConsistent writing = fair.writes n stores c in
          let now : replay when (account_events writing account_id) new_state ≡ ok s =
            ap (λ es. replay when es new_state) same ∙ loaded in
          rw (save-accepted writing account_id cw s now a made.0 made.1) (
            save-IsConsistent writing account_id cw s now a made.0 made.1,
            λ _. record {
              attempt = n;
              history = account_events writing account_id;
              event = made.1.event;
              before = s;
              after = a;
              loaded = now;
              ran = ran;
              step = made.0;
              raised = made.1.pending;
              wrote = account_events-saved writing account_id cw s now a made.0 made.1;
              result = replay-saved writing account_id cw s now a made.0 made.1;
            },
          )

      length-writing :
          (tail : List DomainEvent)
          → account_events writing account_id ≡ account_events stores account_id ++ tail
          → length (account_events writing account_id) ≡ s.version + length tail
      length-writing tail e = omega (
        arith,
        ap length e,
        length-append (account_events stores account_id) tail,
        version-length stores account_id c s loaded,
      )

      next_version : a.state.version ≡ s.version + 1
      next_version = omega (arith, when-version made.1.event s made.1.applied, made.1.numbered)

      write_back-IsSound :
          (tail : List DomainEvent)
          → account_events writing account_id ≡ account_events stores account_id ++ tail
          → IsSound (end_write writing (save account_id a writing))
      unfolding end_write
      write_back-IsSound [] e =
          write_back-unchanged (e ∙ append-nil (account_events stores account_id))
      write_back-IsSound (t ∷ tail) e =
          rw
            (save-refused account_id a writing made.1.event made.1.pending
              (λ same. absurd (omega (arith, same, next_version, length-writing (t ∷ tail) e))))
            (fair.writes n stores c, λ h. cc)

    module _ (s : AccountState)
        (loaded : replay when (account_events stores account_id) new_state ≡ ok s) where
      get_by_id-loaded :
          get_by_id account_id stores ≡ ok (record { state = s; uncommitted_events = [] })
      get_by_id-loaded = get_by_id-replay stores account_id c ∙ ap (with_state []) loaded

      attempt_once-ran :
          (r : Result (Aggregate AccountState))
          → operation n (record { state = s; uncommitted_events = [] }) ≡ r
          → IsSound (attempt_once account_id operation others n stores)
      unfolding attempt_once end_operation
      attempt_once-ran (ok a) ran =
          let (tail, e) = fair.appends n stores account_id in
          subst (λ r. IsSound (end_operation account_id (others.before_write n) stores r))
            (sym (ap (λ m. m >>= operation n) get_by_id-loaded ∙ ran))
            (write_back-IsSound s loaded a ran tail e)
      attempt_once-ran (err e) ran =
          subst (λ r. IsSound (end_operation account_id (others.before_write n) stores r))
            (sym (ap (λ m. m >>= operation n) get_by_id-loaded ∙ ran)) (c, λ h. cc)

    attempt_once-IsSound : IsSound (attempt_once account_id operation others n stores)
    attempt_once-IsSound =
        let (s, loaded, _) = c.replays account_id in attempt_once-ran s loaded _ refl

  after_conflict-IsSound :
      (b : Bool) (rest : AccountStores → Result (Unit {0}) × AccountStores) (stores : AccountStores)
      → (b ≡ true → IsSound (rest stores))
      → IsConsistent stores
      → IsSound (after_conflict account_id b rest stores)
  unfolding after_conflict
  after_conflict-IsSound true rest stores again c = again refl
  after_conflict-IsSound false rest stores again c = (c, λ h. cc)

  catch_attempt-IsSound :
      (n : ℕ) (rest : AccountStores → Result (Unit {0}) × AccountStores)
      (result : Result (Unit {0}) × AccountStores)
      → (ltb n 3 ≡ true → (st : AccountStores) → IsConsistent st → IsSound (rest st))
      → IsSound result
      → IsSound (catch_attempt account_id n rest result)
  unfolding catch_attempt
  catch_attempt-IsSound n rest (ok u, st) again h = h
  catch_attempt-IsSound n rest (err (wrong_expected_version x y z), st) again h =
      after_conflict-IsSound (ltb n 3) rest st (λ e. again e st h.0) h.0
  catch_attempt-IsSound n rest (err _, st) again h = (h.0, λ e. cc)

  module _ (others : Others) (fair : OnlyAppends others) where
    retry_loop-IsSound :
        (left n : ℕ) (stores : AccountStores)
        → 0 < left
        → left + n ≡ 4
        → IsConsistent stores
        → IsSound (retry_loop account_id operation others left n stores)
    unfolding retry_loop
    retry_loop-IsSound zero n stores h e c = absurd (omega arith)
    retry_loop-IsSound (suc left) n stores h e c =
        catch_attempt-IsSound n (λ s. retry_loop account_id operation others left (n + 1) s)
          (attempt_once account_id operation others n (others.before_read n stores))
          (λ below st c'. retry_loop-IsSound left (n + 1) st (ground arith) (omega arith) c')
          (attempt_once-IsSound others fair n (others.before_read n stores) (fair.reads n stores c))

    -- In consistent stores, whatever other instances do before each read and append before each
    -- write, as long as they keep the stores consistent, executeWithRetry leaves the stores
    -- consistent, and when it reports success the one event that the command raised is the last of
    -- its account's stream, applied to the state that the events before it replay to: no update is
    -- lost.
    pub execute_with_retry-IsSound :
        (stores : AccountStores)
        → IsConsistent stores
        → IsSound (execute_with_retry account_id operation others stores)
    unfolding execute_with_retry
    execute_with_retry-IsSound stores c =
        retry_loop-IsSound 3 1 stores (omega arith) (omega arith) c
