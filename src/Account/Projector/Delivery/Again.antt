-- ===== src/Account/Projector/Delivery/Again.antt =====
-- What the projector makes of a stream whose tail comes again, and of one that lost an event.
use event_sourced_core_banki.Base.{
  ℕ, zero, suc, ◌+◌, ◌≤◌, ◌≡◌, refl, sym, ap, subst, ◌∙◌, none, true, List, [], ◌∷◌, ◌++◌, drop,
  length, arith, Text,
}
use event_sourced_core_banki.Common.Result.{ok, err, projection_gap, >>=-eq-ok, ok-injective}
use event_sourced_core_banki.Common.Event.{DomainEvent, account_created}
use event_sourced_core_banki.Common.Aggregate.{replay}
use event_sourced_core_banki.Account.Aggregate.{AccountState, new_state, when}
use event_sourced_core_banki.Account.ReadModel.{AccountReadModels, get_account_summary}
use event_sourced_core_banki.Account.Repository.Consistency.{when-version}
use event_sourced_core_banki.Account.Projector.{project, project_created, project_account_created}
use event_sourced_core_banki.Account.Projector.Mirror.{Shows, IsOf}
use event_sourced_core_banki.Account.Projector.Delivery.{
  project_all, AreOf, project_stream, redelivered, gap_refused, seen-leb,
}
use event_sourced_core_banki.Infrastructure.EventStore.Streams.{IsNumbered}
use event_sourced_core_banki.Transfer.ReadModel.{TransferSummaries}

replay-version :
    (events : List DomainEvent) (s s' : AccountState)
    → IsNumbered s.version events
    → replay when events s ≡ ok s'
    → s'.version ≡ s.version + length events
unfolding replay
replay-version [] s s' numbered done = omega (arith, ap (λ t. t.version) (ok-injective done))
replay-version (event ∷ events) s s' numbered done =
    let (s1, applied, later) = >>=-eq-ok (when event s) _ done in
    let step : s1.version ≡ s.version + 1 = when-version event s applied ∙ numbered.0 in
    let rest =
      replay-version events s1 s' (subst (λ n. IsNumbered n events) (sym step) numbered.1) later in
    omega (arith, step, rest)

module _ (transfers : TransferSummaries) (account_id : Text) (m : AccountReadModels)
    (s : AccountState) (shown : Shows m account_id s) where
  project_all-seen :
      (events : List DomainEvent) (n : ℕ)
      → AreOf account_id events
      → IsNumbered n events
      → n + length events ≤ s.version
      → project_all transfers events m ≡ ok m
  unfolding project_all
  project_all-seen [] n of numbered old = refl
  project_all-seen (event ∷ events) n of numbered old =
      let again =
        redelivered transfers account_id m s event shown of.0 (omega (arith, numbered.0, old)) in
      rw (again) (project_all-seen events (n + 1) of.1 numbered.1 (omega (arith, old)))

  project_all-drop :
      (k : ℕ) (events : List DomainEvent) (n : ℕ)
      → AreOf account_id events
      → IsNumbered n events
      → n + length events ≤ s.version
      → project_all transfers (drop k events) m ≡ ok m
  unfolding project_all
  project_all-drop zero events n of numbered old = project_all-seen events n of numbered old
  project_all-drop (suc k) [] n of numbered old = refl
  project_all-drop (suc k) (event ∷ events) n of numbered old =
      project_all-drop k events (n + 1) of.1 numbered.1 (omega (arith, old))

  created-again :
      (owner_id currency : Text) (event : DomainEvent)
      → event.stream_version ≤ s.version
      → project transfers (record event { body = account_created account_id owner_id currency }) m
        ≡ ok (true, m)
  unfolding project project_account_created project_created get_account_summary
  created-again owner_id currency event old =
      let e = shown.stored in rw (e, seen-leb transfers account_id m s event shown old) refl

  stream-drop :
      (owner_id currency : Text) (k : ℕ) (first : DomainEvent) (events : List DomainEvent)
      → first.body ≡ account_created account_id owner_id currency
      → AreOf account_id events
      → IsNumbered 0 (first ∷ events)
      → 1 + length events ≤ s.version
      → project_all transfers (drop k (first ∷ events)) m ≡ ok m
  unfolding project_all
  stream-drop owner_id currency (suc k) first events opening of numbered old =
      project_all-drop k events 1 of numbered.1 old
  stream-drop owner_id currency zero first events opening of numbered old =
      let same : record first { body = account_created account_id owner_id currency } ≡ first =
        ap (λ b. record first { body = b }) (sym opening) in
      let again : project transfers first m ≡ ok (true, m) =
        sym (ap (λ e. project transfers e m) same)
        ∙ created-again owner_id currency first (omega (arith, numbered.0, old)) in
      rw (again) (project_all-seen events 1 of numbered.1 old)

-- When the whole stream of an account that has no summary yet, which is its creation and then
-- movements or freezings of it, numbered from 1 and replayable, was projected in order, projecting
-- it again from any position on succeeds and changes nothing in the read models.
pub replayed_from :
    (transfers : TransferSummaries) (account_id owner_id currency : Text) (first : DomainEvent)
    (events : List DomainEvent) (m : AccountReadModels) (s : AccountState) (k : ℕ)
    → get_account_summary m account_id ≡ none
    → first.body ≡ account_created account_id owner_id currency
    → AreOf account_id events
    → IsNumbered 0 (first ∷ events)
    → replay when (first ∷ events) new_state ≡ ok s
    → (m' : AccountReadModels) × (project_all transfers (first ∷ events) m ≡ ok m')
      × (project_all transfers (drop k (first ∷ events)) m' ≡ ok m')
replayed_from transfers account_id owner_id currency first events m s k fresh opening of numbered
      done =
    let (m', ran, shown) =
      project_stream transfers account_id owner_id currency first events m s fresh opening of
        numbered done in
    let version : s.version ≡ 0 + length (first ∷ events) =
      replay-version (first ∷ events) new_state s numbered done in
    (
      m',
      ran,
      stream-drop transfers account_id m' s shown owner_id currency k first events opening of
          numbered (omega (arith, version)),
    )

project_all-append :
    (transfers : TransferSummaries) (xs ys : List DomainEvent) (m m' : AccountReadModels)
    → project_all transfers xs m ≡ ok m'
    → project_all transfers (xs ++ ys) m ≡ project_all transfers ys m'
unfolding project_all
project_all-append transfers [] ys m m' done = ap (project_all transfers ys) (ok-injective done)
project_all-append transfers (x ∷ xs) ys m m' done =
    let (r, ran, rest) = >>=-eq-ok (project transfers x m) _ done in
    rw (ran) (project_all-append transfers xs ys r.1 m' rest)

-- The numbers of a stream around two of its events.
IsNumbered-around :
    (k : ℕ) (xs : List DomainEvent) (lost next : DomainEvent) (ys : List DomainEvent)
    → IsNumbered k (xs ++ lost ∷ next ∷ ys)
    → IsNumbered k xs
      × (lost.stream_version ≡ k + length xs + 1)
      × (next.stream_version ≡ k + length xs + 2)
IsNumbered-around k [] lost next ys h = (tt, omega (arith, h.0), omega (arith, h.1.0))
IsNumbered-around k (x ∷ xs) lost next ys h =
    let (all, a, b) = IsNumbered-around (k + 1) xs lost next ys h.1 in
    ((h.0, all), omega (arith, a), omega (arith, b))

-- When one event behind the creation gets lost from the stream of an account that has no summary
-- yet, which is its creation and then movements or freezings of it, numbered from 1, and the
-- events before the lost one replay, projecting the others in order fails with a projection gap
-- that expects the lost event's version and names that of the event behind it.
pub lost_event_noticed :
    (transfers : TransferSummaries) (account_id owner_id currency : Text)
    (first lost next : DomainEvent) (before after : List DomainEvent) (m : AccountReadModels)
    (s : AccountState)
    → get_account_summary m account_id ≡ none
    → first.body ≡ account_created account_id owner_id currency
    → AreOf account_id before
    → IsOf account_id next.body
    → IsNumbered 0 (first ∷ before ++ lost ∷ next ∷ after)
    → replay when (first ∷ before) new_state ≡ ok s
    → project_all transfers (first ∷ before ++ next ∷ after) m
      ≡ err (projection_gap account_id lost.stream_version next.stream_version)
unfolding project_all
lost_event_noticed transfers account_id owner_id currency first lost next before after m s fresh
      opening of of_next numbered done =
    let (prefix, at_lost, at_next) =
      IsNumbered-around 0 (first ∷ before) lost next after numbered in
    let (m', ran, shown) =
      project_stream transfers account_id owner_id currency first before m s fresh opening of prefix
        done in
    let version : s.version ≡ 0 + length (first ∷ before) =
      replay-version (first ∷ before) new_state s prefix done in
    let missing : s.version + 1 ≡ lost.stream_version = omega (arith, version, at_lost) in
    let refused : project transfers next m'
        ≡ err (projection_gap account_id lost.stream_version next.stream_version) =
      gap_refused transfers account_id m' s next shown of_next (omega (arith, version, at_next))
      ∙ ap (λ n. err (projection_gap account_id n next.stream_version)) missing in
    project_all-append transfers (first ∷ before) (next ∷ after) m m' ran ∙ rw (refused) refl
