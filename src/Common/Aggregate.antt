-- ===== src/Common/Aggregate.antt =====
-- common/domain/aggregate-root.ts: the base class of the aggregates, over the state of the
-- subclass and its `when`, which may throw.
pub mod Raising
use event_sourced_core_banki.Base.{
  ℕ, ◌≡◌, refl, sym, ◌∙◌, Bool, true, false, List, [], ◌∷◌, ◌++◌, append-nil, append_assoc, arith,
  if◌then◌else◌,
}
use event_sourced_core_banki.Common.Result.{
  Result, ok, err, ◌>>=◌, >>=-eq-ok, bind_assoc, bind_cong,
}
use event_sourced_core_banki.Common.Event.{DomainEvent}

pub record Aggregate (S : Type 0) : Type 0 where
  pub state : S
  pub uncommitted_events : List DomainEvent

module _ {S : Type 0} (when : DomainEvent → S → Result S) where
  unfoldable pub apply : DomainEvent → Bool → Aggregate S → Result (Aggregate S)
  apply event is_from_history a = do
    s ← when event a.state
    ok (record {
      state = s;
      uncommitted_events =
          if is_from_history then a.uncommitted_events else a.uncommitted_events ++ event ∷ [];
    })

  unfoldable pub load_from_history : List DomainEvent → Aggregate S → Result (Aggregate S)
  unfolding apply
  load_from_history [] a = ok a
  load_from_history (event ∷ events) a = do a' ← apply event true a; load_from_history events a'

  -- The state alone, folded over a history.
  unfoldable pub replay : List DomainEvent → S → Result S
  replay [] s = ok s
  replay (event ∷ events) s = when event s >>= replay events

-- The pulled events, and the aggregate with none left.
unfoldable pub pull_uncommitted_events : {S : Type 0} → Aggregate S → List DomainEvent × Aggregate S
pull_uncommitted_events a = (a.uncommitted_events, record a { uncommitted_events = [] })

-- What `replay` gives, put back into an aggregate.
abbrev pub with_state : {S : Type 0} → List DomainEvent → Result S → Result (Aggregate S)
with_state pending r = r >>= λ s. ok (record { state = s; uncommitted_events = pending })

module _ {S : Type 0} (when : DomainEvent → S → Result S) where
  -- Loading a history replays it on the state and raises nothing.
  pub load_from_history-replay :
      (events : List DomainEvent) (a : Aggregate S)
      → load_from_history when events a
        ≡ with_state a.uncommitted_events (replay when events a.state)
  unfolding load_from_history replay
  load_from_history-replay [] a = refl
  load_from_history-replay (event ∷ events) a =
      bind_assoc (when event a.state) _ _
      ∙ bind_cong (when event a.state) _ _ (λ s.
        load_from_history-replay events
          (record { state = s; uncommitted_events = a.uncommitted_events }))
      ∙ sym (bind_assoc (when event a.state) (replay when events) _)

  pub replay-append :
      (xs ys : List DomainEvent) (s : S)
      → replay when (xs ++ ys) s ≡ (replay when xs s >>= replay when ys)
  unfolding replay
  replay-append [] ys s = refl
  replay-append (x ∷ xs) ys s =
      bind_cong (when x s) _ _ (λ s'. replay-append xs ys s')
      ∙ sym (bind_assoc (when x s) (replay when xs) (replay when ys))

  pub replay-one : (event : DomainEvent) (s : S) → replay when (event ∷ []) s ≡ when event s
  unfolding replay
  replay-one event s = elim (when event s) as (λ r. (r >>= (λ s'. ok s')) ≡ r) [
    | ok s' ↦ refl
    | err e ↦ refl
  ]
