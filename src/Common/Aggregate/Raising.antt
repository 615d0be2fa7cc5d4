-- ===== src/Common/Aggregate/Raising.antt =====
-- What a command method of an aggregate does when it succeeds: it raises one event.
use event_sourced_core_banki.Base.{ℕ, ◌+◌, ◌≡◌, refl, Bool, true, false, [], ◌∷◌, ◌++◌, arith}
use event_sourced_core_banki.Common.Result.{Error, Result, ok, >>=-eq-ok, throw_if}
use event_sourced_core_banki.Common.Event.{DomainEvent}
use event_sourced_core_banki.Common.Aggregate.{Aggregate, apply}

-- One new event stands behind the pending ones, it has the next version, and it is what changed
-- the state.
pub record Raising {S : Type 0} (when : DomainEvent → S → Result S) (version : S → ℕ)
    (a a' : Aggregate S) : Type 0 where
  pub event : DomainEvent
  pub pending : a'.uncommitted_events ≡ a.uncommitted_events ++ event ∷ []
  pub numbered : event.stream_version ≡ version a.state + 1
  pub applied : when event a.state ≡ ok a'.state

module _ {S : Type 0} (when : DomainEvent → S → Result S) (version : S → ℕ) where
  pub apply-Raising :
      (a : Aggregate S) {a' : Aggregate S} (event : DomainEvent)
      → event.stream_version ≡ version a.state + 1
      → apply when event false a ≡ ok a'
      → Raising when version a a'
  unfolding apply
  apply-Raising a event n h =
      let (s, w, e) = >>=-eq-ok (when event a.state) _ h in
      record { event = event; pending = ground arith; numbered = n; applied = ground arith }

module _ {S : Type 0} (when : DomainEvent → S → Result S) where
  pub apply-state :
      (a : Aggregate S) (event : DomainEvent) {s : S} {a' : Aggregate S}
      → when event a.state ≡ ok s
      → apply when event false a ≡ ok a'
      → a'.state ≡ s
  unfolding apply
  apply-state a event w h = ground arith

pub throw_if-ok : (b : Bool) (e : Error) {u : Unit {0}} → throw_if b e ≡ ok u → b ≡ false
throw_if-ok true e h = cc
throw_if-ok false e h = refl
