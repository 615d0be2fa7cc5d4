-- ===== src/Infrastructure/EventStore/Streams.antt =====
-- Every stream of the event store is numbered 1, 2, …; an append extends one stream and no other.
use event_sourced_core_banki.Base.{
  ℕ, zero, suc, ◌+◌, ◌≤◌, ◌≡◌, ◌≢◌, refl, ap, subst, List, [], ◌∷◌, ◌++◌, map, length, drop, select,
  arith, ltb, Bool-cases, inl, inr, Text, ◌==◌, eq_iff, get, put, get-put_self, get-put_ne,
}
use event_sourced_core_banki.Common.Result.{ok, err, wrong_expected_version}
use event_sourced_core_banki.Common.Event.{DomainEvent}
use event_sourced_core_banki.Infrastructure.Outbox.{stage}
use event_sourced_core_banki.Infrastructure.EventStore.{
  EventStore, PositionedEvent, or_empty, to_message, stream, renumber, push_all, append,
  read_stream, empty_store,
}

-- The versions of the events are k + 1, k + 2, ….
abbrev pub IsNumbered : ℕ → List DomainEvent → Type 0
IsNumbered k [] = Unit
IsNumbered k (event ∷ events) = (event.stream_version ≡ k + 1) × IsNumbered (k + 1) events

pub renumber-IsNumbered : (k : ℕ) (events : List DomainEvent) → IsNumbered k (renumber k events)
unfolding renumber
renumber-IsNumbered k [] = tt
renumber-IsNumbered k (event ∷ events) = (refl, renumber-IsNumbered (k + 1) events)

pub length-renumber :
    (k : ℕ) (events : List DomainEvent) → length (renumber k events) ≡ length events
unfolding renumber
length-renumber k [] = refl
length-renumber k (event ∷ events) = ap suc (length-renumber (k + 1) events)

-- Events that the aggregate has numbered already stay as they are.
pub renumber_self :
    (k : ℕ) (events : List DomainEvent) → IsNumbered k events → renumber k events ≡ events
unfolding renumber
renumber_self k [] h = refl
renumber_self k (event ∷ events) h = ground (arith, renumber_self (k + 1) events h.1)

pub IsNumbered-append :
    (k : ℕ) (xs ys : List DomainEvent)
    → IsNumbered k xs
    → IsNumbered (k + length xs) ys
    → IsNumbered k (xs ++ ys)
IsNumbered-append k [] ys hx hy = subst (λ n. IsNumbered n ys) (omega arith) hy
IsNumbered-append k (x ∷ xs) ys hx hy =
    (hx.0, IsNumbered-append (k + 1) xs ys hx.1 (subst (λ n. IsNumbered n ys) (omega arith) hy))

select-all :
    (v j : ℕ) (events : List DomainEvent)
    → IsNumbered j events
    → v ≤ j
    → select (λ event. ltb v event.stream_version) events ≡ events
select-all v j [] h l = refl
select-all v j (event ∷ events) h l = ground (arith, select-all v (j + 1) events h.1)

-- Reading from a version on gives what stands behind it.
select-drop :
    (k v n : ℕ) (events : List DomainEvent)
    → n ≡ k + v
    → IsNumbered k events
    → select (λ event. ltb n event.stream_version) events ≡ drop v events
select-drop k zero n [] e h = refl
select-drop k (suc v) n [] e h = refl
select-drop k zero n (event ∷ events) e h = select-all n k (event ∷ events) h (omega arith)
select-drop k (suc v) n (event ∷ events) e h =
    ground (arith, select-drop (k + 1) v n events (omega arith) h.1)

-- Positions are m + 1, m + 2, ….
abbrev pub IsPositioned : ℕ → List PositionedEvent → Type 0
IsPositioned m [] = Unit
IsPositioned m (p ∷ ps) = (p.position ≡ m + 1) × IsPositioned (m + 1) ps

IsPositioned-snoc :
    (m : ℕ) (ps : List PositionedEvent) (event : DomainEvent)
    → IsPositioned m ps
    → IsPositioned m (ps ++ record { event = event; position = m + length ps + 1 } ∷ [])
IsPositioned-snoc m [] event h = (omega arith, tt)
IsPositioned-snoc m (p ∷ ps) event h = (
  h.0,
  subst (λ n. IsPositioned (m + 1) (ps ++ record { event = event; position = n } ∷ []))
      (omega arith) (IsPositioned-snoc (m + 1) ps event h.1),
)

push_all-IsPositioned :
    (ps : List PositionedEvent) (events : List DomainEvent)
    → IsPositioned 0 ps
    → IsPositioned 0 (push_all ps events)
unfolding push_all
push_all-IsPositioned ps [] h = h
push_all-IsPositioned ps (event ∷ events) h =
    push_all-IsPositioned (ps ++ record { event = event; position = length ps + 1 } ∷ []) events (
      subst (λ n. IsPositioned 0 (ps ++ record { event = event; position = n } ∷ [])) (omega arith)
        (IsPositioned-snoc 0 ps event h))

-- Versions count from 1 in each stream, and positions count from 1 over all streams.
pub record IsValid (s : EventStore) : Type 0 where
  pub numbered : (stream_id : Text) → IsNumbered 0 (stream s stream_id)
  pub positioned : IsPositioned 0 s.all_events

pub empty_store-IsValid : IsValid empty_store
unfolding stream get
empty_store-IsValid = record { numbered = λ k. tt; positioned = tt }

-- The store after an accepted append.
unfoldable pub extended : EventStore → Text → List DomainEvent → EventStore
extended s stream_id events =
    let appended = renumber (length (stream s stream_id)) events in
    record {
      streams = put s.streams stream_id (stream s stream_id ++ appended);
      all_events = push_all s.all_events appended;
      outbox = stage s.outbox (map (to_message stream_id) appended);
    }

module _ (s : EventStore) (stream_id : Text) (events : List DomainEvent)
    (expected_version : ℕ) where
  -- An append whose expected version is not the length of the stream fails with
  -- WrongExpectedVersion, which states both versions.
  pub append-conflict :
      expected_version ≢ length (stream s stream_id)
      → append s stream_id events expected_version
        ≡ err (wrong_expected_version stream_id expected_version (length (stream s stream_id)))
  unfolding append
  append-conflict h = ground arith

  -- A writer that expects the length of the stream is accepted.
  pub append-extended :
      expected_version ≡ length (stream s stream_id)
      → append s stream_id events expected_version ≡ ok (extended s stream_id events)
  unfolding append extended
  append-extended e = ground arith

  module _ {s' : EventStore} (h : append s stream_id events expected_version ≡ ok s') where
    pub append-version : expected_version ≡ length (stream s stream_id)
    unfolding append
    append-version = ground arith

    append-streams :
        s'.streams
        ≡ put s.streams stream_id
            (stream s stream_id ++ renumber (length (stream s stream_id)) events)
    unfolding append
    append-streams = ground arith

    append-all_events :
        s'.all_events ≡ push_all s.all_events (renumber (length (stream s stream_id)) events)
    unfolding append
    append-all_events = ground arith

    pub append-outbox :
        s'.outbox
        ≡ stage s.outbox
            (map (to_message stream_id) (renumber (length (stream s stream_id)) events))
    unfolding append
    append-outbox = ground arith

    -- The stream that is written grows by the events, numbered on.
    pub stream-append_self :
        stream s' stream_id ≡ stream s stream_id ++ renumber expected_version events
    unfolding stream
    stream-append_self = rw (append-streams, get-put_self, append-version)

    -- Every other stream stays as it is.
    pub stream-append_ne : (j : Text) → stream_id ≢ j → stream s' j ≡ stream s j
    unfolding stream
    stream-append_ne j ne = rw append-streams (ap or_empty (get-put_ne s.streams _ ne))

    pub stream-append-IsNumbered : IsValid s → (j : Text) → IsNumbered 0 (stream s' j)
    stream-append-IsNumbered v j = elim (Bool-cases (stream_id == j)) [
      | inl same ↦
          subst (λ k. IsNumbered 0 (stream s' k)) ((eq_iff stream_id j).0 same)
            (rw stream-append_self (
              IsNumbered-append 0 (stream s stream_id) (renumber expected_version events)
                (v.numbered stream_id)
                (subst (λ n. IsNumbered n (renumber expected_version events))
                  (omega (arith, append-version)) (renumber-IsNumbered expected_version events))))
      | inr other ↦ rw (stream-append_ne j (λ e. cc ((eq_iff stream_id j).1 e))) (v.numbered j)
    ]

    -- An accepted append to a valid store keeps the versions of every stream numbered from 1
    -- without gaps, and the positions of the whole log numbered from 1 without gaps.
    pub append-IsValid : IsValid s → IsValid s'
    append-IsValid v = record {
      numbered = stream-append-IsNumbered v;
      positioned = rw append-all_events (push_all-IsPositioned s.all_events _ v.positioned);
    }

-- In a valid store, reading a stream from a version on gives exactly the events behind that
-- version.
pub read_stream-drop :
    (s : EventStore) (stream_id : Text) (version : ℕ)
    → IsValid s
    → read_stream s stream_id version ≡ drop version (stream s stream_id)
unfolding read_stream
read_stream-drop s stream_id version v =
    select-drop 0 version version (stream s stream_id) (omega arith) (v.numbered stream_id)
