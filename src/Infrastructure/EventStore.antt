-- ===== src/Infrastructure/EventStore.antt =====
-- infrastructure/event-store/in-memory-event-store.ts, over the outbox store that it stages into.
pub mod Streams
use event_sourced_core_banki.Base.{
  ℕ, zero, suc, ◌+◌, Option, none, some, Bool, true, false, not, List, [], ◌∷◌, ◌++◌, map, length,
  take, select, ltb, eqb, if◌then◌else◌, Text, text, Dict, get, put,
}
use event_sourced_core_banki.Common.Result.{Result, ok, err, wrong_expected_version}
use event_sourced_core_banki.Common.Event.{DomainEvent}
use event_sourced_core_banki.Infrastructure.Outbox.{OutboxMessage, OutboxStore, empty_outbox, stage}

pub record PositionedEvent : Type 0 where
  pub event : DomainEvent
  pub position : ℕ

pub record EventStore : Type 0 where
  pub streams : Dict (List DomainEvent)
  pub all_events : List PositionedEvent
  pub outbox : OutboxStore

abbrev pub empty_store : EventStore
empty_store = record { streams = []; all_events = []; outbox = empty_outbox }

abbrev pub or_empty : Option (List DomainEvent) → List DomainEvent
or_empty none = []
or_empty (some events) = events

-- `this.streams.get(streamId) ?? []`
unfoldable pub stream : EventStore → Text → List DomainEvent
stream s stream_id = or_empty (get s.streams stream_id)

-- `events.map((event, index) => ({ ...event, streamVersion: currentVersion + index + 1 }))`
unfoldable pub renumber : ℕ → List DomainEvent → List DomainEvent
renumber version [] = []
renumber version (event ∷ events) =
    record event { stream_version = version + 1 } ∷ renumber (version + 1) events

unfoldable pub push_all : List PositionedEvent → List DomainEvent → List PositionedEvent
push_all all [] = all
push_all all (event ∷ events) =
    push_all (all ++ record { event = event; position = length all + 1 } ∷ []) events

-- `streamId.split('-')[0]`
unfoldable pub before_dash : Text → Text
before_dash [] = []
before_dash (c ∷ s) = if eqb c b'-' then [] else c ∷ before_dash s

unfoldable pub topic_for_stream : Text → Text
unfolding before_dash
topic_for_stream stream_id = before_dash stream_id ++ text "-events"

unfoldable pub to_message : Text → DomainEvent → OutboxMessage
to_message stream_id event = record {
  id = event.event_id;
  topic = topic_for_stream stream_id;
  message_key = stream_id;
  payload = event;
  created_at = event.occurred_at;
  event_position = none;
  published_at = none;
  attempts = 0;
  last_error = none;
}

unfoldable pub append : EventStore → Text → List DomainEvent → ℕ → Result EventStore
append s stream_id events expected_version =
    let current = stream s stream_id in
    let current_version = length current in
    let appended = renumber current_version events in
    if eqb expected_version current_version
    then ok (record {
      streams = put s.streams stream_id (current ++ appended);
      all_events = push_all s.all_events appended;
      outbox = stage s.outbox (map (to_message stream_id) appended);
    })
    else err (wrong_expected_version stream_id expected_version current_version)

unfoldable pub read_stream : EventStore → Text → ℕ → List DomainEvent
read_stream s stream_id from_version =
    select (λ event. ltb from_version event.stream_version) (stream s stream_id)

unfoldable pub read_all : EventStore → ℕ → ℕ → List PositionedEvent
read_all s from_position max_count =
    take max_count (select (λ event. ltb from_position event.position) s.all_events)
