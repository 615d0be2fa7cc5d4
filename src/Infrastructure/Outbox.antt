-- ===== src/Infrastructure/Outbox.antt =====
-- infrastructure/outbox/in-memory-outbox-store.ts. Times are milliseconds, and a missing field or
-- null is `none`.
pub mod Claims
pub mod Publisher
mod Tests
use event_sourced_core_banki.Base.{
  ℕ, ◌+◌, Option, none, some, Bool, false, not, List, [], ◌∷◌, ◌++◌, map, take, select, has_some,
  ltb, leb, eqb, if◌then◌else◌, Text, ◌==◌, Dict, get, put, values,
}
use event_sourced_core_banki.Common.Event.{DomainEvent}

pub record OutboxMessage : Type 0 where
  pub id : Text
  pub topic : Text
  pub message_key : Text
  pub payload : DomainEvent
  pub created_at : ℕ
  pub event_position : Option ℕ
  pub published_at : Option ℕ
  pub attempts : ℕ
  pub last_error : Option Text

pub record OutboxStore : Type 0 where
  pub messages : Dict OutboxMessage
  pub claimed : List Text

abbrev pub empty_outbox : OutboxStore
empty_outbox = record { messages = []; claimed = [] }

-- `this.messages.has(message.id)` decides whether a message is new.
unfoldable pub stage_one : OutboxStore → OutboxMessage → OutboxStore
stage_one o message = elim (get o.messages message.id) [
  | none ↦ record o { messages = put o.messages message.id message }
  | some _ ↦ o
]

unfoldable pub stage : OutboxStore → List OutboxMessage → OutboxStore
unfolding stage_one
stage o [] = o
stage o (message ∷ messages) = stage (stage_one o message) messages

-- `this.claimed.has(id)`
unfoldable pub is_claimed : List Text → Text → Bool
is_claimed claimed id = has_some (λ c. c == id) claimed

-- `!message.publishedAt && !this.claimed.has(message.id)`
unfoldable pub is_pending : List Text → OutboxMessage → Bool
unfolding is_claimed
is_pending claimed message = elim (message.published_at) [
  | none ↦ not (is_claimed claimed message.id)
  | some _ ↦ false
]

-- `Number.MAX_SAFE_INTEGER`
abbrev pub max_safe_integer : ℕ
max_safe_integer = 9007199254740991

unfoldable pub position_or_max : OutboxMessage → ℕ
position_or_max message = elim (message.event_position) [ none ↦ max_safe_integer | some p ↦ p ]

-- The comparator of `sort` is at most 0.
unfoldable pub not_after : OutboxMessage → OutboxMessage → Bool
unfolding position_or_max
not_after left right =
    if eqb (position_or_max left) (position_or_max right)
    then leb left.created_at right.created_at
    else ltb (position_or_max left) (position_or_max right)

-- `Array.prototype.sort` is stable; so is this insertion sort.
unfoldable pub insert_message : OutboxMessage → List OutboxMessage → List OutboxMessage
insert_message m [] = m ∷ []
insert_message m (x ∷ xs) = if not_after m x then m ∷ x ∷ xs else x ∷ insert_message m xs

unfoldable pub sort_messages : List OutboxMessage → List OutboxMessage
unfolding insert_message
sort_messages [] = []
sort_messages (m ∷ ms) = insert_message m (sort_messages ms)

unfoldable pub claim_pending : OutboxStore → ℕ → List OutboxMessage × OutboxStore
claim_pending o limit =
    let pending = take limit (sort_messages (select (is_pending o.claimed) (values o.messages))) in
    (pending, record o { claimed = map (λ m. m.id) pending ++ o.claimed })

-- `this.claimed.delete(id)`
unfoldable pub unclaim : List Text → Text → List Text
unclaim claimed id = select (λ c. not (c == id)) claimed

unfoldable pub mark_published : OutboxStore → Text → ℕ → OutboxStore
unfolding unclaim
mark_published o id published_at = elim (get o.messages id) [
  | none ↦ o
  | some current ↦ record {
    messages =
        put o.messages id (record current { published_at = some published_at; last_error = none });
    claimed = unclaim o.claimed id;
  }
]

unfoldable pub mark_failed : OutboxStore → Text → Text → OutboxStore
unfolding unclaim
mark_failed o id error = elim (get o.messages id) [
  | none ↦ o
  | some current ↦ record {
    messages =
        put o.messages id
          (record current { attempts = current.attempts + 1; last_error = some error });
    claimed = unclaim o.claimed id;
  }
]
