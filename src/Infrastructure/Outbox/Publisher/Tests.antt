-- ===== src/Infrastructure/Outbox/Publisher/Tests.antt =====
-- The publisher loop at concrete messages, over the in-memory store.
use event_sourced_core_banki.Base.{
  ℕ, zero, suc, values, ◌≡◌, refl, Option, none, some, true, [], ◌∷◌, ◌⊎◌, Text, text, get, put,
  ◌==◌,
}
use event_sourced_core_banki.Common.Event.{CommandContext, DomainEvent, EventBody}
use event_sourced_core_banki.Infrastructure.Outbox.{
  OutboxMessage, OutboxStore, claim_pending, mark_published, mark_failed, is_pending, is_claimed,
  sort_messages, insert_message, not_after, unclaim,
}
use event_sourced_core_banki.Infrastructure.Outbox.Publisher.{Publisher, run_loop}
use event_sourced_core_banki.Infrastructure.Outbox.Publisher.Sent.{was_sent, published_was_sent}
use event_sourced_core_banki.Infrastructure.Outbox.Publisher.InMemory.{
  in_memory, shows_published, is_published, in_memory-OnlyMarks,
}

abbrev context : CommandContext
context = record {
  command_id = b'c' ∷ [];
  correlation_id = b'r' ∷ [];
  causation_id = none;
  actor = none;
  trace_id = none;
}

abbrev frozen_event : DomainEvent
frozen_event = record {
  event_id = b'e' ∷ [];
  stream_id = b's' ∷ [];
  stream_version = 1;
  body = EventBody.account_frozen (some (b'a' ∷ [])) (b'x' ∷ []);
  occurred_at = 5;
  metadata = context;
}

abbrev pub message : Text → ℕ → OutboxMessage
message id created_at = record {
  id = id;
  topic = b't' ∷ [];
  message_key = b's' ∷ [];
  payload = frozen_event;
  created_at = created_at;
  event_position = some created_at;
  published_at = none;
  attempts = 0;
  last_error = none;
}

-- A broker that refuses every other message.
abbrev every_other : OutboxMessage → ℕ → Option Text × ℕ
every_other m zero = (none, 1)
every_other m (suc _) = (some (text "no"), 0)

abbrev staged : Publisher OutboxStore ℕ
staged = record {
  store = record {
    messages = (b'b' ∷ [], message (b'b' ∷ []) 2) ∷ (b'a' ∷ [], message (b'a' ∷ []) 1) ∷ [];
    claimed = [];
  };
  broker = 0;
  sent = [];
}

-- The older message is taken first, the other is refused and tried again.
first_turn : (run_loop (in_memory 9) every_other 1 staged).sent ≡ message (b'a' ∷ []) 1 ∷ []
unfolding run_loop in_memory claim_pending mark_published mark_failed is_pending is_claimed
    sort_messages insert_message not_after unclaim values get put ◌==◌
first_turn = refl

second_turn : shows_published (run_loop (in_memory 9) every_other 2 staged).store (b'b' ∷ []) ≡ true
unfolding run_loop in_memory shows_published is_published claim_pending mark_published mark_failed
    is_pending is_claimed sort_messages insert_message not_after unclaim values get put ◌==◌
second_turn = refl

published_was_sent_example :
    (shows_published staged.store (b'b' ∷ []) ≡ true)
    ⊎ (was_sent (run_loop (in_memory 9) every_other 2 staged).sent (b'b' ∷ []) ≡ true)
published_was_sent_example =
    published_was_sent (in_memory 9) every_other shows_published (in_memory-OnlyMarks 9) 2 staged
      (b'b' ∷ []) second_turn
