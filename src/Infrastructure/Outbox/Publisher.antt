-- ===== src/Infrastructure/Outbox/Publisher.antt =====
-- infrastructure/outbox/outbox-publisher.service.ts: the loop that hands staged messages to the
-- broker. The loop runs over any outbox store whose methods may throw (the service starts it with
-- PostgreSQL), and the broker, which `KafkaClient.publish` reaches, is a parameter; metrics, logs
-- and sleeping are left out.
pub mod Sent
pub mod InMemory
pub mod Tests
use event_sourced_core_banki.Base.{
  ℕ, zero, suc, Option, none, some, Bool, true, false, List, [], ◌∷◌, if◌then◌else◌, Text,
}
use event_sourced_core_banki.Infrastructure.Outbox.{OutboxMessage}

-- The methods of `OutboxStore` that the publisher calls, on the states of a store. A claim that
-- throws is `none`; a mark that throws gives the error's message.
pub record Store {ℓ} (S : Type ℓ) : Type ℓ where
  pub claim_pending : ℕ → S → Option (List OutboxMessage) × S
  pub mark_published : Text → S → Option Text × S
  pub mark_failed : Text → Text → S → Option Text × S

-- The store, the broker, and the messages that the broker has taken, the newest first.
pub record Publisher {ℓ} (S B : Type ℓ) : Type ℓ where
  pub store : S
  pub broker : B
  pub sent : List OutboxMessage

-- `private readonly batchSize = 100`
abbrev pub batch_size : ℕ
batch_size = 100

module _ {ℓ} {S B : Type ℓ} (methods : Store S)
    (publish : OutboxMessage → B → Option Text × B) where
  -- Whether an awaited call returned, and the publisher after it.
  unfoldable pub after_mark : Publisher S B → Option Text × S → Bool × Publisher S B
  after_mark p (none, s) = (true, record p { store = s })
  after_mark p (some _, s) = (false, record p { store = s })

  -- The body of `catch (error)`.
  unfoldable pub catch_message : OutboxMessage → Text → Publisher S B → Bool × Publisher S B
  unfolding after_mark
  catch_message message error p = after_mark p (methods.mark_failed message.id error p.store)

  unfoldable pub after_published :
      OutboxMessage → Publisher S B → Option Text × S → Bool × Publisher S B
  unfolding catch_message
  after_published message p (none, s) = (true, record p { store = s })
  after_published message p (some error, s) = catch_message message error (record p { store = s })

  -- The rest of the `try` block, once the broker has answered.
  unfoldable pub after_publish :
      OutboxMessage → Publisher S B → Option Text × B → Bool × Publisher S B
  unfolding after_published catch_message
  after_publish message p (none, b) =
      after_published message (record p { broker = b; sent = message ∷ p.sent })
        (methods.mark_published message.id p.store)
  after_publish message p (some error, b) = catch_message message error (record p { broker = b })

  unfoldable pub publish_message : OutboxMessage → Publisher S B → Bool × Publisher S B
  unfolding after_publish
  publish_message message p = after_publish message p (publish message p.broker)

  -- The `for` loop over the claimed messages; an error of the `catch` body ends it.
  unfoldable pub publish_messages : List OutboxMessage → Publisher S B → Publisher S B
  unfolding publish_message
  publish_messages [] p = p
  publish_messages (message ∷ messages) p =
      let done = publish_message message p in
      let rest = publish_messages messages done.1 in if done.0 then rest else done.1

  -- One turn of the `while` loop, whose `catch` goes on with the next turn.
  unfoldable pub after_claim : Publisher S B → Option (List OutboxMessage) × S → Publisher S B
  unfolding publish_messages
  after_claim p (none, s) = record p { store = s }
  after_claim p (some messages, s) = publish_messages messages (record p { store = s })

  unfoldable pub publish_batch : Publisher S B → Publisher S B
  unfolding after_claim
  publish_batch p = after_claim p (methods.claim_pending batch_size p.store)

  -- The loop, when `isRunning` is cleared after so many turns.
  unfoldable pub run_loop : ℕ → Publisher S B → Publisher S B
  unfolding publish_batch
  run_loop zero p = p
  run_loop (suc turns) p = run_loop turns (publish_batch p)
