-- ===== src/Infrastructure/Outbox/Publisher/Sent.antt =====
-- What the publisher loop marks as published: the laws of the store that it relies on, and what
-- follows for the loop.
use event_sourced_core_banki.Base.{
  ℕ, zero, suc, ◌≡◌, sym, ◌∙◌, if◌then◌else◌, Option, none, some, Bool, true, false, List, [], ◌∷◌,
  ◌⊎◌, inl, inr, has_some, Text, ◌==◌, arith,
}
use event_sourced_core_banki.Infrastructure.Outbox.{OutboxMessage}
use event_sourced_core_banki.Infrastructure.Outbox.Publisher.{
  Store, Publisher, batch_size, after_mark, catch_message, after_published, after_publish,
  publish_message, publish_messages, after_claim, publish_batch, run_loop,
}

-- A message with the id is among those the broker has taken.
unfoldable pub was_sent : List OutboxMessage → Text → Bool
was_sent sent id = has_some (λ m. m.id == id) sent

-- What a store promises of the messages that it shows as published: only markPublished adds one,
-- even when a method throws.
pub record OnlyMarks {ℓ} {S : Type ℓ} (methods : Store S) (shows : S → Text → Bool) : Type ℓ where
  pub claims :
      (limit : ℕ) (s : S) (id : Text) → shows (methods.claim_pending limit s).1 id ≡ shows s id
  pub marks :
      (own : Text) (s : S) (id : Text)
      → shows (methods.mark_published own s).1 id ≡ true
      → ((own == id) ≡ true) ⊎ (shows s id ≡ true)
  pub fails :
      (own error : Text) (s : S) (id : Text)
      → shows (methods.mark_failed own error s).1 id ≡ shows s id

module _ {ℓ} {S B : Type ℓ} (methods : Store S) (publish : OutboxMessage → B → Option Text × B)
    (shows : S → Text → Bool) (laws : OnlyMarks methods shows) where
  -- What is shown as published was shown at first, or was sent.
  unfoldable pub IsCovered : S → Publisher S B → Type 0
  unfolding was_sent
  IsCovered first p =
      (id : Text) → shows p.store id ≡ true → (shows first id ≡ true) ⊎ (was_sent p.sent id ≡ true)

  after_mark-IsCovered :
      (first : S) (p : Publisher S B) (r : Option Text × S)
      → IsCovered first (record p { store = r.1 })
      → IsCovered first (after_mark methods publish p r).1
  unfolding after_mark
  after_mark-IsCovered first p (none, s) h = h
  after_mark-IsCovered first p (some _, s) h = h

  catch_message-IsCovered :
      (first : S) (m : OutboxMessage) (error : Text) (p : Publisher S B)
      → IsCovered first p
      → IsCovered first (catch_message methods publish m error p).1
  unfolding catch_message IsCovered
  catch_message-IsCovered first m error p h =
      after_mark-IsCovered first p (methods.mark_failed m.id error p.store)
        (λ id shown. h id (sym (laws.fails m.id error p.store id) ∙ shown))

  after_published-IsCovered :
      (first : S) (m : OutboxMessage) (p : Publisher S B) (r : Option Text × S)
      → IsCovered first (record p { store = r.1 })
      → IsCovered first (after_published methods publish m p r).1
  unfolding after_published
  after_published-IsCovered first m p (none, s) h = h
  after_published-IsCovered first m p (some error, s) h = catch_message-IsCovered first m error _ h

  marked-IsCovered :
      (first : S) (m : OutboxMessage) (p : Publisher S B) (b : B)
      → IsCovered first p
      → IsCovered first (record p {
        store = (methods.mark_published m.id p.store).1;
        broker = b;
        sent = m ∷ p.sent;
      })
  unfolding IsCovered was_sent
  marked-IsCovered first m p b h id shown = elim (laws.marks m.id p.store id shown) [
    | inl own ↦ inr (ground (arith, own))
    | inr before ↦ elim (h id before) [
      | inl early ↦ inl early
      | inr sent ↦ inr (ground (arith, sent))
    ]
  ]

  after_publish-IsCovered :
      (first : S) (m : OutboxMessage) (p : Publisher S B) (r : Option Text × B)
      → IsCovered first p
      → IsCovered first (after_publish methods publish m p r).1
  unfolding after_publish IsCovered
  after_publish-IsCovered first m p (none, b) h =
      after_published-IsCovered first m (record p { broker = b; sent = m ∷ p.sent })
        (methods.mark_published m.id p.store) (marked-IsCovered first m p b h)
  after_publish-IsCovered first m p (some error, b) h =
      catch_message-IsCovered first m error (record p { broker = b }) (λ id shown. h id shown)

  if-IsCovered :
      (first : S) (b : Bool) (p q : Publisher S B)
      → IsCovered first p
      → IsCovered first q
      → IsCovered first (if b then p else q)
  if-IsCovered first true p q h k = h
  if-IsCovered first false p q h k = k

  publish_messages-IsCovered :
      (first : S) (ms : List OutboxMessage) (p : Publisher S B)
      → IsCovered first p
      → IsCovered first (publish_messages methods publish ms p)
  unfolding publish_messages publish_message
  publish_messages-IsCovered first [] p h = h
  publish_messages-IsCovered first (m ∷ ms) p h =
      let one = after_publish-IsCovered first m p (publish m p.broker) h in
      if-IsCovered first _ _ _ (publish_messages-IsCovered first ms _ one) one

  after_claim-IsCovered :
      (first : S) (p : Publisher S B) (r : Option (List OutboxMessage) × S)
      → IsCovered first (record p { store = r.1 })
      → IsCovered first (after_claim methods publish p r)
  unfolding after_claim
  after_claim-IsCovered first p (none, s) h = h
  after_claim-IsCovered first p (some ms, s) h = publish_messages-IsCovered first ms _ h

  publish_batch-IsCovered :
      (first : S) (p : Publisher S B)
      → IsCovered first p
      → IsCovered first (publish_batch methods publish p)
  unfolding publish_batch IsCovered
  publish_batch-IsCovered first p h =
      after_claim-IsCovered first p (methods.claim_pending batch_size p.store)
        (λ id shown. h id (sym (laws.claims batch_size p.store id) ∙ shown))

  run_loop-IsCovered :
      (first : S) (turns : ℕ) (p : Publisher S B)
      → IsCovered first p
      → IsCovered first (run_loop methods publish turns p)
  unfolding run_loop
  run_loop-IsCovered first zero p h = h
  run_loop-IsCovered first (suc turns) p h =
      run_loop-IsCovered first turns _ (publish_batch-IsCovered first p h)

  -- Over a store that shows a message as published only once markPublished is called for it,
  -- whatever calls throw and whatever the broker refuses: after any number of turns of the
  -- publisher loop, each message that the store shows as published was shown at the start or was
  -- taken by the broker.
  pub published_was_sent :
      (turns : ℕ) (p : Publisher S B) (id : Text)
      → shows (run_loop methods publish turns p).store id ≡ true
      → (shows p.store id ≡ true) ⊎ (was_sent (run_loop methods publish turns p).sent id ≡ true)
  unfolding IsCovered
  published_was_sent turns p = run_loop-IsCovered p.store turns p (λ id shown. inl shown)
