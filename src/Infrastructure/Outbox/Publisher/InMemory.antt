-- ===== src/Infrastructure/Outbox/Publisher/InMemory.antt =====
-- infrastructure/outbox/in-memory-outbox-store.ts as a store of the publisher loop.
use event_sourced_core_banki.Base.{
  ℕ, ◌+◌, ◌≡◌, refl, sym, ap, ◌∙◌, Option, none, some, Bool, true, false, if◌then◌else◌, ◌⊎◌, inl,
  inr, Text, ◌==◌, eq_iff, arith, Dict, get, put, get-put,
}
use event_sourced_core_banki.Infrastructure.Outbox.{
  OutboxMessage, OutboxStore, claim_pending, mark_published, mark_failed,
}
use event_sourced_core_banki.Infrastructure.Outbox.Publisher.{Store}
use event_sourced_core_banki.Infrastructure.Outbox.Publisher.Sent.{OnlyMarks}

-- The methods of InMemoryOutboxStore, which do not throw, with the time of each mark.
unfoldable pub in_memory : ℕ → Store OutboxStore
unfolding claim_pending mark_published mark_failed
in_memory now = record {
  claim_pending = λ limit o. (some (claim_pending o limit).0, (claim_pending o limit).1);
  mark_published = λ id o. (none, mark_published o id now);
  mark_failed = λ id error o. (none, mark_failed o id error);
}

unfoldable pub is_published : Option OutboxMessage → Bool
is_published none = false
is_published (some m) = elim (m.published_at) [ none ↦ false | some _ ↦ true ]

-- The stored message with the id has a `publishedAt`.
unfoldable pub shows_published : OutboxStore → Text → Bool
unfolding is_published
shows_published o id = is_published (get o.messages id)

-- The test behind a lookup after a `put`.
if_published :
    (b : Bool) (x y : Option OutboxMessage)
    → is_published (if b then x else y) ≡ true
    → (b ≡ true) ⊎ (is_published y ≡ true)
if_published true x y h = inl refl
if_published false x y h = inr h

-- The messages after a mark of a message with the id that `found` gives.
unfoldable after_marking :
    Option OutboxMessage → OutboxStore → Text → (OutboxMessage → OutboxMessage) → Dict OutboxMessage
after_marking none o own change = o.messages
after_marking (some m) o own change = put o.messages own (change m)

marked_messages :
    (now : ℕ) (o : OutboxStore) (own : Text)
    → (mark_published o own now).messages
      ≡ after_marking
          (get o.messages own)
          o
          own
          (λ m. record m { published_at = some now; last_error = none })
unfolding mark_published after_marking
marked_messages now o own = ground arith

failed_messages :
    (o : OutboxStore) (own error : Text)
    → (mark_failed o own error).messages
      ≡ after_marking
          (get o.messages own)
          o
          own
          (λ m. record m { attempts = m.attempts + 1; last_error = some error })
unfolding mark_failed after_marking
failed_messages o own error = ground arith

marking_published :
    (o : OutboxStore) (own id : Text) (change : OutboxMessage → OutboxMessage)
    (found : Option OutboxMessage)
    → is_published (get (after_marking found o own change) id) ≡ true
    → ((own == id) ≡ true) ⊎ (is_published (get o.messages id) ≡ true)
unfolding after_marking
marking_published o own id change none h = inr h
marking_published o own id change (some m) h =
    if_published (own == id) (some (change m)) (get o.messages id)
      (sym (ap is_published (get-put o.messages own id (change m))) ∙ h)

marking_keeps :
    (o : OutboxStore) (own id : Text) (change : OutboxMessage → OutboxMessage)
    (same : (m : OutboxMessage) → is_published (some (change m)) ≡ is_published (some m))
    (found : Option OutboxMessage)
    → get o.messages own ≡ found
    → is_published (get (after_marking found o own change) id) ≡ is_published (get o.messages id)
unfolding after_marking
marking_keeps o own id change same none e = refl
marking_keeps o own id change same (some m) e =
    ground (arith, get-put o.messages own id (change m), eq_iff own id, same m)

pub in_memory-OnlyMarks : (now : ℕ) → OnlyMarks (in_memory now) shows_published
unfolding in_memory shows_published is_published claim_pending
in_memory-OnlyMarks now = record {
  claims = λ limit o id. refl;
  marks = λ own o id h.
      marking_published o own id _ _
        (sym (ap (λ ms. is_published (get ms id)) (marked_messages now o own)) ∙ h);
  fails = λ own error o id.
      ap (λ ms. is_published (get ms id)) (failed_messages o own error)
      ∙ marking_keeps o own id _ (λ m. refl) _ refl;
}
