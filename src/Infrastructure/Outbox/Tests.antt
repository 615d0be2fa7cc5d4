-- ===== src/Infrastructure/Outbox/Tests.antt =====
-- The outbox at two messages that two publishers claim.
use event_sourced_core_banki.Base.{
  ◌≡◌, ◌≢◌, refl, true, false, eq_iff, Text, map, List, [], ◌∷◌, text, All, get, put, values, ◌==◌,
}
use event_sourced_core_banki.Infrastructure.Outbox.{
  OutboxStore, claim_pending, mark_failed, is_pending, is_claimed, sort_messages, insert_message,
  not_after, stage, stage_one, unclaim,
}
use event_sourced_core_banki.Infrastructure.Outbox.Claims.{
  Operation, Spares, stages, claims, fails, operate, operate_all, claimed_once,
}
use event_sourced_core_banki.Infrastructure.Outbox.Publisher.Tests.{message}

abbrev outbox : OutboxStore
outbox = record {
  messages = (b'b' ∷ [], message (b'b' ∷ []) 2) ∷ (b'a' ∷ [], message (b'a' ∷ []) 1) ∷ [];
  claimed = [];
}

-- A third message is staged, another publisher claims the second one and fails on it.
abbrev between : List Operation
between = stages (message (b'c' ∷ []) 3 ∷ []) ∷ claims 1 ∷ fails (b'b' ∷ []) (text "no") ∷ []

handed_next :
    map (λ m. m.id) (claim_pending (operate_all between (claim_pending outbox 1).1) 5).0
    ≡ (b'b' ∷ []) ∷ (b'c' ∷ []) ∷ []
unfolding operate_all operate claim_pending mark_failed is_pending is_claimed sort_messages
    insert_message not_after stage stage_one unclaim values get put ◌==◌
handed_next = refl

abbrev older : Text
older = b'a' ∷ []

abbrev newer : Text
newer = b'b' ∷ []

other_id : newer ≢ older
unfolding ◌==◌
other_id same = let wrong : false ≡ true = (eq_iff newer older).1 same in absurd cc

claimed_once_example :
    All (λ m. m.id ≢ older) (claim_pending (operate_all between (claim_pending outbox 1).1) 5).0
unfolding Spares claim_pending is_pending is_claimed sort_messages insert_message not_after values
    ◌==◌
claimed_once_example = claimed_once outbox 1 5 between older refl (tt, (tt, (other_id, tt)))
