-- ===== src/Infrastructure/Outbox/Claims.antt =====
-- infrastructure/outbox/in-memory-outbox-store.ts: a message is claimed by one publisher at a time.
use event_sourced_core_banki.Base.{
  ℕ, ◌≡◌, ◌≢◌, refl, ap, ◌∙◌, eq_iff, Bool, true, false, List, [], ◌∷◌, ◌++◌, map, select, All,
  All-take, arith, if◌then◌else◌, Text, values,
}
use event_sourced_core_banki.Infrastructure.Outbox.{
  OutboxMessage, OutboxStore, is_claimed, is_pending, not_after, insert_message, sort_messages,
  claim_pending, unclaim, stage_one, stage, mark_published, mark_failed,
}

All-if :
    {A : Type 0} (P : A → Type 0) (b : Bool) (xs ys : List A)
    → (b ≡ true → All P xs)
    → (b ≡ false → All P ys)
    → All P (if b then xs else ys)
All-if P true xs ys h k = h refl
All-if P false xs ys h k = k refl

All-select : {A : Type 0} (p : A → Bool) (xs : List A) → All (λ x. p x ≡ true) (select p xs)
All-select p [] = tt
All-select p (x ∷ xs) =
    All-if (λ y. p y ≡ true) (p x) (x ∷ select p xs) (select p xs) (λ e. (e, All-select p xs))
      (λ e. All-select p xs)

All-weaken :
    {A : Type 0} (P Q : A → Type 0) (f : (x : A) → P x → Q x) (xs : List A) → All P xs → All Q xs
All-weaken P Q f [] h = tt
All-weaken P Q f (x ∷ xs) h = (f x h.0, All-weaken P Q f xs h.1)

All-insert_message :
    (P : OutboxMessage → Type 0) (m : OutboxMessage) (xs : List OutboxMessage)
    → P m
    → All P xs
    → All P (insert_message m xs)
unfolding insert_message
All-insert_message P m [] h hs = (h, tt)
All-insert_message P m (x ∷ xs) h hs =
    All-if P (not_after m x) (m ∷ x ∷ xs) (x ∷ insert_message m xs) (λ e. (h, hs))
      (λ e. (hs.0, All-insert_message P m xs h hs.1))

All-sort_messages :
    (P : OutboxMessage → Type 0) (xs : List OutboxMessage) → All P xs → All P (sort_messages xs)
unfolding sort_messages
All-sort_messages P [] h = tt
All-sort_messages P (x ∷ xs) h =
    All-insert_message P x (sort_messages xs) h.0 (All-sort_messages P xs h.1)

is_claimed-append :
    (xs ys : List Text) (id : Text) → is_claimed (xs ++ ys) id ≡ false → is_claimed xs id ≡ false
unfolding is_claimed
is_claimed-append [] ys id h = refl
is_claimed-append (x ∷ xs) ys id h = ground (arith, is_claimed-append xs ys id)

not_claimed :
    (claimed : List Text) (m : OutboxMessage)
    → is_pending claimed m ≡ true
    → is_claimed claimed m.id ≡ false
unfolding is_pending
not_claimed claimed m h = ground arith

is_claimed-behind :
    (xs ys : List Text) (id : Text) → is_claimed ys id ≡ true → is_claimed (xs ++ ys) id ≡ true
unfolding is_claimed
is_claimed-behind [] ys id h = h
is_claimed-behind (x ∷ xs) ys id h = ground (arith, is_claimed-behind xs ys id)

is_claimed-front :
    (xs ys : List Text) (id : Text) → is_claimed xs id ≡ true → is_claimed (xs ++ ys) id ≡ true
unfolding is_claimed
is_claimed-front [] ys id h = cc
is_claimed-front (x ∷ xs) ys id h = ground (arith, is_claimed-front xs ys id)

is_claimed-unclaim :
    (xs : List Text) (own id : Text)
    → own ≢ id
    → is_claimed xs id ≡ true
    → is_claimed (unclaim xs own) id ≡ true
unfolding is_claimed unclaim
is_claimed-unclaim [] own id other h = h
is_claimed-unclaim (x ∷ xs) own id other h =
    ground (arith, eq_iff x own, eq_iff x id, is_claimed-unclaim xs own id other)

-- What may happen to the outbox: messages are staged, claimed, and marked.
pub data Operation : Type 0 where
  stages : List OutboxMessage → Operation
  claims : ℕ → Operation
  publishes : Text → ℕ → Operation
  fails : Text → Text → Operation

unfoldable pub operate : Operation → OutboxStore → OutboxStore
operate (stages messages) o = stage o messages
operate (claims limit) o = (claim_pending o limit).1
operate (publishes id time) o = mark_published o id time
operate (fails id error) o = mark_failed o id error

unfoldable pub operate_all : List Operation → OutboxStore → OutboxStore
unfolding operate
operate_all [] o = o
operate_all (operation ∷ operations) o = operate_all operations (operate operation o)

-- The operation does not mark the message with the id.
unfoldable pub Spares : Text → Operation → Type 0
Spares id (stages messages) = Unit
Spares id (claims limit) = Unit
Spares id (publishes own time) = own ≢ id
Spares id (fails own error) = own ≢ id

stage_one-claimed : (o : OutboxStore) (m : OutboxMessage) → (stage_one o m).claimed ≡ o.claimed
unfolding stage_one
stage_one-claimed o m = ground arith

stage-claimed : (o : OutboxStore) (ms : List OutboxMessage) → (stage o ms).claimed ≡ o.claimed
unfolding stage
stage-claimed o [] = refl
stage-claimed o (m ∷ ms) = stage-claimed (stage_one o m) ms ∙ stage_one-claimed o m

mark_published-keeps :
    (o : OutboxStore) (own id : Text) (time : ℕ)
    → own ≢ id
    → is_claimed o.claimed id ≡ true
    → is_claimed (mark_published o own time).claimed id ≡ true
unfolding mark_published
mark_published-keeps o own id time other h =
    ground (arith, is_claimed-unclaim o.claimed own id other h)

mark_failed-keeps :
    (o : OutboxStore) (own id error : Text)
    → own ≢ id
    → is_claimed o.claimed id ≡ true
    → is_claimed (mark_failed o own error).claimed id ≡ true
unfolding mark_failed
mark_failed-keeps o own id error other h =
    ground (arith, is_claimed-unclaim o.claimed own id other h)

operate-keeps :
    (operation : Operation) (o : OutboxStore) (id : Text)
    → Spares id operation
    → is_claimed o.claimed id ≡ true
    → is_claimed (operate operation o).claimed id ≡ true
unfolding operate Spares claim_pending
operate-keeps (stages ms) o id spared h = ap (λ c. is_claimed c id) (stage-claimed o ms) ∙ h
operate-keeps (claims limit) o id spared h = is_claimed-behind _ o.claimed id h
operate-keeps (publishes own time) o id spared h = mark_published-keeps o own id time spared h
operate-keeps (fails own error) o id spared h = mark_failed-keeps o own id error spared h

operate_all-keeps :
    (operations : List Operation) (o : OutboxStore) (id : Text)
    → All (Spares id) operations
    → is_claimed o.claimed id ≡ true
    → is_claimed (operate_all operations o).claimed id ≡ true
unfolding operate_all
operate_all-keeps [] o id spared h = h
operate_all-keeps (operation ∷ operations) o id spared h =
    operate_all-keeps operations (operate operation o) id spared.1
      (operate-keeps operation o id spared.0 h)

-- What is claimed is not handed out.
claim_pending-fresh :
    (o : OutboxStore) (limit : ℕ) (id : Text)
    → is_claimed o.claimed id ≡ true
    → All (λ m. m.id ≢ id) (claim_pending o limit).0
unfolding claim_pending
claim_pending-fresh o limit id h =
    All-take (λ m. m.id ≢ id) limit _
      (All-sort_messages (λ m. m.id ≢ id) _
        (All-weaken (λ m. is_pending o.claimed m ≡ true) (λ m. m.id ≢ id)
          (λ m pending same.
            let free = not_claimed o.claimed m pending in
            let taken = ap (is_claimed o.claimed) same ∙ h in cc)
          _ (All-select (is_pending o.claimed) (values o.messages))))

-- A message that a claim of the outbox handed out is not handed out by a later claim, whatever was
-- staged, claimed and marked in between, as long as that message itself was not marked.
pub claimed_once :
    (o : OutboxStore) (first second : ℕ) (operations : List Operation) (id : Text)
    → is_claimed (map (λ m. m.id) (claim_pending o first).0) id ≡ true
    → All (Spares id) operations
    → All
        (λ m. m.id ≢ id)
        (claim_pending (operate_all operations (claim_pending o first).1) second).0
unfolding claim_pending
claimed_once o first second operations id handed spared =
    claim_pending-fresh (operate_all operations (claim_pending o first).1) second id (
      operate_all-keeps operations (claim_pending o first).1 id spared
        (is_claimed-front _ o.claimed id handed))
