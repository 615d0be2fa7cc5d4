-- ===== src/Transfer/ReadModel/Stuck.antt =====
-- in-memory-transfer-read-model.repository.ts: what the list of stuck transfers holds.
use event_sourced_core_banki.Base.{
  ℕ, ◌+◌, ◌*◌, zero, suc, ◌≡◌, refl, sym, ap, ◌∙◌, Bool, true, false, List, [], ◌∷◌, take, select,
  All, All-take, arith, if◌then◌else◌, leb, values,
}
use event_sourced_core_banki.Transfer.ReadModel.{
  TransferSummary, TransferSummaries, is_pending, insert_summary, sort_summaries,
  list_pending_transfers, list_stuck_transfers,
}

-- Each summary was updated no later than those behind it.
unfoldable IsOldestFirst : List TransferSummary → Type 0
IsOldestFirst [] = Unit
IsOldestFirst (x ∷ xs) = All (λ y. leb x.updated_at y.updated_at ≡ true) xs × IsOldestFirst xs

leb_trans : (a b c : ℕ) → leb a b ≡ true → leb b c ≡ true → leb a c ≡ true
leb_trans a b c h k = ground (arith, h, k)

leb_total : (a b : ℕ) → leb a b ≡ false → leb b a ≡ true
leb_total a b h = ground (arith, h)

All-later :
    (a b : ℕ) (xs : List TransferSummary)
    → leb a b ≡ true
    → All (λ y. leb b y.updated_at ≡ true) xs
    → All (λ y. leb a y.updated_at ≡ true) xs
All-later a b [] h k = tt
All-later a b (x ∷ xs) h k = (leb_trans a b x.updated_at h k.0, All-later a b xs h k.1)

if-All :
    {A : Type 0} (P : A → Type 0) (b : Bool) (xs ys : List A)
    → All P xs
    → All P ys
    → All P (if b then xs else ys)
if-All P true xs ys h k = h
if-All P false xs ys h k = k

All-insert_summary :
    (P : TransferSummary → Type 0) (m : TransferSummary) (xs : List TransferSummary)
    → P m
    → All P xs
    → All P (insert_summary m xs)
unfolding insert_summary
All-insert_summary P m [] h k = (h, tt)
All-insert_summary P m (x ∷ xs) h k =
    if-All P (leb m.updated_at x.updated_at) (m ∷ x ∷ xs) (x ∷ insert_summary m xs) (h, k)
      (k.0, All-insert_summary P m xs h k.1)

if-IsOldestFirst :
    (b : Bool) (xs ys : List TransferSummary)
    → (b ≡ true → IsOldestFirst xs)
    → (b ≡ false → IsOldestFirst ys)
    → IsOldestFirst (if b then xs else ys)
if-IsOldestFirst true xs ys h k = h refl
if-IsOldestFirst false xs ys h k = k refl

insert_summary-IsOldestFirst :
    (m : TransferSummary) (xs : List TransferSummary)
    → IsOldestFirst xs
    → IsOldestFirst (insert_summary m xs)
unfolding insert_summary IsOldestFirst
insert_summary-IsOldestFirst m [] h = (tt, tt)
insert_summary-IsOldestFirst m (x ∷ xs) h =
    if-IsOldestFirst (leb m.updated_at x.updated_at) (m ∷ x ∷ xs) (x ∷ insert_summary m xs)
      (λ e. ((e, All-later m.updated_at x.updated_at xs e h.0), h))
      (λ e. (
        All-insert_summary (λ y. leb x.updated_at y.updated_at ≡ true) m xs
            (leb_total m.updated_at x.updated_at e) h.0,
        insert_summary-IsOldestFirst m xs h.1,
      ))

sort_summaries-IsOldestFirst : (xs : List TransferSummary) → IsOldestFirst (sort_summaries xs)
unfolding sort_summaries IsOldestFirst
sort_summaries-IsOldestFirst [] = tt
sort_summaries-IsOldestFirst (x ∷ xs) =
    insert_summary-IsOldestFirst x (sort_summaries xs) (sort_summaries-IsOldestFirst xs)

-- Updated at the latest at `cutoff`, once `age` is added.
abbrev is_old : ℕ → ℕ → TransferSummary → Bool
is_old age cutoff s = leb (s.updated_at + age) cutoff

none_old :
    (age cutoff first : ℕ) (xs : List TransferSummary)
    → leb (first + age) cutoff ≡ false
    → All (λ y. leb first y.updated_at ≡ true) xs
    → select (is_old age cutoff) xs ≡ []
none_old age cutoff first [] h k = refl
none_old age cutoff first (x ∷ xs) h k = ground (arith, h, k.0, none_old age cutoff first xs h k.1)

take_if :
    {A : Type 0} (b : Bool) (n : ℕ) (x : A) (ys zs : List A)
    → take n ys ≡ take n zs
    → (b ≡ false → ys ≡ [])
    → (b ≡ false → zs ≡ [])
    → take (suc n) (if b then x ∷ ys else ys) ≡ take (suc n) (if b then x ∷ zs else zs)
take_if true n x ys zs same h k = ap (λ t. x ∷ t) same
take_if false n x ys zs same h k = ap (take (suc n)) (h refl ∙ sym (k refl))

-- Behind the first summary that is not old, none is.
take-old :
    (age cutoff limit : ℕ) (xs : List TransferSummary)
    → IsOldestFirst xs
    → take limit (select (is_old age cutoff) (take limit xs))
      ≡ take limit (select (is_old age cutoff) xs)
unfolding IsOldestFirst
take-old age cutoff zero xs h = refl
take-old age cutoff (suc limit) [] h = refl
take-old age cutoff (suc limit) (x ∷ xs) h =
    take_if (is_old age cutoff x) limit x (select (is_old age cutoff) (take limit xs))
      (select (is_old age cutoff) xs) (take-old age cutoff limit xs h.1)
      (λ e. none_old age cutoff x.updated_at (take limit xs) e (All-take _ limit xs h.0))
      (λ e. none_old age cutoff x.updated_at xs e h.0)

-- The transfers that listStuckTransfers gives are the first `limit`, oldest first, of all the
-- pending transfers that were last updated at least the given number of seconds ago, though it
-- looks only at the first `limit` pending ones.
pub stuck_complete :
    (now : ℕ) (summaries : TransferSummaries) (older_than_seconds limit : ℕ)
    → list_stuck_transfers now summaries older_than_seconds limit
      ≡ take limit (
          select
            (λ s. leb (s.updated_at + older_than_seconds * 1000) now)
            (sort_summaries (select is_pending (values summaries))))
unfolding list_stuck_transfers list_pending_transfers
stuck_complete now summaries older_than_seconds limit =
    take-old (older_than_seconds * 1000) now limit _ (sort_summaries-IsOldestFirst _)
