-- ===== src/Projection/Runner/Replay.antt =====
-- The replay of the log in pages: it ends, and it comes to the projection of all events in one go.
use event_sourced_core_banki.Base.{
  ℕ, zero, suc, ◌+◌, ◌≤◌, ◌<◌, ◌≡◌, refl, sym, ap, subst, ◌∙◌, some, List, [], ◌∷◌, ◌++◌, length,
  take, drop, select, length-take, length-drop, take-append-drop, ltb, arith,
}
use event_sourced_core_banki.Common.Result.{Result, ok, err}
use event_sourced_core_banki.Infrastructure.EventStore.{EventStore, PositionedEvent, read_all}
use event_sourced_core_banki.Infrastructure.EventStore.Streams.{IsPositioned, IsValid}
use event_sourced_core_banki.Projection.Runner.{
  Views, Projected, project_one, after_event, project_page, after_page, project_read, replay_loop,
  replay_from, page_size,
}

select-positioned :
    (v j : ℕ) (ps : List PositionedEvent)
    → IsPositioned j ps
    → v ≤ j
    → select (λ p. ltb v p.position) ps ≡ ps
select-positioned v j [] h l = refl
select-positioned v j (p ∷ ps) h l = ground (arith, select-positioned v (j + 1) ps h.1)

select-behind :
    (k v n : ℕ) (ps : List PositionedEvent)
    → n ≡ k + v
    → IsPositioned k ps
    → select (λ p. ltb n p.position) ps ≡ drop v ps
select-behind k zero n [] e h = refl
select-behind k (suc v) n [] e h = refl
select-behind k zero n (p ∷ ps) e h = select-positioned n k (p ∷ ps) h (omega arith)
select-behind k (suc v) n (p ∷ ps) e h =
    ground (arith, select-behind (k + 1) v n ps (omega arith) h.1)

-- A page is what stands behind the checkpoint, cut.
read_all-drop :
    (store : EventStore) (checkpoint page : ℕ)
    → IsValid store
    → read_all store checkpoint page ≡ take page (drop checkpoint store.all_events)
unfolding read_all
read_all-drop store checkpoint page v =
    ap (λ ps. take page ps)
      (select-behind 0 checkpoint checkpoint store.all_events (omega arith) v.positioned)

-- What the loop over a page leaves, as the start of the loop over more events.
abbrev continue :
    List PositionedEvent → Result (Unit {0}) × ℕ × Views → Result (Unit {0}) × ℕ × Views
continue more (ok _, checkpoint, views) = project_page more checkpoint views
continue more (err e, checkpoint, views) = (err e, checkpoint, views)

after_event-continue :
    (event : PositionedEvent) (c : ℕ) (more : List PositionedEvent)
    (f g : ℕ → Views → Result (Unit {0}) × ℕ × Views) (p : Projected)
    → ((k : ℕ) (v : Views) → f k v ≡ continue more (g k v))
    → after_event event c f p ≡ continue more (after_event event c g p)
unfolding after_event
after_event-continue event c more f g (ok _, views) h = h event.position views
after_event-continue event c more f g (err e, views) h = refl

-- The loop over one list after another is the loop over both.
project_page-append :
    (events more : List PositionedEvent) (c : ℕ) (views : Views)
    → project_page (events ++ more) c views ≡ continue more (project_page events c views)
unfolding project_page
project_page-append [] more c views = refl
project_page-append (event ∷ events) more c views =
    after_event-continue event c more (λ k v. project_page (events ++ more) k v)
      (λ k v. project_page events k v) (project_one event.event views)
      (λ k v. project_page-append events more k v)

drop-length-take : (n : ℕ) (ps : List PositionedEvent) → drop (length (take n ps)) ps ≡ drop n ps
drop-length-take zero ps = refl
drop-length-take (suc n) [] = refl
drop-length-take (suc n) (p ∷ ps) = drop-length-take n ps

drop-nil : (n : ℕ) → ◌≡◌ {A = List PositionedEvent} (drop n []) []
drop-nil zero = refl
drop-nil (suc n) = refl

drop-drop : (m n : ℕ) (ps : List PositionedEvent) → drop (m + n) ps ≡ drop n (drop m ps)
drop-drop zero n ps = let e : zero + n ≡ n = omega arith in ap (λ k. drop k ps) e
drop-drop (suc m) n [] = drop-nil (suc m + n) ∙ sym (drop-nil n)
drop-drop (suc m) n (p ∷ ps) =
    let e : suc m + n ≡ suc (m + n) = omega arith in ap (λ k. drop k (p ∷ ps)) e ∙ drop-drop m n ps

IsPositioned-drop :
    (k n : ℕ) (ps : List PositionedEvent) → IsPositioned k ps → IsPositioned (k + n) (drop n ps)
IsPositioned-drop k zero ps h = subst (λ j. IsPositioned j ps) (omega arith) h
IsPositioned-drop k (suc n) [] h = tt
IsPositioned-drop k (suc n) (p ∷ ps) h =
    subst (λ j. IsPositioned j (drop n ps)) (omega arith) (IsPositioned-drop (k + 1) n ps h.1)

IsPositioned-take :
    (k n : ℕ) (ps : List PositionedEvent) → IsPositioned k ps → IsPositioned k (take n ps)
IsPositioned-take k zero ps h = tt
IsPositioned-take k (suc n) [] h = tt
IsPositioned-take k (suc n) (p ∷ ps) h = (h.0, IsPositioned-take (k + 1) n ps h.1)

-- A loop over a page that succeeds leaves the position of the last event.
EndsAt : ℕ → Result (Unit {0}) × ℕ × Views → Type 0
EndsAt n (ok _, checkpoint, views) = checkpoint ≡ n
EndsAt n (err e, checkpoint, views) = Unit

after_event-EndsAt :
    (event : PositionedEvent) (c n : ℕ) (f : ℕ → Views → Result (Unit {0}) × ℕ × Views)
    (p : Projected)
    → ((v : Views) → EndsAt n (f event.position v))
    → EndsAt n (after_event event c f p)
unfolding after_event EndsAt
after_event-EndsAt event c n f (ok _, views) h = h views
after_event-EndsAt event c n f (err e, views) h = tt

project_page-EndsAt :
    (c n : ℕ) (events : List PositionedEvent) (views : Views)
    → IsPositioned c events
    → n ≡ c + length events
    → EndsAt n (project_page events c views)
unfolding project_page EndsAt
project_page-EndsAt c n [] views h e = omega (arith, e)
project_page-EndsAt c n (event ∷ events) views h e =
    after_event-EndsAt event c n (λ k v. project_page events k v) (project_one event.event views)
      (λ v.
        subst (λ k. EndsAt n (project_page events k v)) (sym h.0)
          (project_page-EndsAt (c + 1) n events v h.1 (omega (arith, e))))

module _ (page : ℕ) (some_page : 1 ≤ page) (store : EventStore) (v : IsValid store) where
  -- The events behind a checkpoint.
  abbrev behind : ℕ → List PositionedEvent
  behind checkpoint = drop checkpoint store.all_events

  next-behind :
      (c c' : ℕ) (ps : List PositionedEvent)
      → take page (behind c) ≡ ps
      → c' ≡ c + length ps
      → behind c' ≡ drop page (behind c)
  next-behind c c' ps e at =
      ap behind at
      ∙ drop-drop c (length ps) store.all_events
      ∙ ap (λ qs. drop (length qs) (behind c)) (sym e)
      ∙ drop-length-take page (behind c)

  whole :
      (c : ℕ) (ps : List PositionedEvent)
      → take page (behind c) ≡ ps
      → (views : Views)
      → project_page (behind c) c views ≡ continue (drop page (behind c)) (project_page ps c views)
  whole c ps e views =
      ap (λ qs. project_page qs c views) (sym (take-append-drop page (behind c)))
      ∙ ap (λ qs. project_page (qs ++ drop page (behind c)) c views) e
      ∙ project_page-append ps (drop page (behind c)) c views

  nothing_left : (ps : List PositionedEvent) → take page ps ≡ [] → ps ≡ []
  nothing_left [] e = refl
  nothing_left (p ∷ ps) e =
      absurd (omega (arith, ap length e, length-take page (p ∷ ps), some_page))

  -- A round of the loop, by what the page comes to.
  after_page-whole :
      (rounds c n : ℕ) (more : List PositionedEvent) (r : Result (Unit {0}) × ℕ × Views)
      → EndsAt n r
      → behind n ≡ more
      → ((views : Views)
          → replay_loop rounds page store n views ≡ some (project_page (behind n) n views))
      → after_page (λ k w. replay_loop rounds page store k w) r ≡ some (continue more r)
  unfolding after_page EndsAt
  after_page-whole rounds c n more (ok _, checkpoint, views) at here next =
      rw at (next views ∙ ap (λ qs. some (project_page qs n views)) here)
  after_page-whole rounds c n more (err e, checkpoint, views) at here next = refl

  round :
      (rounds c : ℕ) (views : Views) (ps : List PositionedEvent)
      → take page (behind c) ≡ ps
      → length (behind c) < suc rounds
      → ((k : ℕ) (w : Views)
          → length (behind k) < rounds
          → replay_loop rounds page store k w ≡ some (project_page (behind k) k w))
      → project_read ps c views (λ k w. replay_loop rounds page store k w)
        ≡ some (project_page (behind c) c views)
  unfolding project_read project_page
  round rounds c views [] e enough next =
      ap (λ qs. some (project_page qs c views)) (sym (nothing_left (behind c) e))
  round rounds c views (p ∷ ps) e enough next =
      let more = next-behind c (c + length (p ∷ ps)) (p ∷ ps) e refl in
      after_page-whole rounds c (c + length (p ∷ ps)) (drop page (behind c))
        (project_page (p ∷ ps) c views)
        (project_page-EndsAt c (c + length (p ∷ ps)) (p ∷ ps) views
          (subst (λ qs. IsPositioned c qs) e
            (IsPositioned-take c page (behind c) (
              subst (λ k. IsPositioned k (behind c)) (omega arith)
                (IsPositioned-drop 0 c store.all_events v.positioned))))
          refl)
        more
        (λ w. next (c + length (p ∷ ps)) w (
          omega (
            arith,
            enough,
            some_page,
            ap length more,
            ap length e,
            length-take page (behind c),
            length-drop page (behind c),
          )))
      ∙ ap some (sym (whole c (p ∷ ps) e views))

  pub replay_loop-whole :
      (rounds c : ℕ) (views : Views)
      → length (behind c) < rounds
      → replay_loop rounds page store c views ≡ some (project_page (behind c) c views)
  unfolding replay_loop
  replay_loop-whole zero c views enough = absurd (omega (arith, enough))
  replay_loop-whole (suc rounds) c views enough =
      ap (λ ps. project_read ps c views (λ k w. replay_loop rounds page store k w))
        (read_all-drop store c page v)
      ∙ round rounds c views (take page (behind c)) refl enough (replay_loop-whole rounds)

-- In a valid store, a replay from a position ends within one round more than there are events
-- behind the position, and comes to the result, the checkpoint and the read models of projecting
-- all those events in one loop, each once and in order, also where a projection fails.
pub replay_from-whole :
    (store : EventStore) (position rounds : ℕ) (views : Views)
    → IsValid store
    → length (drop position store.all_events) < rounds
    → replay_from rounds store position views
      ≡ some (project_page (drop position store.all_events) position views)
unfolding replay_from
replay_from-whole store position rounds views v enough =
    replay_loop-whole page_size (omega arith) store v rounds position views enough
