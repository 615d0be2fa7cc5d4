-- ===== src/Account/Repository/Lock/Exclusion.antt =====
-- The calls of one account run one at a time, in the order of their calls.
use event_sourced_core_banki.Base.{
  ℕ, ◌+◌, ◌≤◌, ◌<◌, ◌≡◌, refl, sym, ap, subst, ◌∙◌, Option, none, some, Bool, true, false, ◌⊎◌, inl,
  inr, List, [], ◌∷◌, ◌++◌, arith,
}
use event_sourced_core_banki.Account.Repository.Lock.{
  Task, Lock, has_ticket, is_resolved, drop_entry, Call, Step, registers, enters, leaves, Reachable,
  start, called, stepped,
}

-- Every call awaits the one before it, by growing tickets, and does not run.
abbrev pub IsQueue : ℕ → List Task → Type 0
IsQueue k [] = Unit
IsQueue k (task ∷ tasks) =
    (task.previous ≡ some k)
    × (k < task.ticket)
    × (task.is_running ≡ false)
    × IsQueue task.ticket tasks

-- The ticket of the last call, or one that is given.
abbrev pub last_ticket : ℕ → List Task → ℕ
last_ticket k [] = k
last_ticket k (task ∷ tasks) = last_ticket task.ticket tasks

abbrev pub youngest : List Task → Option ℕ
youngest [] = none
youngest (task ∷ tasks) = some (last_ticket task.ticket tasks)

abbrev pub IsBelow : Option ℕ → ℕ → Type 0
IsBelow none n = Unit
IsBelow (some k) n = k < n

-- Only the oldest call may run, and what it awaited has a smaller ticket.
abbrev pub IsServed : List Task → Type 0
IsServed [] = Unit
IsServed (task ∷ tasks) = IsBelow task.previous task.ticket × IsQueue task.ticket tasks

pub record IsSerial (s : Lock) : Type 0 where
  pub served : IsServed s.tasks
  pub entry : s.entry ≡ youngest s.tasks
  pub below : IsBelow (youngest s.tasks) s.next_ticket

last_ticket-snoc :
    (k : ℕ) (tasks : List Task) (task : Task) → last_ticket k (tasks ++ task ∷ []) ≡ task.ticket
last_ticket-snoc k [] task = refl
last_ticket-snoc k (t ∷ tasks) task = last_ticket-snoc t.ticket tasks task

youngest-snoc : (tasks : List Task) (task : Task) → youngest (tasks ++ task ∷ []) ≡ some task.ticket
youngest-snoc [] task = refl
youngest-snoc (t ∷ tasks) task = ap some (last_ticket-snoc t.ticket tasks task)

IsQueue-snoc :
    (k : ℕ) (tasks : List Task) (task : Task)
    → IsQueue k tasks
    → task.previous ≡ some (last_ticket k tasks)
    → last_ticket k tasks < task.ticket
    → task.is_running ≡ false
    → IsQueue k (tasks ++ task ∷ [])
IsQueue-snoc k [] task q e below quiet = (e, below, quiet, tt)
IsQueue-snoc k (t ∷ tasks) task q e below quiet =
    (q.0, q.1, q.2, IsQueue-snoc t.ticket tasks task q.3 e below quiet)

IsServed-snoc :
    (tasks : List Task) (task : Task)
    → IsServed tasks
    → task.previous ≡ youngest tasks
    → IsBelow (youngest tasks) task.ticket
    → task.is_running ≡ false
    → IsServed (tasks ++ task ∷ [])
IsServed-snoc [] task h e below quiet = (subst (λ p. IsBelow p task.ticket) (sym e) tt, tt)
IsServed-snoc (t ∷ tasks) task h e below quiet =
    (h.0, IsQueue-snoc t.ticket tasks task h.1 e below quiet)

-- A call in the queue awaits a call that stands before it, and does not run.
awaited :
    (k : ℕ) (before after : List Task) (task : Task)
    → IsQueue k (before ++ task ∷ after)
    → (j : ℕ) × (task.previous ≡ some j)
      × ((j ≡ k) ⊎ (has_ticket j (before ++ task ∷ after) ≡ true))
unfolding has_ticket
awaited k [] after task q = (k, q.0, inl refl)
awaited k (t ∷ before) after task q =
    let (j, e, place) = awaited t.ticket before after task q.3 in
    (
      j,
      e,
      elim place [
        | inl same ↦ inr (ground (arith, same))
        | inr later ↦ inr (ground (arith, later))
      ],
    )

not_running :
    (k : ℕ) (before after : List Task) (task : Task)
    → IsQueue k (before ++ task ∷ after)
    → task.is_running ≡ false
not_running k [] after task q = q.2
not_running k (t ∷ before) after task q = not_running t.ticket before after task q.3

last-above : (k : ℕ) (tasks : List Task) → IsQueue k tasks → k ≤ last_ticket k tasks
last-above k [] q = omega arith
last-above k (t ∷ tasks) q = omega (arith, q.1, last-above t.ticket tasks q.3)

contradict : {b : Bool} → b ≡ true → b ≡ false → ⊥
contradict p q = cc

unresolved :
    (p : Option ℕ) (j : ℕ) (tasks : List Task)
    → p ≡ some j
    → has_ticket j tasks ≡ true
    → is_resolved p tasks ≡ false
unfolding is_resolved
unresolved p j tasks e h = rw (e, h) refl

-- Only the oldest call finds its promise resolved.
oldest_enters :
    (before after : List Task) (task : Task)
    → IsServed (before ++ task ∷ after)
    → is_resolved task.previous (before ++ task ∷ after) ≡ true
    → before ≡ []
unfolding has_ticket
oldest_enters [] after task h free = refl
oldest_enters (t ∷ before) after task h free =
    let (j, e, place) = awaited t.ticket before after task h.1 in
    let held : has_ticket j ((t ∷ before) ++ task ∷ after) ≡ true = elim place [
      | inl same ↦ ground (arith, same)
      | inr later ↦ ground (arith, later)
    ] in
    absurd (contradict free (unresolved task.previous j ((t ∷ before) ++ task ∷ after) e held))

oldest_leaves :
    (before after : List Task) (task : Task)
    → IsServed (before ++ task ∷ after)
    → task.is_running ≡ true
    → before ≡ []
oldest_leaves [] after task h runs = refl
oldest_leaves (t ∷ before) after task h runs =
    absurd (contradict runs (not_running t.ticket before after task h.1))

Call-IsSerial : {s s' : Lock} → Call s s' → IsSerial s → IsSerial s'
Call-IsSerial (registers s) h =
    let task : Task = record { ticket = s.next_ticket; previous = s.entry; is_running = false } in
    record {
      served = IsServed-snoc s.tasks task h.served h.entry h.below refl;
      entry = sym (youngest-snoc s.tasks task);
      below =
          subst (λ p. IsBelow p (s.next_ticket + 1)) (sym (youngest-snoc s.tasks task))
            (omega arith);
    }

enters-IsSerial :
    (s : Lock) (after : List Task) (task : Task)
    → s.tasks ≡ task ∷ after
    → IsSerial s
    → IsSerial (record s { tasks = record task { is_running = true } ∷ after })
enters-IsSerial s after task e h = record {
  served = subst IsServed e h.served;
  entry = h.entry ∙ ap youngest e;
  below = subst (λ ts. IsBelow (youngest ts) s.next_ticket) e h.below;
}

drop_entry-youngest :
    (task : Task) (after : List Task)
    → IsQueue task.ticket after
    → drop_entry (some (last_ticket task.ticket after)) task.ticket ≡ youngest after
unfolding drop_entry
drop_entry-youngest task [] q = ground arith
drop_entry-youngest task (t ∷ after) q =
    let later = last-above t.ticket after q.3 in let first = q.1 in ground arith

IsServed-tail : (task : Task) (after : List Task) → IsServed (task ∷ after) → IsServed after
IsServed-tail task [] h = tt
IsServed-tail task (t ∷ after) h = (subst (λ p. IsBelow p t.ticket) (sym h.1.0) h.1.1, h.1.3)

IsBelow-tail :
    (task : Task) (after : List Task) (n : ℕ)
    → IsBelow (youngest (task ∷ after)) n
    → IsBelow (youngest after) n
IsBelow-tail task [] n h = tt
IsBelow-tail task (t ∷ after) n h = h

leaves-IsSerial :
    (s : Lock) (after : List Task) (task : Task)
    → s.tasks ≡ task ∷ after
    → IsSerial s
    → IsSerial (record s { entry = drop_entry s.entry task.ticket; tasks = after })
leaves-IsSerial s after task e h =
    let served : IsServed (task ∷ after) = subst IsServed e h.served in
    record {
      served = IsServed-tail task after served;
      entry =
          ap (λ p. drop_entry p task.ticket) (h.entry ∙ ap youngest e)
          ∙ drop_entry-youngest task after served.1;
      below =
          IsBelow-tail task after s.next_ticket
            (subst (λ ts. IsBelow (youngest ts) s.next_ticket) e h.below);
    }

Step-IsSerial : {s s' : Lock} → Step s s' → IsSerial s → IsSerial s'
Step-IsSerial (enters s before after task e rests free) h =
    let first =
      oldest_enters before after task (subst IsServed e h.served)
        (subst (λ ts. is_resolved task.previous ts ≡ true) e free) in
    subst (λ b. IsSerial (record s { tasks = b ++ record task { is_running = true } ∷ after }))
      (sym first) (enters-IsSerial s after task (e ∙ ap (λ b. b ++ task ∷ after) first) h)
Step-IsSerial (leaves s before after task e runs) h =
    let first = oldest_leaves before after task (subst IsServed e h.served) runs in
    subst (λ b. IsSerial (record s { entry = drop_entry s.entry task.ticket; tasks = b ++ after }))
      (sym first) (leaves-IsSerial s after task (e ∙ ap (λ b. b ++ task ∷ after) first) h)

pub Reachable-IsSerial : {s : Lock} → Reachable s → IsSerial s
Reachable-IsSerial start = record { served = tt; entry = refl; below = tt }
Reachable-IsSerial (called r c) = Call-IsSerial c (Reachable-IsSerial r)
Reachable-IsSerial (stepped r t) = Step-IsSerial t (Reachable-IsSerial r)
