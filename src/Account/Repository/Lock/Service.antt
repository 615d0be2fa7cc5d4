-- ===== src/Account/Repository/Lock/Service.antt =====
-- What the lock of an account gives to its callers.
use event_sourced_core_banki.Base.{
  ℕ, ◌≤◌, ◌≡◌, ◌≢◌, refl, sym, ap, subst, ◌∙◌, Option, none, some, true, false, inl, inr, List, [],
  ◌∷◌, length, select, arith, Bool-cases,
}
use event_sourced_core_banki.Account.Repository.Lock.{
  Task, Lock, has_ticket, is_resolved, Step, enters, leaves, Reachable,
}
use event_sourced_core_banki.Account.Repository.Lock.Exclusion.{
  IsQueue, IsBelow, IsServed, youngest, Reachable-IsSerial,
}

-- At most one call runs; the map keeps no entry of an idle account; and registered calls move on.
pub record Serves (s : Lock) : Type 0 where
  pub one : length (select (λ task. task.is_running) s.tasks) ≤ 1
  pub cleared : s.tasks ≡ [] → s.entry ≡ none
  pub moves : s.tasks ≢ [] → (s' : Lock) × Step s s'

none_running :
    (k : ℕ) (tasks : List Task) → IsQueue k tasks → select (λ task. task.is_running) tasks ≡ []
none_running k [] q = refl
none_running k (t ∷ tasks) q = rw (q.2, none_running t.ticket tasks q.3) refl

at_most_one :
    (tasks : List Task) → IsServed tasks → length (select (λ task. task.is_running) tasks) ≤ 1
at_most_one [] h = omega arith
at_most_one (t ∷ tasks) h = let quiet = ap length (none_running t.ticket tasks h.1) in ground arith

-- A ticket that is below all of a queue is not in it.
fresh_below : (j k : ℕ) (tasks : List Task) → IsQueue k tasks → j ≤ k → has_ticket j tasks ≡ false
unfolding has_ticket
fresh_below j k [] q below = refl
fresh_below j k (t ∷ tasks) q below =
    let later = fresh_below j t.ticket tasks q.3 (omega (arith, q.1, below)) in
    let first = q.1 in ground arith

oldest_resolved :
    (p : Option ℕ) (task : Task) (tasks : List Task)
    → IsBelow p task.ticket
    → IsQueue task.ticket tasks
    → is_resolved p (task ∷ tasks) ≡ true
unfolding is_resolved has_ticket
oldest_resolved none task tasks below q = refl
oldest_resolved (some k) task tasks below q =
    let later : has_ticket k tasks ≡ false =
      fresh_below k task.ticket tasks q (omega (arith, below)) in
    ground arith

oldest_moves :
    (s : Lock) (task : Task) (tasks : List Task)
    → s.tasks ≡ task ∷ tasks
    → IsServed (task ∷ tasks)
    → (s' : Lock) × Step s s'
oldest_moves s task tasks e h = elim (Bool-cases task.is_running) [
  | inl runs ↦ (_, leaves s [] tasks task e runs)
  | inr rests ↦ (
    _,
    enters s [] tasks task e rests (
        subst (λ ts. is_resolved task.previous ts ≡ true) (sym e)
          (oldest_resolved task.previous task tasks h.0 h.1)),
  )
]

moves_on :
    (s : Lock) (tasks : List Task)
    → s.tasks ≡ tasks
    → IsServed tasks
    → s.tasks ≢ []
    → (s' : Lock) × Step s s'
moves_on s [] e h some_task = absurd (some_task e)
moves_on s (task ∷ tasks) e h some_task = oldest_moves s task tasks e h

-- Whatever calls register, start and end in whatever order, at most one call of withAccountLock
-- for an account runs at a time, an account without calls has no entry in the map, and where a
-- call is registered some call can start or end.
pub Reachable-Serves : (s : Lock) → Reachable s → Serves s
Reachable-Serves s r =
    let h = Reachable-IsSerial r in
    record {
      one = at_most_one s.tasks h.served;
      cleared = λ e. h.entry ∙ ap youngest e;
      moves = moves_on s s.tasks refl h.served;
    }
