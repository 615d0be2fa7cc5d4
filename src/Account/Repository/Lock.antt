-- ===== src/Account/Repository/Lock.antt =====
-- `withAccountLock` of modules/accounts/domain/account.repository.ts, which
-- `withTransferLock` of modules/transfers/domain/transfer.repository.ts repeats: the calls for one
-- account, whose entry in the map no other account touches. A ticket stands for the promise that a
-- call makes; the promise is resolved when its call is no longer in the list.
pub mod Exclusion
pub mod Service
mod Tests
use event_sourced_core_banki.Base.{
  ℕ, ◌+◌, ◌≡◌, Option, none, some, Bool, true, false, List, [], ◌∷◌, ◌++◌, has_some, eqb,
  if◌then◌else◌,
}

-- A call that has registered and has not ended: it awaits the promise that it found, or runs.
pub record Task : Type 0 where
  pub ticket : ℕ
  pub previous : Option ℕ
  pub is_running : Bool

pub record Lock : Type 0 where
  -- `accountLocks.get(accountId)`
  pub entry : Option ℕ
  pub next_ticket : ℕ
  -- in the order of their calls
  pub tasks : List Task

abbrev pub new_lock : Lock
new_lock = record { entry = none; next_ticket = 0; tasks = [] }

unfoldable pub has_ticket : ℕ → List Task → Bool
has_ticket ticket tasks = has_some (λ task. eqb task.ticket ticket) tasks

-- `?? Promise.resolve()`, or a promise whose call has ended.
unfoldable pub is_resolved : Option ℕ → List Task → Bool
unfolding has_ticket
is_resolved none tasks = true
is_resolved (some ticket) tasks = if has_ticket ticket tasks then false else true

-- `if (this.accountLocks.get(accountId) === lock) this.accountLocks.delete(accountId)`
unfoldable pub drop_entry : Option ℕ → ℕ → Option ℕ
drop_entry none ticket = none
drop_entry (some k) ticket = if eqb k ticket then none else some k

pub data Call : Lock → Lock → Type 0 where
  -- the call, up to `await prev`
  registers :
      (s : Lock)
      → Call s (record {
        entry = some s.next_ticket;
        next_ticket = s.next_ticket + 1;
        tasks =
            s.tasks
            ++ record { ticket = s.next_ticket; previous = s.entry; is_running = false } ∷ [];
      })

pub data Step : Lock → Lock → Type 0 where
  -- `await prev` returns, and `fn` starts
  enters :
      (s : Lock) (before after : List Task) (task : Task)
      → s.tasks ≡ before ++ task ∷ after
      → task.is_running ≡ false
      → is_resolved task.previous s.tasks ≡ true
      → Step s (record s { tasks = before ++ record task { is_running = true } ∷ after })
  -- `fn` has ended, and the `finally` block runs
  leaves :
      (s : Lock) (before after : List Task) (task : Task)
      → s.tasks ≡ before ++ task ∷ after
      → task.is_running ≡ true
      → Step s (record s { entry = drop_entry s.entry task.ticket; tasks = before ++ after })

pub data Reachable : Lock → Type 0 where
  start : Reachable new_lock
  called : {s s' : Lock} → Reachable s → Call s s' → Reachable s'
  stepped : {s s' : Lock} → Reachable s → Step s s' → Reachable s'
