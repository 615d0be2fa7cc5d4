-- ===== src/Projection/Coordination.antt =====
-- infrastructure/projections/projection-coordination.service.ts: live projections share, a rebuild
-- runs exclusively. An `await` lets other tasks run, so a check by `waitUntil` and what follows it
-- are two steps: a task whose check has held goes on later. A check that fails leaves a resolver in
-- `waitingResolvers`, and the task checks again only once `notifyWaiters` has called that resolver.
-- The promises of `exclusiveQueue` let one exclusive operation after another have its turn.
pub mod Drain
pub mod Progress
mod Tests
use event_sourced_core_banki.Base.{
  ℕ, zero, suc, ◌+◌, ◌≡◌, Bool, true, false, not, ◌&&◌, eqb, if◌then◌else◌,
}

-- Where the exclusive operation that has its turn stands: there is none, its resolver is among the
-- `waitingResolvers`, its resolver was called, its check has held, or its work runs.
pub data Turn : Type 0 where
  idle waiting woken checked running : Turn

-- The resolvers in `waitingResolvers` are those of the shared operations that wait and, while the
-- turn is `waiting`, that of the exclusive operation.
pub record Coordination : Type 0 where
  pub active_shared_operations : ℕ
  pub exclusive_operation_in_progress : Bool
  pub exclusive_operation_requested : Bool
  pub turn : Turn
  -- shared operations whose resolver is among the `waitingResolvers`, those whose resolver was
  -- called, and those whose check has held but that are not counted yet
  pub shared_waiting : ℕ
  pub shared_woken : ℕ
  pub shared_checked : ℕ
  -- exclusive operations behind the one that has its turn
  pub exclusive_queue : ℕ

abbrev pub new_coordination : Coordination
new_coordination = record {
  active_shared_operations = 0;
  exclusive_operation_in_progress = false;
  exclusive_operation_requested = false;
  turn = idle;
  shared_waiting = 0;
  shared_woken = 0;
  shared_checked = 0;
  exclusive_queue = 0;
}

-- `!this.exclusiveOperationRequested && !this.exclusiveOperationInProgress`
abbrev pub may_share : Coordination → Bool
may_share s = not s.exclusive_operation_requested && not s.exclusive_operation_in_progress

-- `this.activeSharedOperations === 0 && !this.exclusiveOperationInProgress`
abbrev pub may_exclude : Coordination → Bool
may_exclude s = eqb s.active_shared_operations 0 && not s.exclusive_operation_in_progress

-- What becomes of the exclusive operation when every resolver is called.
unfoldable pub wake : Turn → Turn
wake waiting = woken
wake idle = idle
wake woken = woken
wake checked = checked
wake running = running

unfoldable pub notify_waiters : Coordination → Coordination
unfolding wake
notify_waiters s = record s {
  shared_waiting = 0;
  shared_woken = s.shared_woken + s.shared_waiting;
  turn = wake s.turn;
}

-- The checks of `waitUntil`: the task goes on, or leaves its resolver.
unfoldable pub check_shared : Coordination → Coordination
check_shared s =
    if may_share s
    then record s { shared_checked = s.shared_checked + 1 }
    else record s { shared_waiting = s.shared_waiting + 1 }

unfoldable pub check_exclusive : Coordination → Coordination
check_exclusive s = record s { turn = if may_exclude s then checked else waiting }

-- The calls. `runShared` makes its first check at once.
pub data Call : Coordination → Coordination → Type 0 where
  run_shared : (s : Coordination) → Call s (check_shared s)
  run_exclusive : (s : Coordination) → Call s (record s { exclusive_queue = s.exclusive_queue + 1 })

-- The steps of the operations, up to their `finally` blocks.
pub data Step : Coordination → Coordination → Type 0 where
  shared_checks :
      (s : Coordination) (n : ℕ)
      → s.shared_woken ≡ suc n
      → Step s (check_shared (record s { shared_woken = n }))
  shared_enters :
      (s : Coordination) (n : ℕ)
      → s.shared_checked ≡ suc n
      → Step s (record s {
        shared_checked = n;
        active_shared_operations = s.active_shared_operations + 1;
      })
  shared_ends :
      (s : Coordination) (n : ℕ)
      → s.active_shared_operations ≡ suc n
      → Step s (notify_waiters (record s { active_shared_operations = n }))
  -- the part of `runExclusive` behind `await previousExclusive`, with its first check
  exclusive_requests :
      (s : Coordination) (n : ℕ)
      → s.exclusive_queue ≡ suc n
      → s.turn ≡ idle
      → Step s (
          check_exclusive (
            notify_waiters
              (record s { exclusive_queue = n; exclusive_operation_requested = true })))
  exclusive_checks : (s : Coordination) → s.turn ≡ woken → Step s (check_exclusive s)
  exclusive_enters :
      (s : Coordination)
      → s.turn ≡ checked
      → Step s (record s { exclusive_operation_in_progress = true; turn = running })
  exclusive_ends :
      (s : Coordination)
      → s.turn ≡ running
      → Step s (
          notify_waiters (record s {
            exclusive_operation_in_progress = false;
            exclusive_operation_requested = false;
            turn = idle;
          }))

pub data Reachable : Coordination → Type 0 where
  start : Reachable new_coordination
  called : {s s' : Coordination} → Reachable s → Call s s' → Reachable s'
  stepped : {s s' : Coordination} → Reachable s → Step s s' → Reachable s'
